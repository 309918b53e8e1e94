-- ===== src/RunLock/Lock/Refused.antt =====
-- `acquire` of `src/app/session-run-lock.ts` where it returns false: the files after it.
use pi_smart_compact.Base.{
  suc, ◌+◌, ◌≡◌, ◌≢◌, refl, ◌⊎◌, inl, inr, String, true, false, ◌||◌, is_some, none, arith, leb,
  length, lookup, String_discrete, Bool-cases, subst,
}
use pi_smart_compact.OrderedMap.Laws.{IsDistinct, lookup-delete_ne, lookup-delete_self}
use pi_smart_compact.RunLock.{
  Files, FileLease, Host, Attempt, leased, refused, threw, acquire_file_lease,
}
use pi_smart_compact.RunLock.Attempts.{IsRefused, IsLeased, IsAttempt, acquire_file_lease-IsAttempt}
use pi_smart_compact.RunLock.Lock.{
  LockOptions, SessionRunLock, capacity, stale_ms, take_slot, after_slot, after_session, used,
  acquire,
}
use pi_smart_compact.RunLock.Lock.Slots.{IsSlot, take_slot-cases}
use pi_smart_compact.RunLock.Lock.Round.{lease_inj, released_own, acquire_opened, acquire_shut}

-- Nothing is held, and the files are as they were, but for a stale lease of the session that may
-- have gone.
abbrev pub IsLeftAlone : LockOptions → (s q : SessionRunLock) → String → Type 0
IsLeftAlone o s q id =
    (q.active ≡ s.active)
    × ((g : String)
        → g ≢ o.session_path id
        → lookup String_discrete g q.files ≡ lookup String_discrete g s.files)
    × ((lookup String_discrete (o.session_path id) q.files
          ≡ lookup String_discrete (o.session_path id) s.files)
        ⊎ (lookup String_discrete (o.session_path id) q.files ≡ none))

module _ (o : LockOptions) (h : Host) (s : SessionRunLock) (id : String)
    (unlocked : (file : String) → h.locked file ≡ false)
    (sound : (file : String) → h.broken file ≡ false) where
  same-IsLeftAlone :
      (q : SessionRunLock) → q.active ≡ s.active → q.files ≡ s.files → IsLeftAlone o s q id
  same-IsLeftAlone q a e = (a, (λ g ne. rw e refl), inl (rw e refl))

  slot-IsLeftAlone :
      (files1 : Files) (session : FileLease) (r : Files × Attempt)
      → IsLeased h
          (stale_ms o)
          o.pid
          s.next_token
          (o.session_path id)
          s.files
          (files1, leased session)
      → IsRefused h files1 r ⊎ IsSlot o h 0 (0 + capacity o) (suc s.next_token) files1 r
      → (used o (after_slot h s id session r)).1 ≡ false
      → IsLeftAlone o s (used o (after_slot h s id session r)).0 id
  unfolding after_slot
  slot-IsLeftAlone files1 session (files2, leased slot) got a lost = absurd (ground arith)
  slot-IsLeftAlone files1 session (files2, refused) got (inl (a, e)) lost =
      let gone =
        released_own h o.pid s.next_token got.time (o.session_path id) h.locked files1
          (unlocked (o.session_path id)) got.created in
      (
        refl,
        (λ g ne.
            rw
              (
                e,
                lease_inj got.attempt,
                gone,
                lookup-delete_ne String_discrete files1 g (o.session_path id) ne,
              )
              (got.kept g ne)),
        inr (
            rw (e, lease_inj got.attempt, gone)
              (lookup-delete_self String_discrete files1 (o.session_path id) got.distinct)),
      )
  slot-IsLeftAlone files1 session (files2, refused) got (inr (i, t, low, below, fresh, got2)) lost =
      absurd (let q = got2.attempt in cc)
  slot-IsLeftAlone files1 session (files2, threw) got (inl (inl q, e)) lost = absurd cc
  slot-IsLeftAlone files1 session (files2, threw) got (inl (inr (q, (file, bad)), e)) lost =
      absurd (let good = sound file in ground (arith, bad, good))
  slot-IsLeftAlone files1 session (files2, threw) got (inr (i, t, low, below, fresh, got2)) lost =
      absurd (let q = got2.attempt in cc)

  session-IsLeftAlone :
      (r : Files × Attempt)
      → ((files : Files) → h.others files ≡ files)
      → IsAttempt h (stale_ms o) o.pid s.next_token (o.session_path id) s.files r
      → (used o (after_session o h s id r)).1 ≡ false
      → IsLeftAlone o s (used o (after_session o h s id r)).0 id
  unfolding after_session
  session-IsLeftAlone (files1, leased session) alone (inl (a, e)) lost =
      absurd (elim a [ inl q ↦ cc | inr q ↦ let thrown = q.0 in cc ])
  session-IsLeftAlone (files1, leased session) alone (inr got) lost =
      slot-IsLeftAlone files1 session (take_slot o h (capacity o) 0 (suc s.next_token) files1) got
        (take_slot-cases o h files1 (alone files1) got.distinct (capacity o) 0 (suc s.next_token))
        lost
  session-IsLeftAlone (files1, refused) alone (inl (a, e)) lost =
      (refl, (λ g ne. rw e refl), inl (rw e refl))
  session-IsLeftAlone (files1, refused) alone (inr got) lost = absurd (let q = got.attempt in cc)
  session-IsLeftAlone (files1, threw) alone (inl (a, e)) lost =
      (refl, (λ g ne. rw e refl), inl (rw e refl))
  session-IsLeftAlone (files1, threw) alone (inr got) lost = absurd (let q = got.attempt in cc)

-- Where no file fails with an error and nobody else acts in between, a lock that is refused in a
-- lease directory leaves the process with the sessions it had and the files as they were, but that
-- the session's file may be gone: no lease of the refused call stays.
pub acquire-refused :
    (o : LockOptions) (h : Host) (s : SessionRunLock) (id : String)
    → o.has_lease_dir ≡ true
    → ((file : String) → h.locked file ≡ false)
    → ((file : String) → h.broken file ≡ false)
    → ((files : Files) → h.others files ≡ files)
    → IsDistinct String_discrete s.files
    → (acquire o h s id).1 ≡ false
    → IsLeftAlone o s (acquire o h s id).0 id
acquire-refused o h s id dir unlocked sound alone d lost =
    elim (Bool-cases
      (is_some (lookup String_discrete id s.active) || leb (capacity o) (length s.active))) [
        | inl shut ↦
            rw (acquire_shut o h s id shut) (same-IsLeftAlone o h s id unlocked sound s refl refl)
        | inr free ↦
            let opened = acquire_opened o h s id dir free in
            let attempt =
              acquire_file_lease h (stale_ms o) o.pid s.next_token (o.session_path id) s.files in
            rw opened (
              session-IsLeftAlone o h s id unlocked sound attempt alone
                (acquire_file_lease-IsAttempt h (stale_ms o) o.pid s.next_token (o.session_path id)
                  s.files d (alone s.files))
                (subst (λ r. r.1 ≡ false) opened lost))
      ]
