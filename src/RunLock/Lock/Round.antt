-- ===== src/RunLock/Lock/Round.antt =====
-- `acquire` and then `release` of `src/app/session-run-lock.ts`: the files after both.
use pi_smart_compact.Base.{
  ℕ, suc, ◌+◌, ◌<◌, ◌≡◌, ◌≢◌, refl, ◌⊎◌, inl, inr, String, Bool, true, false, not, ◌||◌, [], none,
  some, is_some, arith, leb, length, lookup, String_discrete, Bool-cases, if_pos, if◌then◌else◌,
  sym, ◌∙◌, append-nil, subst, ◌==◌,
}
use pi_smart_compact.OrderedMap.{OrderedMap, set, delete}
use pi_smart_compact.OrderedMap.Laws.{
  IsDistinct, lookup-set, lookup-delete_ne, lookup-delete_self, delete-IsDistinct, set_absent,
  delete_middle,
}
use pi_smart_compact.RunLock.{
  Files, FileLease, Host, Attempt, leased, refused, threw, created_file, acquire_file_lease,
  release_lease, has_token, text_of,
}
use pi_smart_compact.RunLock.Attempts.{IsRefused, IsLeased, IsAttempt, acquire_file_lease-IsAttempt}
use pi_smart_compact.RunLock.Lock.{
  RunLease, LockOptions, SessionRunLock, capacity, stale_ms, take_slot, after_slot, after_session,
  used, acquire, release_run, release,
}
use pi_smart_compact.RunLock.Lock.Slots.{IsSlot, take_slot-cases}

-- Giving back a lease that is on its file.
pub released_own :
    (h : Host) (pid token time : ℕ) (file : String) (locked : String → Bool) (files : Files)
    → locked file ≡ false
    → lookup String_discrete file files ≡ some (created_file h pid token time)
    → release_lease locked files (record { file = file; token = token })
      ≡ delete String_discrete files file
unfolding release_lease
released_own h pid token time file locked files goes at =
    let own : has_token (text_of (lookup String_discrete file files)) token ≡ true =
      rw at (same_number token) in
    rw (own, goes) refl
  where
    same_number : (n : ℕ) → (n == n) ≡ true
    same_number n = ground arith

delete-set_absent :
    (m : OrderedMap String RunLease) (id : String) (v : RunLease)
    → lookup String_discrete id m ≡ none
    → delete String_discrete (set String_discrete m id v) id ≡ m
delete-set_absent m id v absent =
    rw (set_absent String_discrete m id v absent, delete_middle String_discrete m [] id v absent)
      (append-nil m)

-- The files have neither the session's lease nor the slot's, and otherwise what they had.
pub record IsGivenBack (o : LockOptions) (s q : SessionRunLock) (id : String) : Type 0 where
  pub active : q.active ≡ s.active
  pub slot : ℕ
  pub below : slot < capacity o
  pub no_session : lookup String_discrete (o.session_path id) q.files ≡ none
  pub no_slot : lookup String_discrete (o.slot_path slot) q.files ≡ none
  pub kept :
      (g : String)
      → g ≢ o.session_path id
      → g ≢ o.slot_path slot
      → lookup String_discrete g q.files ≡ lookup String_discrete g s.files

pub lease_inj : {a b : FileLease} → leased a ≡ leased b → a ≡ b
lease_inj q = cc

module _ (o : LockOptions) (h : Host) (s : SessionRunLock) (id : String)
    (separate : (i : ℕ) → o.slot_path i ≢ o.session_path id)
    (unlocked : (file : String) → h.locked file ≡ false) where
  module _ (files1 files2 : Files) (session slot : FileLease) (i t : ℕ)
      (got1 : IsLeased h
        (stale_ms o)
        o.pid
        s.next_token
        (o.session_path id)
        s.files
        (files1, leased session))
      (below : i < capacity o)
      (got2 : IsLeased h (stale_ms o) o.pid t (o.slot_path i) files1 (files2, leased slot)) where
    both_released :
        release_lease h.locked (release_lease h.locked files2 slot) session
        ≡ delete String_discrete (delete String_discrete files2 (o.slot_path i)) (o.session_path id)
    both_released =
        let session_at : lookup String_discrete (o.session_path id)
              (delete String_discrete files2 (o.slot_path i))
            ≡ some (created_file h o.pid s.next_token got1.time) =
          lookup-delete_ne String_discrete files2 (o.session_path id) (o.slot_path i)
            (λ e. separate i (sym e))
          ∙ got2.kept (o.session_path id) (λ e. separate i (sym e))
          ∙ got1.created in
        rw
          (
            lease_inj got2.attempt,
            lease_inj got1.attempt,
            released_own h o.pid t got2.time (o.slot_path i) h.locked files2
                (unlocked (o.slot_path i)) got2.created,
          )
          (released_own h o.pid s.next_token got1.time (o.session_path id) h.locked
            (delete String_discrete files2 (o.slot_path i)) (unlocked (o.session_path id))
            session_at)

    given_back :
        (q : SessionRunLock)
        → q.active ≡ s.active
        → q.files
          ≡ delete String_discrete
              (delete String_discrete files2 (o.slot_path i))
              (o.session_path id)
        → IsGivenBack o s q id
    given_back q same e =
        let less = delete String_discrete files2 (o.slot_path i) in
        let d = delete-IsDistinct String_discrete files2 (o.slot_path i) got2.distinct in
        record {
          active = same;
          slot = i;
          below = below;
          no_session = rw e (lookup-delete_self String_discrete less (o.session_path id) d);
          no_slot =
              rw
                (
                  e,
                  lookup-delete_ne String_discrete less (o.slot_path i) (o.session_path id)
                      (separate i),
                )
                (lookup-delete_self String_discrete files2 (o.slot_path i) got2.distinct);
          kept = λ g other_session other_slot.
              rw
                (
                  e,
                  lookup-delete_ne String_discrete less g (o.session_path id) other_session,
                  lookup-delete_ne String_discrete files2 g (o.slot_path i) other_slot,
                  got2.kept g other_slot,
                  got1.kept g other_session,
                )
                refl;
        }

    two-IsGivenBack :
        lookup String_discrete id s.active ≡ none
        → IsGivenBack o s
            (release h.locked (used o (after_slot h s id session (files2, leased slot))).0 id)
            id
    unfolding after_slot release_run
    two-IsGivenBack absent =
        let lease : RunLease = record { session = some session; slot = some slot } in
        let at : lookup String_discrete id (set String_discrete s.active id lease) ≡ some lease =
          lookup-set String_discrete s.active id id lease
          ∙ if_pos (String_discrete id id) refl (some lease) (lookup String_discrete id s.active) in
        rw at (given_back _ (delete-set_absent s.active id lease absent) both_released)

  -- A slot is taken, after the session.
  slot-IsGivenBack :
      (files1 : Files) (session : FileLease) (r : Files × Attempt)
      → lookup String_discrete id s.active ≡ none
      → IsLeased h
          (stale_ms o)
          o.pid
          s.next_token
          (o.session_path id)
          s.files
          (files1, leased session)
      → IsRefused h files1 r ⊎ IsSlot o h 0 (0 + capacity o) (suc s.next_token) files1 r
      → (used o (after_slot h s id session r)).1 ≡ true
      → IsGivenBack o s (release h.locked (used o (after_slot h s id session r)).0 id) id
  unfolding after_slot
  slot-IsGivenBack files1 session (files2, leased slot) absent got1 (inl (a, e)) won =
      absurd (elim a [ inl q ↦ cc | inr q ↦ let thrown = q.0 in cc ])
  slot-IsGivenBack files1 session (files2, leased slot) absent got1
        (inr (i, t, low, below, fresh, got2)) won =
      two-IsGivenBack files1 files2 session slot i t got1 (omega (arith, below)) got2 absent
  slot-IsGivenBack files1 session (files2, refused) absent got1 a won = absurd (ground arith)
  slot-IsGivenBack files1 session (files2, threw) absent got1 a won = absurd (ground arith)

  session-IsGivenBack :
      (r : Files × Attempt)
      → ((files : Files) → h.others files ≡ files)
      → lookup String_discrete id s.active ≡ none
      → IsAttempt h (stale_ms o) o.pid s.next_token (o.session_path id) s.files r
      → (used o (after_session o h s id r)).1 ≡ true
      → IsGivenBack o s (release h.locked (used o (after_session o h s id r)).0 id) id
  unfolding after_session
  session-IsGivenBack (files1, leased session) alone absent (inl (a, e)) won =
      absurd (elim a [ inl q ↦ cc | inr q ↦ let thrown = q.0 in cc ])
  session-IsGivenBack (files1, leased session) alone absent (inr got) won =
      slot-IsGivenBack files1 session (take_slot o h (capacity o) 0 (suc s.next_token) files1)
        absent got
        (take_slot-cases o h files1 (alone files1) got.distinct (capacity o) 0 (suc s.next_token))
        won
  session-IsGivenBack (files1, refused) alone absent a won = absurd (ground arith)
  session-IsGivenBack (files1, threw) alone absent a won = absurd (ground arith)

-- `acquire`, past its first test, in a lease directory.
pub acquire_opened :
    (o : LockOptions) (h : Host) (s : SessionRunLock) (id : String)
    → o.has_lease_dir ≡ true
    → (is_some (lookup String_discrete id s.active) || leb (capacity o) (length s.active)) ≡ false
    → acquire o h s id
      ≡ used o (
          after_session o h s id
            (acquire_file_lease h (stale_ms o) o.pid s.next_token (o.session_path id) s.files))
unfolding acquire
acquire_opened o h s id dir free =
    let lease : RunLease = record { session = none; slot = none } in
    let plain : SessionRunLock × Bool =
      (record s { active = set String_discrete s.active id lease }, true) in
    let taken : SessionRunLock × Bool = used o (
      after_session o h s id
        (acquire_file_lease h (stale_ms o) o.pid s.next_token (o.session_path id) s.files)) in
    rw free (subst (λ b. (if not b then plain else taken) ≡ taken) (sym dir) refl)

pub acquire_shut :
    (o : LockOptions) (h : Host) (s : SessionRunLock) (id : String)
    → (is_some (lookup String_discrete id s.active) || leb (capacity o) (length s.active)) ≡ true
    → acquire o h s id ≡ (s, false)
unfolding acquire
acquire_shut o h s id shut = rw shut refl

-- Giving back a lock that was got in a lease directory leaves the process with the sessions it had
-- before, and the files without the session's lease and the slot's, and otherwise as they were,
-- where nobody else acts in between, no file is locked against deletion and a session's path is no
-- slot's.
pub release-acquire :
    (o : LockOptions) (h : Host) (s : SessionRunLock) (id : String)
    → o.has_lease_dir ≡ true
    → ((i : ℕ) → o.slot_path i ≢ o.session_path id)
    → ((file : String) → h.locked file ≡ false)
    → ((files : Files) → h.others files ≡ files)
    → IsDistinct String_discrete s.files
    → (acquire o h s id).1 ≡ true
    → IsGivenBack o s (release h.locked (acquire o h s id).0 id) id
release-acquire o h s id dir separate unlocked alone d won =
    elim (Bool-cases
      (is_some (lookup String_discrete id s.active) || leb (capacity o) (length s.active))) [
        | inl shut ↦ absurd (let lost : false ≡ true = rw (acquire_shut o h s id shut) at won in cc)
        | inr free ↦
            let opened = acquire_opened o h s id dir free in
            let attempt =
              acquire_file_lease h (stale_ms o) o.pid s.next_token (o.session_path id) s.files in
            rw opened (
              session-IsGivenBack o h s id separate unlocked attempt alone (ground (arith, free))
                (acquire_file_lease-IsAttempt h (stale_ms o) o.pid s.next_token (o.session_path id)
                  s.files d (alone s.files))
                (subst (λ r. r.1 ≡ true) opened won))
      ]
