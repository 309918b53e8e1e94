-- ===== src/RunLock/Exclusive.antt =====
-- Leases of `src/app/session-run-lock.ts` that are given, and the holders of a file's lease.
use pi_smart_compact.Base.{
  ℕ, suc, ◌<◌, ◌≡◌, refl, String, true, Option, none, some, arith, lookup, ℕ_discrete,
  String_discrete, inl, inr, subst, if_pos, if_neg, sym, ◌∙◌, ap,
}
use pi_smart_compact.OrderedMap.Laws.{lookup-set, set-IsDistinct}
use pi_smart_compact.RunLock.{
  LeaseText, LeaseFile, Files, FileLease, Host, Attempt, leased, refused, threw,
}
use pi_smart_compact.RunLock.Attempts.{IsAttempt, IsLeased, acquire_file_lease-IsAttempt}
use pi_smart_compact.RunLock.System.{
  Holder, System, given, IsHostOf, is_holding, is_text_of, Step, takes, releases, beats, dies,
  passes, Reach, begin, later,
}
use pi_smart_compact.RunLock.Held.{
  ceiling, IsHeld, start-IsHeld, holding-protected, dies-IsHeld, passes-IsHeld, beats-IsHeld,
  releases-IsHeld,
}

module _ (stale_ms : ℕ) where
  same_files-IsHeld :
      (s : System) (files : Files) (n : ℕ)
      → files ≡ s.files
      → IsHeld stale_ms s
      → IsHeld stale_ms (record s { files = files; next_token = n })
  same_files-IsHeld s files n e h = record {
    files_distinct = rw e h.files_distinct;
    leases_distinct = h.leases_distinct;
    held = λ t l q alive. rw e (h.held t l q alive);
  }

  module _ (s : System) (h : IsHeld stale_ms s) (host : Host) (is_host : IsHostOf s host) (pid : ℕ)
      (file : String) (positive : 0 < pid) where
    -- The lease just given is held.
    new-holding :
        (files : Files) (lease : FileLease) (l : Holder)
        → IsLeased host stale_ms pid s.next_token file s.files (files, leased lease)
        → l ≡ record { pid = pid; file = lease.file }
        → is_holding (ceiling stale_ms) s.now s.next_token l (lookup String_discrete l.file files)
          ≡ true
    new-holding files lease l got e =
        let same : lease ≡ record { file = file; token = s.next_token } = lease_inj got.attempt in
        let name : l.file ≡ file = ap (λ x. x.file) e ∙ ap (λ x. x.file) same in
        let owner : l.pid ≡ pid = ap (λ x. x.pid) e in
        let now_is : got.time ≡ s.now = elim got.time_of [
          | inl a ↦ a ∙ is_host.first
          | inr b ↦ b ∙ is_host.second
        ] in
        rw (name, got.created, now_is) (ground (arith, owner, positive))
      where
        lease_inj : {a b : FileLease} → leased a ≡ leased b → a ≡ b
        lease_inj q = cc

    -- A lease held before is held after.
    old-holding :
        (files : Files) (lease : FileLease) (t : ℕ) (l : Holder) (o : Option LeaseFile)
        → IsLeased host stale_ms pid s.next_token file s.files (files, leased lease)
        → s.runs l.pid ≡ true
        → lookup String_discrete l.file s.files ≡ o
        → is_holding (ceiling stale_ms) s.now t l o ≡ true
        → is_holding (ceiling stale_ms) s.now t l (lookup String_discrete l.file files) ≡ true
    old-holding files lease t l none got alive at held = absurd (ground arith)
    old-holding files lease t l (some f) got alive at held = elim (String_discrete l.file file) [
      | no p ↦ rw (got.kept l.file p, at) held
      | yes p ↦
          let kept = holding-protected stale_ms host s t l f is_host alive held in
          let free = got.unprotected f (sym (ap (λ x. lookup String_discrete x s.files) p) ∙ at) in
          absurd (ground (arith, kept, free))
    ]

    leased-IsHeld :
        (files : Files) (lease : FileLease)
        → IsLeased host stale_ms pid s.next_token file s.files (files, leased lease)
        → IsHeld stale_ms (given s pid (files, leased lease))
    leased-IsHeld files lease got =
        let holder : Holder = record { pid = pid; file = lease.file } in
        record {
          files_distinct = got.distinct;
          leases_distinct =
              set-IsDistinct ℕ_discrete s.leases s.next_token holder h.leases_distinct;
          held = λ t l e alive.
              let set_at = lookup-set ℕ_discrete s.leases t s.next_token holder in
              elim (ℕ_discrete t s.next_token) [
                | yes p ↦
                    let at : some l ≡ some holder =
                      sym e
                      ∙ set_at
                      ∙ if_pos (ℕ_discrete t s.next_token) p _ (lookup ℕ_discrete t s.leases) in
                    rw p (new-holding files lease l got (some_inj at))
                | no p ↦
                    let at : lookup ℕ_discrete t s.leases ≡ some l =
                      sym (
                        if_neg (ℕ_discrete t s.next_token) p (some holder)
                          (lookup ℕ_discrete t s.leases))
                      ∙ sym set_at
                      ∙ e in
                    old-holding files lease t l _ got alive refl (h.held t l at alive)
              ];
        }
      where
        some_inj : {a b : Holder} → some a ≡ some b → a ≡ b
        some_inj q = cc

    given-IsHeld :
        (r : Files × Attempt)
        → IsAttempt host stale_ms pid s.next_token file s.files r
        → IsHeld stale_ms (given s pid r)
    given-IsHeld (files, leased lease) (inl (a, e)) = elim a [
      | inl q ↦ absurd cc
      | inr q ↦ absurd (let thrown = q.0 in cc)
    ]
    given-IsHeld (files, leased lease) (inr got) = leased-IsHeld files lease got
    given-IsHeld (files, refused) (inl (a, e)) = same_files-IsHeld s files (suc s.next_token) e h
    given-IsHeld (files, refused) (inr got) = absurd (let a = got.attempt in cc)
    given-IsHeld (files, threw) (inl (a, e)) = same_files-IsHeld s files (suc s.next_token) e h
    given-IsHeld (files, threw) (inr got) = absurd (let a = got.attempt in cc)

  Step-IsHeld : {s t : System} → Step stale_ms s t → IsHeld stale_ms s → IsHeld stale_ms t
  Step-IsHeld {s} (takes host pid file is_host runs positive) h =
      given-IsHeld s h host is_host pid file positive _ (
        acquire_file_lease-IsAttempt host stale_ms pid s.next_token file s.files h.files_distinct
          is_host.alone)
  Step-IsHeld {s} (releases locked t) h = releases-IsHeld stale_ms s locked t _ h
  Step-IsHeld {s} (beats t) h = beats-IsHeld stale_ms s t _ h
  Step-IsHeld {s} (dies pid) h = dies-IsHeld stale_ms s pid h
  Step-IsHeld {s} (passes d timely) h = passes-IsHeld stale_ms s d timely h

  pub Reach-IsHeld : {now : ℕ} {s : System} → Reach stale_ms now s → IsHeld stale_ms s
  Reach-IsHeld {now} begin = start-IsHeld stale_ms now
  Reach-IsHeld (later r st) = Step-IsHeld st (Reach-IsHeld r)

-- In every state that processes reach which take, touch and give back leases, or die, no two
-- leases of running processes are on one file, where each call runs alone and every running
-- process's timers touch its leases within the ceiling.
pub Reach-exclusive :
    (stale_ms : ℕ) {now : ℕ} {s : System}
    → Reach stale_ms now s
    → (t u : ℕ) (l m : Holder) → lookup ℕ_discrete t s.leases ≡ some l
    → lookup ℕ_discrete u s.leases ≡ some m
    → s.runs l.pid ≡ true
    → s.runs m.pid ≡ true
    → l.file ≡ m.file
    → t ≡ u
Reach-exclusive stale_ms {now} {s} r t u l m at_t at_u runs_t runs_u same =
    let h = Reach-IsHeld stale_ms r in
    let held_t = h.held t l at_t runs_t in
    let held_u = h.held u m at_u runs_u in
    one_holder (lookup String_discrete l.file s.files) held_t (
      subst (λ x. is_holding (ceiling stale_ms) s.now u m (lookup String_discrete x s.files) ≡ true)
        (sym same) held_u)
  where
    one_text : (o : Option LeaseText) → is_text_of t l o ≡ true → is_text_of u m o ≡ true → t ≡ u
    one_text none a b = ground arith
    one_text (some text) a b = ground (arith, a, b)

    one_holder :
        (o : Option LeaseFile)
        → is_holding (ceiling stale_ms) s.now t l o ≡ true
        → is_holding (ceiling stale_ms) s.now u m o ≡ true
        → t ≡ u
    one_holder none a b = ground arith
    one_holder (some f) a b = one_text f.text (ground (arith, a)) (ground (arith, b))
