-- ===== src/RunLock/Held.antt =====
-- Time, timers, deaths and releases in the system of processes, and the leases that are held.
use pi_smart_compact.Base.{
  ℕ, ◌+◌, ◌-◌, ◌≤◌, ◌≡◌, ◌≢◌, refl, String, Bool, true, Option, none, some, arith, lookup,
  ℕ_discrete, String_discrete, inl, inr, Bool-cases, subst, if_pos, if_neg,
}
use pi_smart_compact.OrderedMap.Laws.{
  IsDistinct, lookup-set, lookup-delete_ne, lookup-delete_self, delete-IsDistinct, set-IsDistinct,
}
use pi_smart_compact.RunLock.{
  LeaseText, LeaseFile, Files, FileLease, Host, is_protected, release_lease, heartbeat, has_token,
  text_of, touched, touch, live_pid_ceiling, is_owned,
}
use pi_smart_compact.RunLock.System.{
  Holder, System, start, lease_of, released, beaten, aged, killed, IsHostOf, is_holding, is_text_of,
  file_of,
}

module _ (stale_ms : ℕ) where
  abbrev pub ceiling : ℕ
  ceiling = live_pid_ceiling stale_ms

  -- Every lease of a running process is on its file still.
  pub record IsHeld (s : System) : Type 0 where
    pub files_distinct : IsDistinct String_discrete s.files
    pub leases_distinct : IsDistinct ℕ_discrete s.leases
    pub held :
        (t : ℕ) (l : Holder)
        → lookup ℕ_discrete t s.leases ≡ some l
        → s.runs l.pid ≡ true
        → is_holding ceiling s.now t l (lookup String_discrete l.file s.files) ≡ true

  pub start-IsHeld : (now : ℕ) → IsHeld (start now)
  unfolding lookup
  start-IsHeld now = record {
    files_distinct = tt;
    leases_distinct = tt;
    held = λ t l e. absurd (ground arith);
  }

  pub holding-protected :
      (h : Host) (s : System) (t : ℕ) (l : Holder) (f : LeaseFile)
      → IsHostOf s h
      → s.runs l.pid ≡ true
      → is_holding ceiling s.now t l (some f) ≡ true
      → is_protected h stale_ms h.later f ≡ true
  unfolding is_protected
  holding-protected h s t l f host alive held =
      let owned : is_owned h f.text ≡ true = owner f.text (ground (arith, held)) in
      let near : h.later - f.stats.mtime_ms ≤ ceiling = rw host.second (ground (arith, held)) in
      ground (arith, owned, near)
    where
      owner : (o : Option LeaseText) → is_text_of t l o ≡ true → is_owned h o ≡ true
      owner none e = absurd (ground arith)
      owner (some text) e =
          let same : text.pid ≡ l.pid = ground (arith, e) in
          let lives : h.process_exists text.pid ≡ true = rw (host.exists, same) alive in
          ground (arith, e, lives)

  pub dies-IsHeld : (s : System) (pid : ℕ) → IsHeld s → IsHeld (killed s pid)
  dies-IsHeld s pid h = record {
    files_distinct = h.files_distinct;
    leases_distinct = h.leases_distinct;
    held = λ t l e alive. h.held t l e (ground (arith, alive));
  }

  pub passes-IsHeld :
      (s : System) (d : ℕ)
      → ((t : ℕ) (l : Holder)
          → lookup ℕ_discrete t s.leases ≡ some l
          → s.runs l.pid ≡ true
          → (s.now + d) - file_of (lookup String_discrete l.file s.files) ≤ ceiling)
      → IsHeld s
      → IsHeld (aged s d)
  passes-IsHeld s d timely h = record {
    files_distinct = h.files_distinct;
    leases_distinct = h.leases_distinct;
    held = λ t l e alive.
        aging t l (lookup String_discrete l.file s.files) (timely t l e alive) (h.held t l e alive);
  }
    where
      aging :
          (t : ℕ) (l : Holder) (o : Option LeaseFile)
          → (s.now + d) - file_of o ≤ ceiling
          → is_holding ceiling s.now t l o ≡ true
          → is_holding ceiling (s.now + d) t l o ≡ true
      aging t l none near held = absurd (ground arith)
      aging t l (some f) near held = ground (arith, near, held)

  is_holding-touch :
      (now u : ℕ) (m : Holder) (files : Files) (file : String) (o : Option LeaseFile)
      → lookup String_discrete file files ≡ o
      → is_holding ceiling now u m (lookup String_discrete m.file files) ≡ true
      → is_holding ceiling now u m (lookup String_discrete m.file (touch files file now o)) ≡ true
  is_holding-touch now u m files file none at held = held
  is_holding-touch now u m files file (some f) at held = elim (String_discrete m.file file) [
    | yes p ↦
        let here : is_holding ceiling now u m (some f) ≡ true =
          subst (λ x. is_holding ceiling now u m x ≡ true) at
            (subst (λ x. is_holding ceiling now u m (lookup String_discrete x files) ≡ true) p
              held) in
        rw (lookup-set String_discrete files m.file file (touched now f), if_pos _ p)
          (ground (arith, here))
    | no p ↦ rw (lookup-set String_discrete files m.file file (touched now f), if_neg _ p) held
  ]

  heartbeat-holding :
      (now u : ℕ) (m : Holder) (files : Files) (lease : FileLease)
      → is_holding ceiling now u m (lookup String_discrete m.file files) ≡ true
      → is_holding ceiling now u m (lookup String_discrete m.file (heartbeat now files lease))
        ≡ true
  unfolding heartbeat
  heartbeat-holding now u m files lease held =
      elim (Bool-cases
        (has_token (text_of (lookup String_discrete lease.file files)) lease.token)) [
          | inl mine ↦ rw mine (is_holding-touch now u m files lease.file _ refl held)
          | inr other ↦ rw other held
        ]

  heartbeat-IsDistinct :
      (now : ℕ) (files : Files) (lease : FileLease)
      → IsDistinct String_discrete files
      → IsDistinct String_discrete (heartbeat now files lease)
  unfolding heartbeat
  heartbeat-IsDistinct now files lease d =
      elim (Bool-cases
        (has_token (text_of (lookup String_discrete lease.file files)) lease.token)) [
          | inl mine ↦ rw mine (touch-IsDistinct (lookup String_discrete lease.file files))
          | inr other ↦ rw other d
        ]
    where
      touch-IsDistinct :
          (o : Option LeaseFile) → IsDistinct String_discrete (touch files lease.file now o)
      touch-IsDistinct none = d
      touch-IsDistinct (some f) = set-IsDistinct String_discrete files lease.file _ d

  pub beats-IsHeld : (s : System) (t : ℕ) (o : Option Holder) → IsHeld s → IsHeld (beaten s t o)
  beats-IsHeld s t none h = h
  beats-IsHeld s t (some l) h = record {
    files_distinct = heartbeat-IsDistinct s.now s.files (lease_of t l) h.files_distinct;
    leases_distinct = h.leases_distinct;
    held = λ u m e alive. heartbeat-holding s.now u m s.files (lease_of t l) (h.held u m e alive);
  }

  -- A release takes no lease from another holder.
  release-holding :
      (now t u : ℕ) (l m : Holder) (locked : String → Bool) (files : Files)
      → u ≢ t
      → is_holding ceiling now u m (lookup String_discrete m.file files) ≡ true
      → is_holding ceiling now u m
          (lookup String_discrete m.file (release_lease locked files (lease_of t l)))
        ≡ true
  unfolding release_lease
  release-holding now t u l m locked files ne held =
      elim (Bool-cases (has_token (text_of (lookup String_discrete l.file files)) t)) [
        | inr other ↦ rw other held
        | inl mine ↦ elim (Bool-cases (locked l.file)) [
          | inl stuck ↦ rw (mine, stuck) held
          | inr goes ↦ elim (String_discrete m.file l.file) [
            | yes p ↦ absurd (
                one_token (lookup String_discrete l.file files) mine (
                  subst (λ x. is_holding ceiling now u m (lookup String_discrete x files) ≡ true) p
                    held))
            | no p ↦ rw (mine, goes, lookup-delete_ne String_discrete files m.file l.file p) held
          ]
        ]
      ]
    where
      one_text : (o : Option LeaseText) → has_token o t ≡ true → is_text_of u m o ≡ true → ⊥
      one_text none a b = ground arith
      one_text (some text) a b = ne (ground (arith, a, b))

      one_token :
          (o : Option LeaseFile)
          → has_token (text_of o) t ≡ true
          → is_holding ceiling now u m o ≡ true
          → ⊥
      one_token none a b = ground arith
      one_token (some f) a b = one_text f.text a (ground (arith, b))

  release-IsDistinct :
      (locked : String → Bool) (files : Files) (lease : FileLease)
      → IsDistinct String_discrete files
      → IsDistinct String_discrete (release_lease locked files lease)
  unfolding release_lease
  release-IsDistinct locked files lease d =
      elim (Bool-cases
        (has_token (text_of (lookup String_discrete lease.file files)) lease.token)) [
          | inr other ↦ rw other d
          | inl mine ↦ elim (Bool-cases (locked lease.file)) [
            | inl stuck ↦ rw (mine, stuck) d
            | inr goes ↦ rw (mine, goes) (delete-IsDistinct String_discrete files lease.file d)
          ]
        ]

  pub releases-IsHeld :
      (s : System) (locked : String → Bool) (t : ℕ) (o : Option Holder)
      → IsHeld s
      → IsHeld (released s locked t o)
  releases-IsHeld s locked t none h = h
  releases-IsHeld s locked t (some l) h = record {
    files_distinct = release-IsDistinct locked s.files (lease_of t l) h.files_distinct;
    leases_distinct = delete-IsDistinct ℕ_discrete s.leases t h.leases_distinct;
    held = λ u m e alive. elim (ℕ_discrete u t) [
      | yes p ↦
          absurd (ground (arith, e, lookup-delete_self ℕ_discrete s.leases u h.leases_distinct))
      | no p ↦
          release-holding s.now t u l m locked s.files p
            (h.held u m (rw⁻¹ (lookup-delete_ne ℕ_discrete s.leases u t p) e) alive)
    ];
  }
