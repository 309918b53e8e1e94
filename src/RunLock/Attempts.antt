-- ===== src/RunLock/Attempts.antt =====
-- `acquireFileLease` of `src/app/session-run-lock.ts` and the files after it.
use pi_smart_compact.Base.{
  ℕ, ◌≡◌, ◌≢◌, refl, ◌⊎◌, inl, inr, String, true, false, not, ◌||◌, Option, none, some, arith,
  lookup, String_discrete, Bool-cases, Option-cases, if_pos, if_neg,
}
use pi_smart_compact.OrderedMap.{set, delete}
use pi_smart_compact.OrderedMap.Laws.{
  IsDistinct, lookup-set, lookup-delete_ne, lookup-delete_self, delete-IsDistinct, set-IsDistinct,
}
use pi_smart_compact.RunLock.{
  LeaseFile, Files, Host, Attempt, leased, refused, threw, create_lease, created_file, is_protected,
  is_unchanged, second_look, first_look, reclaim, after_create, acquire_file_lease,
}

-- A lease for the process and token, on a file that was not there or was not protected, now or at
-- the second look; what stands on other files is as before.
pub record IsLeased (h : Host) (stale_ms pid token : ℕ) (file : String) (files : Files)
    (r : Files × Attempt) : Type 0 where
  pub attempt : r.1 ≡ leased (record { file = file; token = token })
  pub time : ℕ
  pub time_of : (time ≡ h.now) ⊎ (time ≡ h.later)
  pub created : lookup String_discrete file r.0 ≡ some (created_file h pid token time)
  pub kept : (g : String) → g ≢ file → lookup String_discrete g r.0 ≡ lookup String_discrete g files
  pub distinct : IsDistinct String_discrete r.0
  pub unprotected :
      (f : LeaseFile)
      → lookup String_discrete file files ≡ some f
      → is_protected h stale_ms h.later f ≡ false

-- No lease, or an error of a file that is broken, and the files as they were.
abbrev pub IsRefused : Host → Files → Files × Attempt → Type 0
IsRefused h files r =
    ((r.1 ≡ refused) ⊎ ((r.1 ≡ threw) × ((file : String) × (h.broken file ≡ true)))) × (r.0 ≡ files)

abbrev pub IsAttempt : Host → (stale_ms pid token : ℕ) → String → Files → Files × Attempt → Type 0
IsAttempt h stale_ms pid token file files r =
    IsRefused h files r ⊎ IsLeased h stale_ms pid token file files r

module _ (h : Host) (stale_ms pid token : ℕ) (file : String) (files : Files)
    (d : IsDistinct String_discrete files) where
  reclaimed-IsLeased :
      (f : LeaseFile)
      → h.broken file ≡ false
      → lookup String_discrete file files ≡ some f
      → is_protected h stale_ms h.later f ≡ false
      → IsLeased h stale_ms pid token file files
          (create_lease h pid token h.later (delete String_discrete files file) file)
  unfolding create_lease
  reclaimed-IsLeased f opens at open_now =
      let gone = lookup-delete_self String_discrete files file d in
      rw (opens, gone)
        record {
          attempt = refl;
          time = h.later;
          time_of = inr refl;
          created =
              rw
                (lookup-set String_discrete (delete String_discrete files file) file file
                  (created_file h pid token h.later))
                (if_pos (String_discrete file file) refl _ _);
          kept = λ g ne.
              rw
                (
                  lookup-set String_discrete (delete String_discrete files file) g file
                      (created_file h pid token h.later),
                  if_neg (String_discrete g file) ne,
                  lookup-delete_ne String_discrete files g file ne,
                )
                refl;
          distinct =
              set-IsDistinct String_discrete (delete String_discrete files file) file _
                (delete-IsDistinct String_discrete files file d);
          unprotected = λ q e. ground (arith, at, e, open_now);
        }

  created-IsLeased :
      lookup String_discrete file files ≡ none
      → IsLeased h stale_ms pid token file files (
        set String_discrete files file (created_file h pid token h.now),
        leased (record { file = file; token = token }),
      )
  created-IsLeased absent = record {
    attempt = refl;
    time = h.now;
    time_of = inl refl;
    created =
        rw (lookup-set String_discrete files file file (created_file h pid token h.now))
          (if_pos (String_discrete file file) refl _ _);
    kept = λ g ne.
        rw (lookup-set String_discrete files g file (created_file h pid token h.now))
          (if_neg (String_discrete g file) ne _ _);
    distinct = set-IsDistinct String_discrete files file _ d;
    unprotected = λ q e. absurd (ground (arith, absent, e));
  }

  second_look-IsAttempt :
      (current : LeaseFile) (o : Option LeaseFile)
      → h.broken file ≡ false
      → lookup String_discrete file files ≡ o
      → IsAttempt h stale_ms pid token file files
          (second_look h stale_ms pid token file current files o)
  unfolding second_look
  second_look-IsAttempt current none opens at = inl (inl refl, refl)
  second_look-IsAttempt current (some f) opens at =
      elim (Bool-cases (is_protected h stale_ms h.later f || not (is_unchanged current f))) [
        | inl held ↦ rw held (inl (inl refl, refl))
        | inr free ↦ elim (Bool-cases (h.locked file)) [
          | inl stuck ↦ rw (free, stuck) (inl (inl refl, refl))
          | inr goes ↦ rw (free, goes) (inr (reclaimed-IsLeased f opens at (ground arith)))
        ]
      ]

  first_look-IsAttempt :
      (o : Option LeaseFile)
      → h.others files ≡ files
      → h.broken file ≡ false
      → IsAttempt h stale_ms pid token file files (first_look h stale_ms pid token file files o)
  unfolding first_look
  first_look-IsAttempt none quiet opens = inl (inl refl, refl)
  first_look-IsAttempt (some f) quiet opens = elim (Bool-cases (is_protected h stale_ms h.now f)) [
    | inl held ↦ rw held (inl (inl refl, refl))
    | inr free ↦ rw (free, quiet) (second_look-IsAttempt f _ opens refl)
  ]

  reclaim-IsAttempt :
      h.others files ≡ files
      → h.broken file ≡ false
      → IsAttempt h stale_ms pid token file files (reclaim h stale_ms pid token file files)
  unfolding reclaim
  reclaim-IsAttempt quiet opens = first_look-IsAttempt _ quiet opens

  -- Where nobody else acts between the two looks, an attempt is refused or fails and leaves the
  -- files as they were, or gives a lease on a file that nobody's protected lease was on.
  pub acquire_file_lease-IsAttempt :
      h.others files ≡ files
      → IsAttempt h stale_ms pid token file files
          (acquire_file_lease h stale_ms pid token file files)
  unfolding acquire_file_lease after_create create_lease
  acquire_file_lease-IsAttempt quiet = elim (Bool-cases (h.broken file)) [
    | inl fails ↦ rw fails (inl (inr (refl, (file, fails)), refl))
    | inr opens ↦ elim (Option-cases (lookup String_discrete file files)) [
      | inl absent ↦ rw (opens, absent) (inr (created-IsLeased absent))
      | inr (f, at) ↦ rw (opens, at) (reclaim-IsAttempt quiet opens)
    ]
  ]
