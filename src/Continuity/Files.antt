-- ===== src/Continuity/Files.antt =====
-- Retired facts, files and errors under a merge.
use pi_smart_compact.Base.{
  ℕ, zero, suc, ◌+◌, ◌≤◌, ◌≡◌, refl, ◌≢◌, List, [], ◌∷◌, ◌++◌, map, String, true, false, ◌&&◌, ◌||◌,
  not, none, some, arith, sym, is_some, if◌then◌else◌, length, All, take, ap,
}
use pi_smart_compact.Window.Soft.{contains}
use pi_smart_compact.OpenLoops.{OpenLoop, unseen, merge_by, find_key}
use pi_smart_compact.OpenLoops.Laws.{merge_by-find}
use pi_smart_compact.Continuity.{
  FactKind, decision, constraint, error, loop, OverrideStatus, active, resolved, superseded,
  ContinuityOverride, ErrorFact, CompactionState, TextTests,
}
use pi_smart_compact.Continuity.Facts.{
  keep_if, sanitize, override_key, fact_key, is_active, inactive_keys, decision_key, constraint_key,
  error_key, stands, apply_overrides,
}
use pi_smart_compact.Continuity.Merge.{
  number_errors, merge_errors, merge_files, merge_active, merge_states,
}
use pi_smart_compact.Continuity.Laws.{keep_if-All, length-keep_if-le, IsCoherent}

pub contains-append :
    (xs ys : List String) (k : String) → contains (xs ++ ys) k ≡ (contains xs k || contains ys k)
unfolding contains
contains-append [] ys k = refl
contains-append (x ∷ xs) ys k = ground (arith, contains-append xs ys k)

module _ {ℓ} {A : Type ℓ} (key : A → String) where
  map-append : (xs ys : List A) → map key (xs ++ ys) ≡ map key xs ++ map key ys
  map-append [] ys = refl
  map-append (x ∷ xs) ys = ap (λ l. key x ∷ l) (map-append xs ys)

  contains-unseen :
      (k : String) (seen : List String) (items : List A)
      → contains (map key (unseen key seen items)) k ≡ true
      → contains (map key items) k ≡ true
  unfolding unseen contains
  contains-unseen k seen [] h = h
  contains-unseen k seen (a ∷ items) h =
      ground (arith, contains-unseen k seen items, contains-unseen k (key a ∷ seen) items)

  contains-take :
      (k : String) (n : ℕ) (items : List A)
      → contains (map key (take n items)) k ≡ true
      → contains (map key items) k ≡ true
  unfolding contains
  contains-take k zero [] h = h
  contains-take k zero (a ∷ items) h = absurd (ground arith)
  contains-take k (suc n) [] h = h
  contains-take k (suc n) (a ∷ items) h = ground (arith, contains-take k n items)

  contains-merge_by :
      (k : String) (current previous : List A) (n : ℕ)
      → contains (map key (merge_by key current previous n)) k ≡ true
      → (contains (map key current) k || contains (map key previous) k) ≡ true
  unfolding merge_by
  contains-merge_by k current previous n h =
      rw
        (
          sym (contains-append (map key current) (map key previous) k),
          sym (map-append current previous),
        )
        (contains-unseen k [] (current ++ previous) (contains-take k n _ h))

  contains-keep_if :
      (k : String) (gone : List String) (items : List A)
      → contains (map key (keep_if (λ a. not (contains gone (key a))) items)) k
        ≡ (contains (map key items) k && not (contains gone k))
  unfolding contains keep_if
  contains-keep_if k gone [] = refl
  contains-keep_if k gone (a ∷ items) = ground (arith, contains-keep_if k gone items)

-- No override of the kind that is not active has the key.
abbrev pub IsUnretired : List ContinuityOverride → FactKind → String → Type 0
IsUnretired overrides kind key =
    All (λ o. o.kind ≡ kind → o.status ≢ active → o.summary_key ≢ key) overrides

-- No decision, constraint, unresolved error or open loop is one that an override has retired.
abbrev pub IsRetiring : TextTests → CompactionState → Type 0
IsRetiring t s =
    All (λ d. IsUnretired s.fact_overrides decision (decision_key t d)) s.decisions
    × All (λ c. IsUnretired s.fact_overrides constraint (constraint_key t c)) s.constraints
    × All (λ e. IsUnretired s.fact_overrides error (error_key t e)) s.unresolved_errors
    × All (λ (l : OpenLoop). IsUnretired s.fact_overrides loop (t.normalize l.summary)) s.open_loops

pub inactive : (status : OverrideStatus) → status ≢ active → is_active status ≡ false
inactive active h = absurd (h refl)
inactive resolved h = refl
inactive superseded h = refl

stands-IsUnretired :
    (overrides : List ContinuityOverride) (kind : FactKind) (key : String)
    → contains (inactive_keys overrides) (fact_key kind key) ≡ false
    → IsUnretired overrides kind key
unfolding inactive_keys contains
stands-IsUnretired [] kind key h = tt
stands-IsUnretired (o ∷ overrides) kind key h = (
  λ same other equal.
      let off : is_active o.status ≡ false = inactive o.status other in
      let both : override_key o ≡ fact_key kind key = rw (same, equal) refl in
      absurd (ground (arith, h, off, both)),
  stands-IsUnretired overrides kind key (ground (arith, h)),
)

module _ {A : Type 0} (overrides : List ContinuityOverride) (kind : FactKind)
    (key : A → String) where
  kept-IsUnretired :
      (t : TextTests) (items : List A)
      → All (λ a. stands t overrides kind (key a) ≡ true) items
      → All (λ a. IsUnretired overrides kind (key a)) items
  kept-IsUnretired t [] h = tt
  kept-IsUnretired t (a ∷ items) h = (
    stands-IsUnretired overrides kind (key a) (ground (arith, h.0)),
    kept-IsUnretired t items h.1,
  )

module _ (t : TextTests) where
  contains-merge_files :
      (k : String) (gone current previous : List String) (n : ℕ)
      → contains (map t.normalize (merge_files t gone current previous n)) k ≡ true
      → (contains (map t.normalize current) k
          || (contains (map t.normalize previous) k && not (contains gone k)))
        ≡ true
  unfolding merge_files
  contains-merge_files k gone current previous n h =
      rw (sym (contains-keep_if t.normalize k gone previous))
        (contains-merge_by t.normalize k current _ n h)

  -- If neither of two states has a file both among its modified or read files and among its
  -- deleted ones, their merge has none.
  pub merge_states-IsCoherent :
      (now : ℕ) (previous current : CompactionState)
      → IsCoherent t previous
      → IsCoherent t current
      → IsCoherent t (merge_states t now (some previous) current)
  unfolding merge_states apply_overrides sanitize merge_active
  merge_states-IsCoherent now previous current hp hc k =
      let n = t.normalize in
      let present = map n (current.modified_files ++ current.read_files) in
      let deleted = map n current.deleted_files in
      let m = merge_files t deleted current.modified_files previous.modified_files 100 in
      let r = merge_files t deleted current.read_files previous.read_files 100 in
      ground (
        arith,
        hp k,
        hc k,
        contains-append (map n m) (map n r) k,
        map-append n m r,
        contains-append (map n current.modified_files) (map n current.read_files) k,
        map-append n current.modified_files current.read_files,
        contains-append (map n previous.modified_files) (map n previous.read_files) k,
        map-append n previous.modified_files previous.read_files,
        contains-merge_files k deleted current.modified_files previous.modified_files 100,
        contains-merge_files k deleted current.read_files previous.read_files 100,
        contains-merge_files k present current.deleted_files previous.deleted_files 50,
      )

  apply_overrides-IsRetiring :
      (s : CompactionState) (overrides : List ContinuityOverride)
      → IsRetiring t (apply_overrides t s overrides)
  unfolding apply_overrides
  apply_overrides-IsRetiring s overrides =
      let clean = sanitize t s in
      (
        kept-IsUnretired overrides decision (decision_key t) t _
            (keep_if-All (λ d. stands t overrides decision (decision_key t d)) clean.decisions),
        kept-IsUnretired overrides constraint (constraint_key t) t _ (
            keep_if-All (λ c. stands t overrides constraint (constraint_key t c))
              clean.constraints),
        kept-IsUnretired overrides error (error_key t) t _
            (keep_if-All (λ e. stands t overrides error (error_key t e)) clean.unresolved_errors),
        kept-IsUnretired overrides loop (λ (l : OpenLoop). t.normalize l.summary) t _
            (keep_if-All (λ (l : OpenLoop). stands t overrides loop (t.normalize l.summary))
              clean.open_loops),
      )

  -- A merge with a previous state has no decision, constraint, unresolved error or open loop whose
  -- kind and key are those of a merged override that is not active; the merged overrides are the
  -- current ones over the previous ones.
  pub merge_states-IsRetiring :
      (now : ℕ) (previous current : CompactionState)
      → IsRetiring t (merge_states t now (some previous) current)
        × ((merge_states t now (some previous) current).fact_overrides
            ≡ merge_by override_key current.fact_overrides previous.fact_overrides 50)
  unfolding merge_states apply_overrides
  merge_states-IsRetiring now previous current =
      let overrides = merge_by override_key current.fact_overrides previous.fact_overrides 50 in
      let live = apply_overrides t current overrides in
      let before = apply_overrides t previous overrides in
      (apply_overrides-IsRetiring (merge_active t now overrides live before) overrides, refl)

  find_number_errors :
      (k : String) (i : ℕ) (items : List ErrorFact)
      → is_some (find_key (error_key t) k (number_errors i items))
        ≡ is_some (find_key (error_key t) k items)
  unfolding number_errors
  find_number_errors k i [] = refl
  find_number_errors k i (e ∷ items) = ground (arith, find_number_errors k (suc i) items)

  find_keep_if :
      (k : String) (gone : List String) (items : List ErrorFact)
      → find_key (error_key t) k (keep_if (λ e. not (contains gone (error_key t e))) items)
        ≡ (if contains gone k then none else find_key (error_key t) k items)
  unfolding keep_if
  find_keep_if k gone [] = ground arith
  find_keep_if k gone (e ∷ items) = ground (arith, find_keep_if k gone items)

  -- Where there is room for all, the merge has an unresolved error with a non-empty key exactly if
  -- the current state has it, or the previous one has it and the current window did not resolve
  -- it.
  pub merge_errors-find :
      (k : String) (resolved_keys : List String) (current previous : List ErrorFact)
      → k ≢ ""
      → length current + length previous ≤ 15
      → is_some (find_key (error_key t) k (merge_errors t resolved_keys current previous)) ≡ (
          is_some (find_key (error_key t) k current)
          || (not (contains resolved_keys k) && is_some (find_key (error_key t) k previous)))
  unfolding merge_errors
  merge_errors-find k resolved_keys current previous h room =
      let kept = keep_if (λ e. not (contains resolved_keys (error_key t e))) previous in
      ground (
        arith,
        find_number_errors k 0 (merge_by (error_key t) current kept 15),
        merge_by-find (error_key t) k current kept 15 h,
        length-keep_if-le (λ e. not (contains resolved_keys (error_key t e))) previous,
        find_keep_if k resolved_keys previous,
      )
