-- ===== src/Continuity/Changes.antt =====
-- What a delta without changes says of the two states.
use pi_smart_compact.Base.{
  ◌≡◌, ◌⊎◌, refl, List, [], ◌∷◌, ◌++◌, map, String, true, false, ◌||◌, String_discrete, arith, sym,
  subst, append-nil, All, ap, ◌∙◌,
}
use pi_smart_compact.OrderedMap.{OrderedMap, set}
use pi_smart_compact.Window.Soft.{contains}
use pi_smart_compact.OpenLoops.{OpenLoop, is_text}
use pi_smart_compact.Continuity.{
  FactKind, decision, constraint, error, loop, ContinuityOverride, Decision, ErrorFact,
  CompactionState, TextTests,
}
use pi_smart_compact.Continuity.Facts.{keep_if, is_active, decision_key, error_key}
use pi_smart_compact.Continuity.Merge.{goal_key_of}
use pi_smart_compact.Continuity.Files.{contains-append, IsUnretired, inactive}
use pi_smart_compact.Continuity.Delta.{
  is_kind, CompactionDelta, retired, is_live, outside, inside, loop_key, by_key, resolved_of,
  closed_keys, goal_differs, compute_delta, has_delta_changes, any,
}

any-map : {A : Type 0} (f : A → String) (xs : List A) → any (map f xs) ≡ any xs
any-map f [] = refl
any-map f (x ∷ xs) = refl

any-nil : {A : Type 0} (xs : List A) → any xs ≡ false → xs ≡ []
any-nil [] h = refl
any-nil (x ∷ xs) h = absurd (ground arith)

map_id : (xs : List String) → map (λ f. f) xs ≡ xs
map_id [] = refl
map_id (x ∷ xs) = ap (λ l. x ∷ l) (map_id xs)

-- Without changes, nothing is new and nothing has gone.
quiet :
    (d : CompactionDelta)
    → has_delta_changes d ≡ false
    → (d.goal_changed ≡ false)
      × (any d.new_decisions ≡ false)
      × (any d.new_loops ≡ false)
      × (any d.new_errors ≡ false)
      × (any d.new_modified_files ≡ false)
      × (any d.removed_decisions ≡ false)
      × (any d.resolved_errors ≡ false)
unfolding has_delta_changes
quiet d h = ground arith

module _ {A : Type 0} (key : A → String) where
  -- Every item's key is in the list.
  abbrev pub AllIn : List String → List A → Type 0
  AllIn seen items = All (λ a. contains seen (key a) ≡ true) items

  outside-nil :
      (seen : List String) (items : List A) → outside key seen items ≡ [] → AllIn seen items
  unfolding outside keep_if
  outside-nil seen [] h = tt
  outside-nil seen (a ∷ items) h = ground (arith, outside-nil seen items)

  inside-nil :
      (seen : List String) (items : List A)
      → inside key seen items ≡ []
      → All (λ a. contains seen (key a) ≡ false) items
  unfolding inside keep_if
  inside-nil seen [] h = tt
  inside-nil seen (a ∷ items) h = ground (arith, inside-nil seen items)

  outside_all :
      (seen : List String) (items : List A) → AllIn seen items → outside key seen items ≡ []
  unfolding outside keep_if
  outside_all seen [] h = refl
  outside_all seen (a ∷ items) h = ground (arith, outside_all seen items)

  inside_none :
      (seen : List String) (items : List A)
      → All (λ a. contains seen (key a) ≡ false) items
      → inside key seen items ≡ []
  unfolding inside keep_if
  inside_none seen [] h = refl
  inside_none seen (a ∷ items) h = ground (arith, inside_none seen items)

  AllIn-weaken :
      (k : String) (seen : List String) (items : List A) → AllIn seen items → AllIn (k ∷ seen) items
  unfolding contains
  AllIn-weaken k seen [] h = tt
  AllIn-weaken k seen (a ∷ items) h = ground (arith, AllIn-weaken k seen items)

  AllIn-self : (items : List A) → AllIn (map key items) items
  unfolding contains
  AllIn-self [] = tt
  AllIn-self (a ∷ items) =
      (ground arith, AllIn-weaken (key a) (map key items) items (AllIn-self items))

  AllIn-same :
      (seen other : List String) (items : List A)
      → ((k : String) → contains seen k ≡ contains other k)
      → AllIn other items
      → AllIn seen items
  AllIn-same seen other [] e h = tt
  AllIn-same seen other (a ∷ items) e h = (e (key a) ∙ h.0, AllIn-same seen other items e h.1)

is_kind_self : (kind : FactKind) → is_kind kind kind ≡ true
is_kind_self decision = refl
is_kind_self constraint = refl
is_kind_self error = refl
is_kind_self loop = refl

retired-IsUnretired :
    (overrides : List ContinuityOverride) (kind : FactKind) (key : String)
    → contains (retired overrides kind) key ≡ false
    → IsUnretired overrides kind key
unfolding retired contains
retired-IsUnretired [] kind key h = tt
retired-IsUnretired (o ∷ overrides) kind key h = (
  λ same other equal.
      let off : is_active o.status ≡ false = inactive o.status other in
      let kinds : is_kind o.kind kind ≡ true = rw same (is_kind_self kind) in
      absurd (ground (arith, h, off, kinds, equal)),
  retired-IsUnretired overrides kind key (ground (arith, h)),
)

module _ {A : Type 0} (key : A → String) (overrides : List ContinuityOverride)
    (kind : FactKind) where
  each-IsUnretired :
      (seen : List String) (items : List A)
      → All (λ a. contains (seen ++ retired overrides kind) (key a) ≡ false) items
      → All (λ a. (contains seen (key a) ≡ false) × IsUnretired overrides kind (key a)) items
  each-IsUnretired seen [] h = tt
  each-IsUnretired seen (a ∷ items) h =
      let apart = contains-append seen (retired overrides kind) (key a) in
      (
        (
          ground (arith, h.0, apart),
          retired-IsUnretired overrides kind (key a) (ground (arith, h.0, apart)),
        ),
        each-IsUnretired seen items h.1,
      )

  All-IsUnretired :
      (items : List A)
      → All (λ a. contains (retired overrides kind) (key a) ≡ false) items
      → All (λ a. IsUnretired overrides kind (key a)) items
  All-IsUnretired [] h = tt
  All-IsUnretired (a ∷ items) h =
      (retired-IsUnretired overrides kind (key a) h.0, All-IsUnretired items h.1)

retired_none :
    (overrides : List ContinuityOverride) (kind : FactKind)
    → All (λ o. is_active o.status ≡ true) overrides
    → retired overrides kind ≡ []
unfolding retired
retired_none [] kind h = refl
retired_none (o ∷ overrides) kind h = ground (arith, retired_none overrides kind)

inside_empty : {A : Type 0} (key : A → String) (items : List A) → inside key [] items ≡ []
unfolding inside keep_if contains
inside_empty key [] = refl
inside_empty key (a ∷ items) = inside_empty key items

abbrev keys_of : OrderedMap String OpenLoop → List String
keys_of m = map (λ (e : String × OpenLoop). e.0) m

contains-set :
    (m : OrderedMap String OpenLoop) (k : String) (l : OpenLoop) (j : String)
    → contains (keys_of (set String_discrete m k l)) j ≡ (contains (keys_of m) j || is_text k j)
unfolding contains set
contains-set [] k l j = ground arith
contains-set ((i, w) ∷ m) k l j = ground (arith, contains-set m k l j)

module _ (t : TextTests) where
  contains-by_key :
      (m : OrderedMap String OpenLoop) (loops : List OpenLoop) (j : String)
      → contains (keys_of (by_key t m loops)) j
        ≡ (contains (keys_of m) j || contains (map (loop_key t) loops) j)
  unfolding by_key contains
  contains-by_key m [] j = ground arith
  contains-by_key m (l ∷ loops) j = ground (
    arith,
    contains-by_key (set String_discrete m (loop_key t l) l) loops j,
    contains-set m (loop_key t l) l j,
  )

  resolved_of-nil :
      (live closed : List String) (m : OrderedMap String OpenLoop)
      → All (λ (e : String × OpenLoop). contains live e.0 ≡ true) m
      → resolved_of t live closed m ≡ []
  unfolding resolved_of
  resolved_of-nil live closed [] h = refl
  resolved_of-nil live closed ((k, l) ∷ m) h = ground (arith, resolved_of-nil live closed m)

  same_keys :
      (loops : List OpenLoop) (k : String)
      → contains (map (loop_key t) loops) k ≡ contains (keys_of (by_key t [] loops)) k
  unfolding contains
  same_keys loops k = sym (contains-by_key [] loops k)

  -- The delta of a state with itself has no changes, if all its overrides are active and none of
  -- its unresolved errors is among its resolved ones.
  pub compute_delta_same :
      (s : CompactionState)
      → All (λ o. is_active o.status ≡ true) s.fact_overrides
      → All
          (λ e. contains (map (error_key t) s.resolved_errors) (error_key t e) ≡ false)
          s.unresolved_errors
      → has_delta_changes (compute_delta t s s) ≡ false
  unfolding compute_delta has_delta_changes
  compute_delta_same s running apart =
      let live = keep_if is_live s.open_loops in
      let before = by_key t [] live in
      let no_decision =
        outside_all (decision_key t) (map (decision_key t) s.decisions) s.decisions
          (AllIn-self (decision_key t) s.decisions) in
      let no_error =
        outside_all (error_key t) (map (error_key t) s.unresolved_errors) s.unresolved_errors
          (AllIn-self (error_key t) s.unresolved_errors) in
      let no_file =
        outside_all (λ f. f) s.modified_files s.modified_files
          (subst (λ l. AllIn (λ f. f) l s.modified_files) (map_id s.modified_files)
            (AllIn-self (λ f. f) s.modified_files)) in
      let no_loop = outside_all (loop_key t) (keys_of before) live (
        AllIn-same (loop_key t) (keys_of before) (map (loop_key t) live) live
          (λ k. sym (same_keys live k)) (AllIn-self (loop_key t) live)) in
      let none_closed = resolved_of-nil (map (loop_key t) live) (closed_keys t s) before (
        AllIn-same (λ (e : String × OpenLoop). e.0) (map (loop_key t) live) (keys_of before) before
          (same_keys live) (AllIn-self (λ (e : String × OpenLoop). e.0) before)) in
      rw
        (
          no_decision,
          no_error,
          no_file,
          no_loop,
          none_closed,
          retired_none s.fact_overrides decision running,
          retired_none s.fact_overrides error running,
          inside_empty (decision_key t) s.decisions,
          append-nil (map (error_key t) s.resolved_errors),
          inside_none (error_key t) (map (error_key t) s.resolved_errors) s.unresolved_errors apart,
        )
        (ground arith)

  same_goal :
      (prev current : CompactionState)
      → goal_differs t prev current ≡ false
      → (goal_key_of t prev ≡ "")
        ⊎ (goal_key_of t current ≡ "")
        ⊎ (goal_key_of t prev ≡ goal_key_of t current)
  same_goal prev current h = ground (arith, h)

  -- Where a delta reports no changes, every decision, modified file, unresolved error and live
  -- loop of the current state has the key of one of the previous state; the current state retires,
  -- by an override that is not active, no decision and no unresolved error of the previous state,
  -- and resolves none of those errors; and unless one of the states has no goal key, theirs are
  -- the same.
  pub compute_delta-known :
      (prev current : CompactionState)
      → has_delta_changes (compute_delta t prev current) ≡ false
      → AllIn (decision_key t) (map (decision_key t) prev.decisions) current.decisions
        × AllIn (λ f. f) prev.modified_files current.modified_files
        × AllIn (error_key t) (map (error_key t) prev.unresolved_errors) current.unresolved_errors
        × AllIn
            (loop_key t)
            (map (loop_key t) (keep_if is_live prev.open_loops))
            (keep_if is_live current.open_loops)
        × All (λ d. IsUnretired current.fact_overrides decision (decision_key t d)) prev.decisions
        × All
            (λ e.
              (contains (map (error_key t) current.resolved_errors) (error_key t e) ≡ false)
              × IsUnretired current.fact_overrides error (error_key t e))
            prev.unresolved_errors
        × ((goal_key_of t prev ≡ "")
            ⊎ (goal_key_of t current ≡ "")
            ⊎ (goal_key_of t prev ≡ goal_key_of t current))
  unfolding compute_delta has_delta_changes
  compute_delta-known prev current h =
      let before = by_key t [] (keep_if is_live prev.open_loops) in
      let live = keep_if is_live current.open_loops in
      let (goal, decisions, loops, errors, files, removed, fixed) =
        quiet (compute_delta t prev current) h in
      (
        outside-nil (decision_key t) (map (decision_key t) prev.decisions) current.decisions
            (any-nil _ (sym (any-map (λ (d : Decision). d.summary) _) ∙ decisions)),
        outside-nil (λ f. f) prev.modified_files current.modified_files (any-nil _ files),
        outside-nil (error_key t) (map (error_key t) prev.unresolved_errors)
            current.unresolved_errors
            (any-nil _ (sym (any-map (λ (e : ErrorFact). e.message) _) ∙ errors)),
        AllIn-same (loop_key t) (map (loop_key t) (keep_if is_live prev.open_loops))
            (keys_of before) live (same_keys (keep_if is_live prev.open_loops))
            (outside-nil (loop_key t) (keys_of before) live
              (any-nil _ (sym (any-map (λ (l : OpenLoop). l.summary) _) ∙ loops))),
        All-IsUnretired (decision_key t) current.fact_overrides decision prev.decisions (
            inside-nil (decision_key t) (retired current.fact_overrides decision) prev.decisions
              (any-nil _ (sym (any-map (λ (d : Decision). d.summary) _) ∙ removed))),
        each-IsUnretired (error_key t) current.fact_overrides error
            (map (error_key t) current.resolved_errors) prev.unresolved_errors
            (inside-nil (error_key t)
              (map (error_key t) current.resolved_errors ++ retired current.fact_overrides error)
              prev.unresolved_errors
              (any-nil _ (sym (any-map (λ (e : ErrorFact). e.message) _) ∙ fixed))),
        same_goal prev current goal,
      )
