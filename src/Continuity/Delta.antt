-- ===== src/Continuity/Delta.antt =====
-- `computeDelta`: what has changed since the last compaction.
use pi_smart_compact.Base.{
  List, [], ◌∷◌, ◌++◌, map, String, Bool, true, false, ◌&&◌, ◌||◌, not, Option, none, some,
  if◌then◌else◌, String_discrete,
}
use pi_smart_compact.OrderedMap.{OrderedMap, set}
use pi_smart_compact.Window.Soft.{contains}
use pi_smart_compact.OpenLoops.{OpenLoop, LoopOverride, LoopStatus, is_text, is_resolved}
use pi_smart_compact.Continuity.{
  FactKind, decision, constraint, error, loop, ContinuityOverride, Decision, ErrorFact,
  CompactionState, TextTests,
}
use pi_smart_compact.Continuity.Facts.{keep_if, is_active, decision_key, error_key}
use pi_smart_compact.Continuity.Merge.{goal_key_of}

pub record CompactionDelta : Type 0 where
  pub new_decisions : List String
  pub removed_decisions : List String
  pub resolved_loops : List String
  pub persistent_loops : List String
  pub new_loops : List String
  pub new_modified_files : List String
  pub resolved_errors : List String
  pub new_errors : List String
  pub goal_changed : Bool
  pub previous_goal : Option String

-- `item.kind === kind`
abbrev pub is_kind : FactKind → FactKind → Bool
is_kind decision decision = true
is_kind constraint constraint = true
is_kind error error = true
is_kind loop loop = true
is_kind _ _ = false

unfoldable pub retired : List ContinuityOverride → FactKind → List String
retired [] kind = []
retired (o ∷ overrides) kind =
    let rest = retired overrides kind in
    if is_kind o.kind kind && not (is_active o.status) then o.summary_key ∷ rest else rest

abbrev pub is_live : OpenLoop → Bool
is_live l = not (is_resolved l.status)

abbrev is_closed_by : Option LoopStatus → Bool
is_closed_by none = false
is_closed_by (some status) = is_resolved status

module _ {ℓ} {A : Type ℓ} (key : A → String) where
  -- The items whose key is not in `seen`.
  unfoldable pub outside : List String → List A → List A
  unfolding keep_if
  outside seen items = keep_if (λ a. not (contains seen (key a))) items

  unfoldable pub inside : List String → List A → List A
  unfolding keep_if
  inside seen items = keep_if (λ a. contains seen (key a)) items

module _ (t : TextTests) where
  abbrev pub loop_key : OpenLoop → String
  loop_key l = t.normalize l.summary

  -- The `Map` of the loops by their keys: of two with one key it holds the last.
  unfoldable pub by_key : OrderedMap String OpenLoop → List OpenLoop → OrderedMap String OpenLoop
  by_key m [] = m
  by_key m (l ∷ loops) = by_key (set String_discrete m (loop_key l) l) loops

  -- The loop over that map.
  unfoldable pub persistent_of : List String → OrderedMap String OpenLoop → List String
  persistent_of live [] = []
  persistent_of live ((k, l) ∷ m) =
      let rest = persistent_of live m in if contains live k then l.summary ∷ rest else rest

  unfoldable pub resolved_of :
      (live closed : List String) → OrderedMap String OpenLoop → List String
  resolved_of live closed [] = []
  resolved_of live closed ((k, l) ∷ m) =
      let rest = resolved_of live closed m in
      if contains live k then rest else if contains closed k then l.summary ∷ rest else rest

  unfoldable pub closed_keys : CompactionState → List String
  unfolding keep_if retired
  closed_keys s =
      map loop_key (keep_if (λ (l : OpenLoop). is_resolved l.status) s.open_loops)
      ++ map (λ (o : LoopOverride). o.summary_key)
          (keep_if (λ (o : LoopOverride). is_closed_by o.status) s.loop_overrides)
      ++ retired s.fact_overrides loop

  abbrev pub goal_differs : (prev current : CompactionState) → Bool
  goal_differs prev current =
      not (is_text (goal_key_of t prev) "")
      && not (is_text (goal_key_of t current) "")
      && not (is_text (goal_key_of t prev) (goal_key_of t current))

  unfoldable pub compute_delta : (prev current : CompactionState) → CompactionDelta
  unfolding outside inside retired by_key persistent_of resolved_of closed_keys keep_if
  compute_delta prev current =
      let live_before = keep_if is_live prev.open_loops in
      let live_now = keep_if is_live current.open_loops in
      let loops_before = by_key [] live_before in
      let live_keys = map loop_key live_now in
      record {
        new_decisions =
            map (λ (d : Decision). d.summary)
              (outside (decision_key t) (map (decision_key t) prev.decisions) current.decisions);
        removed_decisions =
            map (λ (d : Decision). d.summary)
              (inside (decision_key t) (retired current.fact_overrides decision) prev.decisions);
        resolved_loops = resolved_of live_keys (closed_keys current) loops_before;
        persistent_loops = persistent_of live_keys loops_before;
        new_loops =
            map (λ (l : OpenLoop). l.summary)
              (outside loop_key (map (λ (e : String × OpenLoop). e.0) loops_before) live_now);
        new_modified_files = outside (λ f. f) prev.modified_files current.modified_files;
        resolved_errors =
            map (λ (e : ErrorFact). e.message)
              (inside (error_key t)
                (map (error_key t) current.resolved_errors ++ retired current.fact_overrides error)
                prev.unresolved_errors);
        new_errors =
            map (λ (e : ErrorFact). e.message)
              (outside (error_key t) (map (error_key t) prev.unresolved_errors)
                current.unresolved_errors);
        goal_changed = goal_differs prev current;
        previous_goal = if goal_differs prev current then prev.goal else none;
      }

-- `length > 0`
abbrev pub any {ℓ} : {A : Type ℓ} → List A → Bool
any [] = false
any (_ ∷ _) = true

unfoldable pub has_delta_changes : CompactionDelta → Bool
has_delta_changes d =
    d.goal_changed
    || any d.removed_decisions
    || any d.resolved_loops
    || any d.new_loops
    || any d.new_decisions
    || any d.resolved_errors
    || any d.new_errors
    || any d.new_modified_files
