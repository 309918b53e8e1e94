-- ===== src/Continuity/Facts.antt =====
-- What overrides and the cleaning take out of a state, and one answer for each question.
use pi_smart_compact.Base.{
  List, [], ◌∷◌, map, String, Bool, true, false, ◌&&◌, not, Option, none, some, is_some,
  if◌then◌else◌, lookup, String_discrete,
}
use pi_smart_compact.OrderedMap.{OrderedMap, set}
use pi_smart_compact.Window.Soft.{contains}
use pi_smart_compact.OpenLoops.{OpenLoop, is_text, merge_by}
use pi_smart_compact.Continuity.{
  FactKind, decision, constraint, error, loop, OverrideStatus, active, superseded,
  ContinuityOverride, Decision, Constraint, ErrorFact, CompactionState, TextTests, join,
}

-- `filter`
unfoldable pub keep_if {ℓ} : {A : Type ℓ} → (A → Bool) → List A → List A
keep_if test [] = []
keep_if test (a ∷ items) = let rest = keep_if test items in if test a then a ∷ rest else rest

abbrev pub goal_unless : (String → Bool) → Option String → Option String
goal_unless test none = none
goal_unless test (some goal) =
    if is_text goal "" then none else if test goal then none else some goal

-- A field of the state that is dropped to nothing is as one that was nothing.
unfoldable pub sanitize : TextTests → CompactionState → CompactionState
unfolding keep_if
sanitize t s = record s {
  goal = goal_unless t.is_status s.goal;
  constraints = keep_if (λ (c : Constraint). not (t.is_non_live c.text)) s.constraints;
  unresolved_errors = keep_if (λ (e : ErrorFact). not (t.is_noise e.message)) s.unresolved_errors;
  resolved_errors = keep_if (λ (e : ErrorFact). not (t.is_noise e.message)) s.resolved_errors;
  open_loops = keep_if (λ (l : OpenLoop). not (t.is_noise l.summary)) s.open_loops;
  critical_context = keep_if (λ line. not (t.is_noise line)) s.critical_context;
}

abbrev pub kind_text : FactKind → String
kind_text decision = "decision"
kind_text constraint = "constraint"
kind_text error = "error"
kind_text loop = "loop"

-- `kind + ":" + key`
unfoldable pub fact_key : FactKind → String → String
unfolding join
fact_key kind key = join (kind_text kind) (join ":" key)

abbrev pub override_key : ContinuityOverride → String
override_key o = fact_key o.kind o.summary_key

abbrev pub is_active : OverrideStatus → Bool
is_active active = true
is_active _ = false

abbrev is_superseded : OverrideStatus → Bool
is_superseded superseded = true
is_superseded _ = false

-- The set `inactive`.
unfoldable pub inactive_keys : List ContinuityOverride → List String
unfolding fact_key
inactive_keys [] = []
inactive_keys (o ∷ overrides) =
    let rest = inactive_keys overrides in if is_active o.status then rest else override_key o ∷ rest

abbrev text_or_empty : Option String → String
text_or_empty none = ""
text_or_empty (some text) = text

-- `"Superseded " + kind + ": " + replacement`, of an override with a replacement.
unfoldable pub replacements : List ContinuityOverride → List String
unfolding join
replacements [] = []
replacements (o ∷ overrides) =
    let rest = replacements overrides in
    if is_superseded o.status && not (is_text (text_or_empty o.replacement) "")
    then join "Superseded " (join (kind_text o.kind) (join ": " (text_or_empty o.replacement)))
      ∷ rest
    else rest

module _ (t : TextTests) where
  abbrev pub decision_key : Decision → String
  decision_key d = t.normalize d.summary

  abbrev pub constraint_key : Constraint → String
  constraint_key c = t.normalize c.text

  abbrev pub error_key : ErrorFact → String
  error_key e = t.normalize e.message

  -- No override has retired the fact.
  abbrev pub stands : List ContinuityOverride → FactKind → String → Bool
  stands overrides kind key = not (contains (inactive_keys overrides) (fact_key kind key))

  unfoldable pub apply_overrides : CompactionState → List ContinuityOverride → CompactionState
  unfolding sanitize keep_if inactive_keys replacements
  apply_overrides state overrides =
      let clean = sanitize t state in
      record clean {
        decisions = keep_if (λ d. stands overrides decision (decision_key d)) clean.decisions;
        constraints =
            keep_if (λ c. stands overrides constraint (constraint_key c)) clean.constraints;
        unresolved_errors =
            keep_if (λ e. stands overrides error (error_key e)) clean.unresolved_errors;
        open_loops =
            keep_if (λ (l : OpenLoop). stands overrides loop (t.normalize l.summary))
              clean.open_loops;
        critical_context = merge_by t.normalize (replacements overrides) clean.critical_context 20;
        fact_overrides = overrides;
      }

  -- `item.userResponse && item.userResponse.trim()`
  abbrev pub is_answered : Option String → Bool
  is_answered none = false
  is_answered (some response) = not (is_text response "") && not (t.is_blank response)

  -- The loop: `order` is the order of the map's keys, since setting a present key keeps its place.
  unfoldable pub collapse_from :
      OrderedMap String Decision → List Decision → OrderedMap String Decision
  collapse_from by_question [] = by_question
  collapse_from by_question (d ∷ items) =
      collapse_from
        (if is_text (decision_key d) ""
          then by_question
          else if is_some (lookup String_discrete (decision_key d) by_question)
          then (if is_answered d.user_response
              then set String_discrete by_question (decision_key d) d
              else by_question)
          else set String_discrete by_question (decision_key d) d)
        items

  -- `collapseDecisionsByQuestion`
  unfoldable pub collapse : List Decision → List Decision
  unfolding collapse_from
  collapse items = map (λ (e : String × Decision). e.1) (collapse_from [] items)
