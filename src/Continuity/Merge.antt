-- ===== src/Continuity/Merge.antt =====
-- `mergeCompactionStates`: the previous state's facts under the current ones.
use pi_smart_compact.Base.{
  ℕ, suc, ◌+◌, List, [], ◌∷◌, ◌++◌, map, String, Bool, true, false, ◌&&◌, ◌||◌, not, Option, none,
  some, leb, ltb, if◌then◌else◌, take,
}
use pi_smart_compact.Window.Soft.{contains}
use pi_smart_compact.OpenLoops.{
  LoopId, numbered, LoopType, bugfix, LoopStatus, open_loop, OpenLoop, LoopOverride, is_text,
  first_some, merge_by, merge_open_loops,
}
use pi_smart_compact.OpenLoops
use pi_smart_compact.Continuity.{
  ContinuityOverride, Decision, Constraint, ErrorFact, Topic, CompactionState, TextTests, join,
  starts_with, length_of,
}
use pi_smart_compact.Continuity.Facts.{
  keep_if, override_key, decision_key, constraint_key, error_key, apply_overrides, collapse,
}

unfoldable pub number_decisions : ℕ → List Decision → List Decision
number_decisions i [] = []
number_decisions i (d ∷ items) = record d { id = numbered (i + 1) } ∷ number_decisions (suc i) items

unfoldable pub number_errors : ℕ → List ErrorFact → List ErrorFact
number_errors i [] = []
number_errors i (e ∷ items) = record e { id = numbered (i + 1) } ∷ number_errors (suc i) items

abbrev is_bugfix : LoopType → Bool
is_bugfix bugfix = true
is_bugfix _ = false

abbrev is_open : LoopStatus → Bool
is_open open_loop = true
is_open _ = false

-- `key === summaryKey || (key.length > summaryKey.length && key.startsWith(summaryKey))`
unfoldable pub any_extends : String → List String → Bool
unfolding starts_with length_of
any_extends summary_key [] = false
any_extends summary_key (key ∷ keys) =
    is_text key summary_key
    || (ltb (length_of summary_key) (length_of key) && starts_with key summary_key)
    || any_extends summary_key keys

abbrev pub previous_goal_prefix : String
previous_goal_prefix = "Previous goal: "

abbrev pub key_or : Option String → String → String
key_or none key = key
key_or (some key) old = key

-- `key || undefined`
abbrev pub key_if_any : String → Option String
key_if_any key = if is_text key "" then none else some key

module _ (t : TextTests) where
  unfoldable pub number_constraints : List String → ℕ → List Constraint → List Constraint
  number_constraints human i [] = []
  number_constraints human i (c ∷ items) =
      record c {
        id = numbered (i + 1);
        is_human = c.is_human || contains human (constraint_key t c);
      }
      ∷ number_constraints human (suc i) items

  unfoldable pub is_resolved_loop : List String → OpenLoop → Bool
  unfolding any_extends length_of
  is_resolved_loop resolved_keys l =
      let key = t.normalize l.summary in
      is_bugfix l.type_of
      && is_open l.status
      && leb 16 (length_of key)
      && any_extends key resolved_keys

  unfoldable pub close_resolved : List String → List OpenLoop → List OpenLoop
  unfolding is_resolved_loop
  close_resolved keys [] = []
  close_resolved keys (l ∷ loops) =
      (if is_resolved_loop keys l then record l { status = OpenLoops.resolved } else l)
      ∷ close_resolved keys loops

  -- `goalKey ?? (goal ? normalizeFactKey(goal) : "")`
  abbrev pub goal_key_of : CompactionState → String
  goal_key_of s =
      key_or s.goal_key
        (elim s.goal [ none ↦ "" | some goal ↦ if is_text goal "" then "" else t.normalize goal ])

  -- The decisions of both windows, one for each question, the current questions first.
  unfoldable pub merge_decisions : (current previous : List Decision) → List Decision
  unfolding collapse number_decisions keep_if
  merge_decisions current previous =
      let mine = collapse t current in
      let authoritative = collapse t (collapse t previous ++ mine) in
      let keys = map (decision_key t) mine in
      number_decisions 0 (
        take 30 (
          keep_if (λ d. contains keys (decision_key t d)) authoritative
          ++ keep_if (λ d. not (contains keys (decision_key t d))) authoritative))

  unfoldable pub merge_constraints : (current previous : List Constraint) → List Constraint
  unfolding merge_by number_constraints keep_if
  merge_constraints current previous =
      let human =
        map (constraint_key t) (keep_if (λ (c : Constraint). c.is_human) (current ++ previous)) in
      number_constraints human 0 (merge_by (constraint_key t) current previous 30)

  unfoldable pub merge_errors :
      (resolved_keys : List String) (current previous : List ErrorFact) → List ErrorFact
  unfolding merge_by number_errors keep_if
  merge_errors resolved_keys current previous = number_errors 0 (
      merge_by (error_key t) current
        (keep_if (λ e. not (contains resolved_keys (error_key t e))) previous) 15)

  -- `previous` without the files whose key is in `gone`, under `current`.
  unfoldable pub merge_files :
      (gone : List String) (current previous : List String) → ℕ → List String
  unfolding merge_by keep_if
  merge_files gone current previous limit =
      merge_by t.normalize current (keep_if (λ f. not (contains gone (t.normalize f))) previous)
        limit

  -- The breadcrumb of a goal that has changed; `"…" + goal` writes an absent goal as `null`.
  unfoldable pub old_goal : (current previous : CompactionState) → List String
  unfolding join
  old_goal current previous =
      if not (is_text (goal_key_of previous) "")
        && not (is_text (goal_key_of current) "")
        && not (is_text (goal_key_of previous) (goal_key_of current))
      then join previous_goal_prefix (key_or previous.goal "null") ∷ []
      else []

  abbrev pub has_goal : CompactionState → Bool
  has_goal s = not (is_text (key_or s.goal "") "")

  -- The merge of two states that the overrides have been applied to.
  unfoldable pub merge_active :
      (now : ℕ) (overrides : List ContinuityOverride) (current previous : CompactionState)
      → CompactionState
  unfolding merge_decisions merge_constraints merge_errors merge_open_loops close_resolved
      merge_files merge_by old_goal starts_with
  merge_active now overrides current previous =
      let resolved_keys = map (error_key t) current.resolved_errors in
      let present = map t.normalize (current.modified_files ++ current.read_files) in
      let deleted = map t.normalize current.deleted_files in
      let durable =
        keep_if (λ line. not (starts_with line previous_goal_prefix)) previous.critical_context in
      record {
        goal = first_some current.goal previous.goal;
        goal_key =
            if has_goal current
            then key_if_any (goal_key_of current)
            else key_if_any (key_or previous.goal_key (goal_key_of previous));
        decisions = merge_decisions current.decisions previous.decisions;
        constraints = merge_constraints current.constraints previous.constraints;
        modified_files = merge_files deleted current.modified_files previous.modified_files 100;
        read_files = merge_files deleted current.read_files previous.read_files 100;
        deleted_files = merge_files present current.deleted_files previous.deleted_files 50;
        unresolved_errors =
            merge_errors resolved_keys current.unresolved_errors previous.unresolved_errors;
        resolved_errors =
            merge_by (error_key t) current.resolved_errors previous.resolved_errors 20;
        open_loops =
            merge_open_loops t.normalize current.open_loops
              (close_resolved resolved_keys previous.open_loops);
        loop_overrides =
            merge_by (λ (o : LoopOverride). o.summary_key) current.loop_overrides
              previous.loop_overrides 50;
        fact_overrides = overrides;
        topics = merge_by (λ (p : Topic). t.normalize p.title) current.topics previous.topics 30;
        next_actions = merge_by t.normalize current.next_actions previous.next_actions 15;
        critical_context =
            merge_by t.normalize (old_goal current previous ++ current.critical_context) durable 20;
        updated_at = now;
      }

  unfoldable pub merge_states :
      (now : ℕ) → Option CompactionState → CompactionState → CompactionState
  unfolding apply_overrides merge_active collapse number_decisions merge_open_loops
  merge_states now none current =
      let live = apply_overrides t current current.fact_overrides in
      record live {
        decisions = number_decisions 0 (collapse t live.decisions);
        open_loops = merge_open_loops t.normalize live.open_loops [];
      }
  merge_states now (some previous) current =
      let overrides = merge_by override_key current.fact_overrides previous.fact_overrides 50 in
      apply_overrides t
        (merge_active now overrides (apply_overrides t current overrides)
          (apply_overrides t previous overrides))
        overrides
