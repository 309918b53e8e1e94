-- ===== src/Tests/Continuity.antt =====
-- States of two compactions (`src/utils/state.ts`).
use pi_smart_compact.Base.{
  ◌≡◌, refl, ◌≢◌, ◌⊎◌, List, [], ◌∷◌, map, String, false, ◌||◌, ◌&&◌, not, is_some, Option, none,
  some, lookup, arith, All, String_discrete,
}
use pi_smart_compact.Window.Soft.{contains}
use pi_smart_compact.OrderedMap.{set}
use pi_smart_compact.OpenLoops.{numbered, first_some, find_key, is_text, merge_by}
use pi_smart_compact.Continuity.{
  decision, error, resolved, active, explicit, ContinuityOverride, Decision, ErrorFact,
  CompactionState, TextTests,
}
use pi_smart_compact.Continuity.Facts.{keep_if, collapse, decision_key, error_key, override_key}
use pi_smart_compact.Continuity.Merge.{goal_key_of, merge_states, merge_errors}
use pi_smart_compact.Continuity.Delta.{compute_delta, has_delta_changes, is_live, loop_key}
use pi_smart_compact.Continuity.Laws.{IsBounded, IsCoherent, merge_states-IsBounded}
use pi_smart_compact.Continuity.Files.{
  IsRetiring, IsUnretired, merge_states-IsCoherent, merge_states-IsRetiring, merge_errors-find,
}
use pi_smart_compact.Continuity.Answers.{latest_answer, collapse-find}
use pi_smart_compact.Continuity.Changes.{AllIn, compute_delta-known}

abbrev texts : TextTests
texts = record {
  normalize = λ text. text;
  is_status = λ text. is_text text "done";
  is_non_live = λ text. false;
  is_noise = λ text. false;
  is_blank = λ text. is_text text " ";
}

abbrev asked : String → Option String → Decision
asked summary response = record {
  id = numbered 0;
  summary = summary;
  user_response = response;
  type_of = explicit;
}

abbrev failed : String → ErrorFact
failed message = record { id = numbered 0; message = message; tool = "bash"; files = [] }

abbrev empty : CompactionState
empty = record {
  goal = none;
  goal_key = none;
  decisions = [];
  constraints = [];
  modified_files = [];
  read_files = [];
  deleted_files = [];
  unresolved_errors = [];
  resolved_errors = [];
  open_loops = [];
  loop_overrides = [];
  fact_overrides = [];
  topics = [];
  next_actions = [];
  critical_context = [];
  updated_at = 0;
}

abbrev retire : ContinuityOverride
retire = record {
  id = numbered 1;
  kind = decision;
  summary_key = "db?";
  status = resolved;
  replacement = none;
  updated_at = 1;
}

abbrev before : CompactionState
before = record empty {
  goal = some "ship";
  decisions = asked "db?" (some "sql") ∷ asked "port?" (some "80") ∷ [];
  modified_files = "a.ts" ∷ "b.ts" ∷ [];
  unresolved_errors = failed "E1" ∷ failed "E2" ∷ [];
}

abbrev now_state : CompactionState
now_state = record empty {
  goal = some "test";
  decisions = asked "port?" none ∷ [];
  deleted_files = "b.ts" ∷ [];
  resolved_errors = failed "E1" ∷ [];
  fact_overrides = retire ∷ [];
}

program : Unit {0}
unfolding merge_states collapse String_discrete contains compute_delta has_delta_changes
    merge_errors lookup set keep_if
program = tt

abbrev merged : CompactionState
merged = merge_states texts 9 (some before) now_state

-- The answer to the question that is asked again stays, the retired one goes.
merged_decisions : map (λ (d : Decision). d.user_response) merged.decisions ≡ some "80" ∷ []
unfolding program
merged_decisions = refl

merged_files : merged.modified_files ≡ "a.ts" ∷ []
unfolding program
merged_files = refl

merged_errors : map (λ (e : ErrorFact). e.message) merged.unresolved_errors ≡ "E2" ∷ []
unfolding program
merged_errors = refl

merged_context : merged.critical_context ≡ "Previous goal: ship" ∷ []
unfolding program
merged_context = refl

-- A goal that is a status text is dropped, but its key is not: the breadcrumb then names no goal.
abbrev status_goal : CompactionState
status_goal = record empty { goal = some "done"; goal_key = some "done" }

stale :
    (merge_states texts 9 (some status_goal) now_state).critical_context
    ≡ "Previous goal: null" ∷ []
unfolding program
stale = refl

merge_states-IsBounded_example : IsBounded (merge_states texts 9 (some before) now_state)
merge_states-IsBounded_example = merge_states-IsBounded texts 9 before now_state

merge_states-IsRetiring_example :
    IsRetiring texts (merge_states texts 9 (some before) now_state)
    × ((merge_states texts 9 (some before) now_state).fact_overrides
        ≡ merge_by override_key (retire ∷ []) [] 50)
merge_states-IsRetiring_example = merge_states-IsRetiring texts 9 before now_state

before-IsCoherent : IsCoherent texts before
unfolding program
before-IsCoherent k = ground arith

now_state-IsCoherent : IsCoherent texts now_state
unfolding program
now_state-IsCoherent k = ground arith

merge_states-IsCoherent_example : IsCoherent texts (merge_states texts 9 (some before) now_state)
merge_states-IsCoherent_example =
    merge_states-IsCoherent texts 9 before now_state before-IsCoherent now_state-IsCoherent

abbrev no_text : String
no_text = ""

e2_text : "E2" ≢ no_text
e2_text h = cc

port_text : "port?" ≢ no_text
port_text h = cc

merge_errors-find_example :
    is_some
      (find_key (error_key texts) "E2" (merge_errors texts ("E1" ∷ []) [] before.unresolved_errors))
    ≡ (false
        || (not (contains ("E1" ∷ []) "E2")
            && is_some (find_key (error_key texts) "E2" before.unresolved_errors)))
merge_errors-find_example =
    merge_errors-find texts "E2" ("E1" ∷ []) [] before.unresolved_errors e2_text (omega arith)

abbrev answers : List Decision
answers =
    asked "port?" (some "80")
    ∷ asked "db?" none
    ∷ asked "port?" none
    ∷ asked "port?" (some "81")
    ∷ []

collapse-find_example :
    find_key (decision_key texts) "port?" (collapse texts answers)
    ≡ first_some
        (latest_answer texts "port?" answers)
        (find_key (decision_key texts) "port?" answers)
collapse-find_example = collapse-find texts "port?" answers port_text

before_apart :
    All
      (λ e. contains (map (error_key texts) before.resolved_errors) (error_key texts e) ≡ false)
      before.unresolved_errors
unfolding program
before_apart = (refl, (refl, tt))

abbrev fewer : CompactionState
fewer = record before {
  modified_files = "a.ts" ∷ [];
  fact_overrides = record retire { status = active } ∷ [];
}

fewer_quiet : has_delta_changes (compute_delta texts before fewer) ≡ false
unfolding program
fewer_quiet = refl

compute_delta-known_example :
    AllIn (decision_key texts) ("db?" ∷ "port?" ∷ []) fewer.decisions
    × AllIn (λ f. f) ("a.ts" ∷ "b.ts" ∷ []) fewer.modified_files
    × AllIn (error_key texts) ("E1" ∷ "E2" ∷ []) fewer.unresolved_errors
    × AllIn (loop_key texts) [] (keep_if is_live fewer.open_loops)
    × All (λ d. IsUnretired fewer.fact_overrides decision (decision_key texts d)) before.decisions
    × All
        (λ e.
          (contains (map (error_key texts) fewer.resolved_errors) (error_key texts e) ≡ false)
          × IsUnretired fewer.fact_overrides error (error_key texts e))
        before.unresolved_errors
    × ((goal_key_of texts before ≡ "")
        ⊎ (goal_key_of texts fewer ≡ "")
        ⊎ (goal_key_of texts before ≡ goal_key_of texts fewer))
unfolding keep_if
compute_delta-known_example = compute_delta-known texts before fewer fewer_quiet
