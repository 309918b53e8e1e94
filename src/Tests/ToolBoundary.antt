-- ===== src/Tests/ToolBoundary.antt =====
-- A call, its two answers and a plain turn (`src/utils/helpers.ts`).
use pi_smart_compact.Base.{
  ℕ, ◌≡◌, refl, ◌≤◌, List, [], ◌∷◌, String, false, Option, none, some, lookup, String_discrete,
  arith,
}
use pi_smart_compact.Messages.{user, assistant, tool_result, tool_call, Role, Block, SessionMessage}
use pi_smart_compact.ToolBoundary.{
  ToolCallBoundaryIndex, guard_tool_call_boundary, advance_past_tool_call_boundary,
}
use pi_smart_compact.ToolBoundary.Safe.{IsSafe}
use pi_smart_compact.ToolBoundary.Guard.{guard-latest-IsSafe}

abbrev message : Role → List Block → Option String → SessionMessage
message role content id = record {
  entry_id = none;
  custom_type = none;
  role = role;
  content = content;
  tool_call_id = id;
  tool_name = none;
  touched_files = [];
  is_injected = false;
}

abbrev talk : List SessionMessage
talk =
    message user [] none
    ∷ message assistant
        (tool_call (some "c1") (some "read") [] ∷ tool_call (some "c2") (some "read") [] ∷ []) none
    ∷ message tool_result [] (some "c1")
    ∷ message tool_result [] (some "c2")
    ∷ message user [] none
    ∷ []

abbrev index : ToolCallBoundaryIndex
index = ("c1", 1) ∷ ("c2", 1) ∷ []

pulled_back : guard_tool_call_boundary talk 3 index ≡ 1
unfolding guard_tool_call_boundary lookup String_discrete
pulled_back = refl

pushed_on : advance_past_tool_call_boundary talk 3 index ≡ 4
unfolding advance_past_tool_call_boundary lookup String_discrete
pushed_on = refl

guard-latest-IsSafe_example :
    IsSafe index talk (guard_tool_call_boundary talk 3 index)
    × (guard_tool_call_boundary talk 3 index ≤ 3)
    × ((b : ℕ) → b ≤ 3 → IsSafe index talk b → b ≤ guard_tool_call_boundary talk 3 index)
guard-latest-IsSafe_example = guard-latest-IsSafe talk 3 index (omega arith) (omega arith)
