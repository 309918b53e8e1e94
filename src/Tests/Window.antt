-- ===== src/Tests/Window.antt =====
-- Plans for a session of six messages (`src/app/steps/window.ts`).
use pi_smart_compact.Base.{
  ℕ, ◌<◌, ◌≡◌, refl, List, [], ◌∷◌, String, false, Option, none, some, arith, lookup,
  String_discrete, ℕ_discrete, All,
}
use pi_smart_compact.OrderedMap.{set}
use pi_smart_compact.Messages.{Role, user, assistant, tool_result, Block, tool_call, SessionMessage}
use pi_smart_compact.ToolBoundary.{
  build_tool_call_boundary_index, guard_tool_call_boundary, advance_past_tool_call_boundary,
}
use pi_smart_compact.ToolBoundary.Safe.{IsSafe}
use pi_smart_compact.ModePolicy.{fast}
use pi_smart_compact.Window.Budget.{
  Scale, retained_at, final_summary_allowance, message_scale, retention_ceiling, adaptive_keep,
}
use pi_smart_compact.Window.Tail.{tail_walk}
use pi_smart_compact.Window.Portable.{advance_past_non_portable}
use pi_smart_compact.Window.Soft.{Frame, soften}
use pi_smart_compact.Window.Plan.{
  CompactionWindowPlanInput, viable, no_eligible_prefix, settle, first_cut, soft_cut,
  plan_compaction_window,
}
use pi_smart_compact.Window.Laws.Hard.{IsPortable}
use pi_smart_compact.Window.Laws.Verdict.{viable-IsSafe}

abbrev message : Role → List Block → Option String → SessionMessage
message role content id = record {
  entry_id = none;
  custom_type = none;
  role = role;
  content = content;
  tool_call_id = id;
  tool_name = none;
  touched_files = [];
  is_injected = false;
}

abbrev talk : String → List SessionMessage
talk name =
    message user [] none
    ∷ message assistant [] none
    ∷ message user [] none
    ∷ message assistant (tool_call (some "c1") (some name) [] ∷ []) none
    ∷ message tool_result [] (some "c1")
    ∷ message user [] none
    ∷ []

abbrev pub input : String → ℕ → CompactionWindowPlanInput
input name keep = record {
  msgs = talk name;
  branch = [];
  message_tokens = 400 ∷ 200 ∷ 200 ∷ 100 ∷ 50 ∷ 50 ∷ [];
  total_tokens = 1000;
  model_context_window = some 2000;
  mode = fast;
  profile_cfg = record { summary_budget_tokens = 80; keep_recent_tokens = keep };
  force = false;
  final_summary_allowance_tokens = none;
}

unfoldable pub program : Unit {0}
unfolding plan_compaction_window final_summary_allowance message_scale retention_ceiling
    adaptive_keep retained_at tail_walk soften settle advance_past_non_portable
    build_tool_call_boundary_index guard_tool_call_boundary advance_past_tool_call_boundary lookup
    set String_discrete ℕ_discrete
program = tt

walk_cut : first_cut (input "read" 100) ≡ 2
unfolding program
walk_cut = refl

softened : (soft_cut (input "read" 100)).keep_from ≡ 2
unfolding program
softened = refl

keeps_four : (plan_compaction_window (input "read" 100)).keep_from ≡ 2
unfolding program
keeps_four = refl

pub is_viable : (plan_compaction_window (input "read" 100)).reason ≡ viable
unfolding program
is_viable = refl

-- A name with a space is not portable, and its exchange is the last one: the plan moves past it.
moves_past : (plan_compaction_window (input "re ad" 100)).keep_from ≡ 5
unfolding program
moves_past = refl

-- The first human turn starts the conversation, so a wide tail leaves nothing to compact.
all_kept : (plan_compaction_window (input "read" 2_000)).reason ≡ no_eligible_prefix
unfolding program
all_kept = refl

abbrev tokens : List ℕ
tokens = 400 ∷ 200 ∷ 200 ∷ 100 ∷ 50 ∷ 50 ∷ []

abbrev unit_scale : Scale
unit_scale = record { num = 1; den = 1 }

-- A tail of 350 tokens at most.
abbrev small : Frame
small = record {
  msgs = talk "read";
  tokens = tokens;
  scale = unit_scale;
  index = ("c1", 3) ∷ [];
  ceiling = 35_000;
}

abbrev start : ℕ
start = tail_walk tokens unit_scale 10_000 50_000 6 0

talk-IsPortable : All IsPortable (talk "read")
unfolding program
talk-IsPortable = (
  (refl, refl),
  ((refl, refl), ((refl, refl), ((refl, refl), ((refl, refl), ((refl, refl), tt))))),
)

viable-IsSafe_example :
    IsSafe
      (build_tool_call_boundary_index (talk "read"))
      (talk "read")
      (plan_compaction_window (input "read" 100)).keep_from
    × ((plan_compaction_window (input "read" 100)).keep_from < 6)
viable-IsSafe_example =
    viable-IsSafe (input "read" 100) (λ e. grind (arith, e)) (omega arith) talk-IsPortable is_viable
