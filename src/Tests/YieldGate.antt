-- ===== src/Tests/YieldGate.antt =====
-- Summaries for the plan of the window tests (`src/domain/yield-gate.ts`).
use pi_smart_compact.Base.{◌≤◌, ◌≡◌, refl, arith}
use pi_smart_compact.Window.Plan.{plan_compaction_window, CompactionWindowPlan}
use pi_smart_compact.YieldGate.{estimate_of, verify_compaction_yield, verified, target_miss}
use pi_smart_compact.YieldGate.Laws.{viable-verified}
use pi_smart_compact.Tests.Window.{input, is_viable, program}

abbrev plan : CompactionWindowPlan
plan = plan_compaction_window (input "read" 100)

-- The plan's target is 600 tokens; 30 more are tolerated.
too_long : verify_compaction_yield 1000 231 plan ≡ target_miss (estimate_of 1000 231 plan)
unfolding program verify_compaction_yield
too_long = refl

just_fits : verify_compaction_yield 1000 230 plan ≡ verified (estimate_of 1000 230 plan)
unfolding program verify_compaction_yield
just_fits = refl

allowed : 80 ≤ plan.final_summary_allowance_tokens
unfolding program
allowed = omega arith

viable-verified_example : verify_compaction_yield 1000 80 plan ≡ verified (estimate_of 1000 80 plan)
viable-verified_example = viable-verified (input "read" 100) 80 is_viable allowed
