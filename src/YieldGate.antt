-- ===== src/YieldGate.antt =====
-- `src/domain/yield-gate.ts`: the last check of a summary's size before it is applied. The target
-- is in hundredths of a token, as in the plan; a yield is a number of saved tokens over the total.
pub mod Laws
use pi_smart_compact.Base.{ℕ, ◌+◌, ◌-◌, ◌*◌, ◌/◌, max, List, Bool, true, false, ltb, if◌then◌else◌}
use pi_smart_compact.Window.Soft.{RelaxedSoftBoundary}
use pi_smart_compact.Window.Plan.{CompactionWindowPlan, yield_below_min}

pub record CompactionYieldEstimate : Type 0 where
  pub planned_after_tokens : ℕ
  pub planned_saved_tokens : ℕ
  pub estimated_after_tokens : ℕ
  pub estimated_saved_tokens : ℕ
  pub retained_tail_tokens : ℕ
  pub summary_tokens : ℕ
  pub summary_budget_tokens : ℕ
  pub target_after_hundredths : ℕ
  pub relaxed_soft_boundaries : List RelaxedSoftBoundary
  pub hard_boundary_adjusted : Bool

-- `verifyCompactionYield` returns, or throws a `YieldGateError` with one of its two reasons.
pub data YieldVerdict : Type 0 where
  verified target_miss insufficient_saving : CompactionYieldEstimate → YieldVerdict

-- What may be over the target: a token, or the whole tokens of a twentieth of the target.
unfoldable pub tolerance : ℕ → ℕ
tolerance target_hundredths = max 1 (target_hundredths / 2_000)

unfoldable pub exceeds_yield_target : (after_tokens target_hundredths : ℕ) → Bool
unfolding tolerance
exceeds_yield_target after_tokens target_hundredths =
    ltb (target_hundredths + tolerance target_hundredths * 100) (after_tokens * 100)

unfoldable pub estimate_of :
    (total_tokens summary_tokens : ℕ) → CompactionWindowPlan → CompactionYieldEstimate
estimate_of total_tokens summary_tokens plan =
    let after = plan.fixed_context_tokens + plan.retained_tokens + summary_tokens in
    record {
      planned_after_tokens = plan.projected_after_tokens;
      planned_saved_tokens = plan.projected_saved_tokens;
      estimated_after_tokens = after;
      estimated_saved_tokens = total_tokens - after;
      retained_tail_tokens = plan.retained_tokens;
      summary_tokens = summary_tokens;
      summary_budget_tokens = plan.summary_budget_tokens;
      target_after_hundredths = plan.target_after_hundredths;
      relaxed_soft_boundaries = plan.relaxed_soft_boundaries;
      hard_boundary_adjusted = plan.hard_boundary_adjusted;
    }

unfoldable pub verify_compaction_yield :
    (total_tokens summary_tokens : ℕ) → CompactionWindowPlan → YieldVerdict
unfolding exceeds_yield_target estimate_of
verify_compaction_yield total_tokens summary_tokens plan =
    let estimate = estimate_of total_tokens summary_tokens plan in
    if exceeds_yield_target estimate.estimated_after_tokens plan.target_after_hundredths
    then target_miss estimate
    else if yield_below_min total_tokens estimate.estimated_saved_tokens
    then insufficient_saving estimate
    else verified estimate
