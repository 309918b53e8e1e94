-- ===== src/YieldGate/Laws.antt =====
-- When the gate lets a summary pass, and that a viable plan's promise is one it keeps.
use pi_smart_compact.Base.{
  ℕ, ◌+◌, ◌-◌, ◌*◌, ◌≤◌, ◌<◌, ◌≡◌, refl, ◌↔◌, ◌⊎◌, inl, inr, Bool, false, arith, Bool-cases,
}
use pi_smart_compact.Window.Soft.{Cut}
use pi_smart_compact.ModePolicy.{mode_policies}
use pi_smart_compact.Window.Budget.{window_or_0}
use pi_smart_compact.Window.Plan.{
  CompactionWindowPlanInput, CompactionWindowPlan, viable, plan_at, plan_compaction_window,
  windowed, harden, frame, soft_cut, non_portable_tail_blocked,
}
use pi_smart_compact.Window.Laws.Verdict.{viable-IsSound}
use pi_smart_compact.YieldGate.{tolerance, estimate_of, verify_compaction_yield, verified}

-- The gate lets a summary pass exactly if the context after it is within the tolerance over the
-- plan's target, and it saves at least a tenth of a positive total.
pub verify-verified_iff :
    (total summary : ℕ) (plan : CompactionWindowPlan)
    → let after = plan.fixed_context_tokens + plan.retained_tokens + summary in
      (verify_compaction_yield total summary plan ≡ verified (estimate_of total summary plan)) ↔ (
        (after * 100 ≤ plan.target_after_hundredths + tolerance plan.target_after_hundredths * 100)
        × (0 < total)
        × (total ≤ (total - after) * 10))
unfolding verify_compaction_yield
verify-verified_iff total summary plan = (λ h. ground arith, λ h. ground arith)

-- What a plan projects, and the target of a forced run or of an unknown window.
record IsProjected (input : CompactionWindowPlanInput) (plan : CompactionWindowPlan) : Type 0 where
  projects :
      plan.projected_after_tokens
      ≡ plan.fixed_context_tokens + plan.retained_tokens + plan.final_summary_allowance_tokens
  saves : plan.projected_saved_tokens ≡ input.total_tokens - plan.projected_after_tokens
  targets :
      ((input.force ≡ false)
        × (0 < window_or_0 input.model_context_window)
        × (plan.target_after_hundredths
            ≡ window_or_0 input.model_context_window
              * (mode_policies input.mode).target_context_percent))
      ⊎ (plan.target_after_hundredths
          ≡ plan.fixed_context_tokens * 100
            + plan.retention_target_hundredths
            + plan.final_summary_allowance_tokens * 100)

module _ (input : CompactionWindowPlanInput) where
  target_cases :
      (c : Cut) (blocked : Bool)
      → let plan = plan_at input c blocked in
        ((input.force ≡ false)
          × (0 < window_or_0 input.model_context_window)
          × (plan.target_after_hundredths
              ≡ window_or_0 input.model_context_window
                * (mode_policies input.mode).target_context_percent))
        ⊎ (plan.target_after_hundredths
            ≡ plan.fixed_context_tokens * 100
              + plan.retention_target_hundredths
              + plan.final_summary_allowance_tokens * 100)
  unfolding plan_at
  target_cases c blocked = elim (Bool-cases input.force) [
    | inl forced ↦ inr (rw forced refl)
    | inr free ↦ elim (Bool-cases (windowed input)) [
      | inl known ↦ inl (free, ground arith, rw (free, known) refl)
      | inr unknown ↦ inr (rw (free, unknown) refl)
    ]
  ]

  plan_at-IsProjected : (c : Cut) (blocked : Bool) → IsProjected input (plan_at input c blocked)
  unfolding plan_at
  plan_at-IsProjected c blocked = record {
    projects = refl;
    saves = refl;
    targets = target_cases c blocked;
  }

  plan-IsProjected : IsProjected input (plan_compaction_window input)
  unfolding plan_compaction_window
  plan-IsProjected =
      plan_at-IsProjected (harden (frame input) (soft_cut input))
        (non_portable_tail_blocked (frame input) (soft_cut input))

  -- A summary of a viable plan that stays within the plan's allowance passes the yield gate.
  pub viable-verified :
      (summary : ℕ)
      → (plan_compaction_window input).reason ≡ viable
      → summary ≤ (plan_compaction_window input).final_summary_allowance_tokens
      → verify_compaction_yield input.total_tokens summary (plan_compaction_window input)
        ≡ verified (estimate_of input.total_tokens summary (plan_compaction_window input))
  viable-verified summary h small =
      let plan = plan_compaction_window input in
      let sound = viable-IsSound input h in
      let projected = plan-IsProjected in
      let within : plan.projected_after_tokens * 100 ≤ plan.target_after_hundredths =
        elim projected.targets [
          | inl (free, known, e) ↦ rw (← e) at (sound.meets_target free known)
          | inr e ↦ omega (arith, e, projected.projects, sound.retains)
        ] in
      (verify-verified_iff input.total_tokens summary plan).1 (
        omega (arith, within, projected.projects),
        sound.measured,
        omega (arith, sound.saves, projected.projects, projected.saves),
      )
