-- ===== src/Window/Laws/Projection.antt =====
-- The plan's arithmetic: what is compacted and what is kept add up.
use pi_smart_compact.Base.{ℕ, zero, suc, ◌+◌, ◌≤◌, ◌≡◌, List, [], ◌∷◌, Bool, arith, take, drop}
use pi_smart_compact.Window.Budget.{sum, scaled, retained_at, message_scale}
use pi_smart_compact.Window.Soft.{Cut}
use pi_smart_compact.Window.Plan.{
  CompactionWindowPlanInput, plan_at, plan_compaction_window, scale_of, all_tokens, frame, soft_cut,
  harden, non_portable_tail_blocked,
}

sum-take-drop : (n : ℕ) (ts : List ℕ) → sum (take n ts) + sum (drop n ts) ≡ sum ts
unfolding sum
sum-take-drop zero ts = omega arith
sum-take-drop (suc n) [] = omega arith
sum-take-drop (suc n) (t ∷ ts) = omega (arith, sum-take-drop n ts)

scaled_one : (x : ℕ) → scaled (record { num = 1; den = 1 }) x ≡ x
unfolding scaled
scaled_one x = omega arith

module _ (input : CompactionWindowPlanInput) where
  unit_scale : all_tokens input ≤ input.total_tokens → scale_of input ≡ record { num = 1; den = 1 }
  unfolding message_scale
  unit_scale h = ground arith

  plan_at_balance :
      (c : Cut) (blocked : Bool)
      → all_tokens input ≤ input.total_tokens
      → let plan = plan_at input c blocked in
        plan.projected_after_tokens + plan.compact_tokens
        ≡ input.total_tokens + plan.final_summary_allowance_tokens
  unfolding plan_at retained_at
  plan_at_balance c blocked h =
      rw (unit_scale h, scaled_one, scaled_one)
        (omega (arith, sum-take-drop c.keep_from input.message_tokens))

  -- Where the message estimates do not exceed the measured context, the projected context is the
  -- measured one less what is compacted plus the allowance for the summary.
  pub plan_balance :
      all_tokens input ≤ input.total_tokens
      → let plan = plan_compaction_window input in
        plan.projected_after_tokens + plan.compact_tokens
        ≡ input.total_tokens + plan.final_summary_allowance_tokens
  unfolding plan_compaction_window
  plan_balance h =
      plan_at_balance (harden (frame input) (soft_cut input))
        (non_portable_tail_blocked (frame input) (soft_cut input)) h
