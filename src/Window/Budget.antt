-- ===== src/Window/Budget.antt =====
-- The budgets of a plan: the scale, the token sums and the ceilings.
use pi_smart_compact.Base.{
  ℕ, ◌+◌, ◌-◌, ◌*◌, ◌/◌, min, max, List, [], ◌∷◌, Bool, ◌&&◌, Option, none, some, ltb,
  if◌then◌else◌, drop,
}
use pi_smart_compact.ModePolicy.{EffectiveCompactionMode, mode_policies}

-- `ProfileConfig`, the fields that the planner reads.
pub record ProfileConfig : Type 0 where
  pub summary_budget_tokens : ℕ
  pub keep_recent_tokens : ℕ

-- `messageScale` as a fraction with a positive numerator and denominator.
pub record Scale : Type 0 where
  pub num : ℕ
  pub den : ℕ

unfoldable pub sum : List ℕ → ℕ
sum [] = 0
sum (t ∷ ts) = t + sum ts

unfoldable pub message_scale : ℕ → ℕ → Scale
message_scale total all =
    if ltb 0 total && ltb total all
    then record { num = total; den = all }
    else record { num = 1; den = 1 }

-- `Math.round(x * scale)`
unfoldable pub scaled : Scale → ℕ → ℕ
scaled s x = (2 * x * s.num + s.den) / (2 * s.den)

-- `retainedAt`
unfoldable pub retained_at : List ℕ → Scale → ℕ → ℕ
unfolding sum scaled
retained_at tokens s from = scaled s (sum (drop from tokens))

-- An absent window is as one of 0 tokens: neither is used.
abbrev pub window_or_0 : Option ℕ → ℕ
window_or_0 none = 0
window_or_0 (some w) = w

-- `adaptiveKeepTokens`, in hundredths.
unfoldable pub adaptive_keep : ProfileConfig → Option ℕ → ℕ
adaptive_keep cfg window =
    if ltb 0 (window_or_0 window)
    then min (cfg.keep_recent_tokens * 200)
        (max (cfg.keep_recent_tokens * 100) (window_or_0 window * 4))
    else cfg.keep_recent_tokens * 100

-- `finalSummaryAllowance`; the reserve is `Math.ceil(budget * 0.25)`.
unfoldable pub final_summary_allowance : ProfileConfig → Option ℕ → ℕ
final_summary_allowance cfg none = cfg.summary_budget_tokens + (cfg.summary_budget_tokens + 3) / 4
final_summary_allowance cfg (some allowance) = allowance

-- `retentionCeiling`, in hundredths; `Math.max(0, …)` is the truncated subtraction.
unfoldable pub retention_ceiling :
    ProfileConfig → Option ℕ → EffectiveCompactionMode → Bool → (fixed allowance : ℕ) → ℕ
unfolding adaptive_keep
retention_ceiling cfg window mode force fixed allowance =
    let keep = adaptive_keep cfg window in
    let target =
      if ltb 0 (window_or_0 window)
      then window_or_0 window * (mode_policies mode).target_context_percent
        - fixed * 100
        - allowance * 100
      else keep in
    if force then keep else max keep target
