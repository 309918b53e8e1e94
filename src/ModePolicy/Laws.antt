-- ===== src/ModePolicy/Laws.antt =====
-- The budgets and modes that the policy gives stay within its limits.
use pi_smart_compact.Base.{ℕ, ◌≤◌, ◌<◌, ◌≡◌, ◌⊎◌, Bool, true, Option, none, some, arith, min}
use pi_smart_compact.ModePolicy.{
  EffectiveCompactionMode, fast, balanced, thorough, auto, Extraction, mode_policies, risk,
  resolve_mode, resolve_call_budget, batch_output_limit,
}

-- Depth of a mode: fast, then balanced, then thorough.
abbrev pub depth : EffectiveCompactionMode → ℕ
depth fast = 0
depth balanced = 1
depth thorough = 2

-- Under the pressure limit of 85 percent, a session with no less risk gets no shallower mode.
pub resolve_mode_mono :
    (percent : ℕ) (x y : Extraction) (a b : ℕ)
    → percent < 85
    → risk x a ≤ risk y b
    → depth (resolve_mode auto percent (some x) a) ≤ depth (resolve_mode auto percent (some y) b)
unfolding resolve_mode
resolve_mode_mono percent x y a b h k = ground arith

-- Without a positive override the call budget is positive and at most the mode's, and at most a
-- positive configured value; an automatic run never gets more than four calls.
pub resolve_call_budget_bounds :
    (configured : ℕ) (mode : EffectiveCompactionMode) (override : Option ℕ) (automatic : Bool)
    → (override ≡ none) ⊎ (override ≡ some 0)
    → let budget = resolve_call_budget configured mode override automatic in
      (0 < budget)
      × (budget ≤ (mode_policies mode).max_llm_calls)
      × (0 < configured → budget ≤ configured)
      × (automatic ≡ true → budget ≤ 4)
unfolding resolve_call_budget
resolve_call_budget_bounds configured fast override automatic h = ground arith
resolve_call_budget_bounds configured balanced override automatic h = ground arith
resolve_call_budget_bounds configured thorough override automatic h = ground arith

-- A batch may write at most the mode's limit and the provider's, and no less than the smallest of
-- the mode's floor and the provider's limit.
pub batch_output_limit_bounds :
    (mode : EffectiveCompactionMode) (chunks provider_max : ℕ)
    → let budget = (mode_policies mode).batch_output in
      (batch_output_limit mode chunks provider_max ≤ min budget.max_tokens provider_max)
      × (min budget.min_tokens provider_max ≤ batch_output_limit mode chunks provider_max)
unfolding batch_output_limit
batch_output_limit_bounds fast chunks provider_max = (omega arith, omega arith)
batch_output_limit_bounds balanced chunks provider_max = (omega arith, omega arith)
batch_output_limit_bounds thorough chunks provider_max = (omega arith, omega arith)
