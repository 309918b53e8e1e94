-- ===== src/ModePolicy.antt =====
-- `src/app/mode-policy.ts`: what a compaction mode allows, and which mode a session gets. Ratios
-- are scaled: the single-pass multiplier is in tenths, a confidence in hundredths. A context
-- percent is cut to a whole number, which the tests `>= 85` and `< 70` do not see.
pub mod Laws
use pi_smart_compact.Base.{
  ℕ, zero, suc, ◌+◌, ◌-◌, ◌*◌, ◌/◌, min, max, List, [], ◌∷◌, Bool, true, false, ◌||◌, not, Option,
  none, some, ltb, leb, if◌then◌else◌, length,
}

pub data EffectiveCompactionMode : Type 0 where
  fast balanced thorough : EffectiveCompactionMode

pub data CompactionMode : Type 0 where
  auto aggressive : CompactionMode
  effective : EffectiveCompactionMode → CompactionMode

pub data CompressionProfile : Type 0 where
  light_profile balanced_profile aggressive_profile : CompressionProfile

pub record BatchOutput : Type 0 where
  pub min_tokens : ℕ
  pub per_chunk : ℕ
  pub max_tokens : ℕ

pub record ModePolicy : Type 0 where
  pub profile : CompressionProfile
  pub max_llm_calls : ℕ
  pub max_input_tokens : ℕ
  pub max_output_tokens : ℕ
  pub explore : Bool
  pub allow_llm_patch : Bool
  pub single_pass_multiplier_tenths : ℕ
  pub batch_output : BatchOutput
  pub target_context_percent : ℕ

abbrev pub mode_policies : EffectiveCompactionMode → ModePolicy
mode_policies fast = record {
  profile = aggressive_profile;
  max_llm_calls = 3;
  max_input_tokens = 100_000;
  max_output_tokens = 20_000;
  explore = false;
  allow_llm_patch = false;
  single_pass_multiplier_tenths = 20;
  batch_output = record { min_tokens = 800; per_chunk = 160; max_tokens = 2_400 };
  target_context_percent = 30;
}
mode_policies balanced = record {
  profile = balanced_profile;
  max_llm_calls = 6;
  max_input_tokens = 200_000;
  max_output_tokens = 40_000;
  explore = false;
  allow_llm_patch = false;
  single_pass_multiplier_tenths = 15;
  batch_output = record { min_tokens = 1_000; per_chunk = 250; max_tokens = 4_096 };
  target_context_percent = 40;
}
mode_policies thorough = record {
  profile = light_profile;
  max_llm_calls = 8;
  max_input_tokens = 300_000;
  max_output_tokens = 80_000;
  explore = true;
  allow_llm_patch = true;
  single_pass_multiplier_tenths = 9;
  batch_output = record { min_tokens = 1_500; per_chunk = 400; max_tokens = 6_000 };
  target_context_percent = 50;
}

pub mode_from_legacy_profile : CompressionProfile → EffectiveCompactionMode
mode_from_legacy_profile light_profile = thorough
mode_from_legacy_profile aggressive_profile = fast
mode_from_legacy_profile balanced_profile = balanced

-- `StructuredExtraction` as the policy reads it: the `resolved` flag of each error, whether there
-- is a main goal, and the sizes of the other collections.
pub record Extraction : Type 0 where
  pub main_goal : Bool
  pub message_count : ℕ
  pub errors_resolved : List Bool
  pub decisions : ℕ
  pub constraints : ℕ
  pub modified_files : ℕ
  pub deleted_files : ℕ
  pub topics : ℕ
  pub last_user_messages : ℕ
  pub media_attachments : ℕ

-- `errors.filter(error => !error.resolved).length`
unfoldable pub unresolved : List Bool → ℕ
unresolved [] = 0
unresolved (resolved ∷ errors) = (if resolved then 0 else 1) + unresolved errors

-- `Math.ceil(n / 5)` and `Math.ceil(n / 4)`
abbrev pub risk : Extraction → ℕ → ℕ
risk x additional_risk =
    unresolved x.errors_resolved * 2
    + x.decisions
    + x.constraints
    + (x.modified_files + 4) / 5
    + (x.topics + 3) / 4
    + additional_risk

-- `resolveMode` past its first two returns, where an extraction is at hand.
pub mode_of_risk : ℕ → EffectiveCompactionMode
mode_of_risk r = if leb 12 r then thorough else if leb r 3 then fast else balanced

pub resolve_mode : CompactionMode → ℕ → Option Extraction → ℕ → EffectiveCompactionMode
unfolding mode_of_risk
resolve_mode aggressive context_percent extraction additional_risk = fast
resolve_mode (effective mode) context_percent extraction additional_risk = mode
resolve_mode auto context_percent none additional_risk =
    if leb 85 context_percent then fast else if ltb context_percent 70 then fast else balanced
resolve_mode auto context_percent (some x) additional_risk =
    if leb 85 context_percent then fast else mode_of_risk (risk x additional_risk)

-- What the score gains, and what it loses, in hundredths.
abbrev pub confidence_gain : Extraction → ℕ
confidence_gain x =
    45
    + (if x.main_goal then 15 else 0)
    + (if ltb 0 x.message_count then 5 else 0)
    + (if ltb 0 x.last_user_messages then 10 else 0)
    + (if ltb 0 (x.modified_files + x.deleted_files + x.decisions + x.constraints) then 15 else 0)

abbrev pub confidence_loss : Extraction → ℕ → ℕ → ℕ
confidence_loss x conversation_tokens tool_percent =
    (if ltb 80 x.message_count then 20 else 0)
    + (if ltb 40_000 conversation_tokens then 40 else 0)
    + (if ltb 0 x.message_count
        then (if ltb (2_000 * x.message_count) conversation_tokens then 35 else 0)
        else 0)
    + (if ltb 60 tool_percent then 25 else 0)
    + (if ltb 6 x.topics then 15 else 0)
    + (if ltb 2 (unresolved x.errors_resolved) then 20 else 0)
    + (if ltb 0 x.media_attachments then 15 else 0)

-- `Math.max(0, …)` is the truncated subtraction.
pub deterministic_extraction_confidence : Extraction → ℕ → ℕ → ℕ
deterministic_extraction_confidence x conversation_tokens tool_percent =
    min 100 (confidence_gain x - confidence_loss x conversation_tokens tool_percent)

-- The sizes that `continuityRisk` reads of a `CompactionState`.
pub record ContinuityCounts : Type 0 where
  pub unresolved_errors : ℕ
  pub loops_resolved : List Bool
  pub decisions : ℕ
  pub constraints : ℕ

pub continuity_risk : Option ContinuityCounts → ℕ
unfolding unresolved
continuity_risk none = 0
continuity_risk (some s) =
    min 12 (
      s.unresolved_errors * 2 + unresolved s.loops_resolved + (s.decisions + s.constraints + 4) / 5)

pub batch_output_limit : EffectiveCompactionMode → ℕ → ℕ → ℕ
batch_output_limit mode chunks provider_max =
    min (min (max budget.min_tokens (chunks * budget.per_chunk)) budget.max_tokens) provider_max
  where
    budget : BatchOutput
    budget = (mode_policies mode).batch_output

-- `override !== undefined && override > 0`
abbrev pub override_or : Option ℕ → ℕ → ℕ
override_or none n = n
override_or (some override) n = if ltb 0 override then override else n

pub effective_budget : ℕ → ℕ → Option ℕ → ℕ
effective_budget configured mode_default override =
    override_or override (if leb configured 0 then mode_default else min configured mode_default)

abbrev pub auto_trigger_max_llm_calls : ℕ
auto_trigger_max_llm_calls = 4

pub resolve_call_budget : ℕ → EffectiveCompactionMode → Option ℕ → Bool → ℕ
unfolding effective_budget
resolve_call_budget configured mode override automatic =
    let budget = effective_budget configured (mode_policies mode).max_llm_calls override in
    if automatic then min budget auto_trigger_max_llm_calls else budget

abbrev reasoning_output_headroom_tokens : ℕ
reasoning_output_headroom_tokens = 16_384

-- `models.some(model => model?.reasoning)`
pub any_reasoning : List (Option Bool) → Bool
any_reasoning [] = false
any_reasoning (none ∷ models) = any_reasoning models
any_reasoning (some reasoning ∷ models) = reasoning || any_reasoning models

pub resolve_output_budget : EffectiveCompactionMode → ℕ → List (Option Bool) → ℕ
unfolding any_reasoning
resolve_output_budget mode call_budget models =
    (mode_policies mode).max_output_tokens
    + (if any_reasoning models then call_budget * reasoning_output_headroom_tokens else 0)
