-- ===== src/Window/Plan.antt =====
-- The hard boundaries, the verdict and the plan.
use pi_smart_compact.Base.{
  ℕ, ◌+◌, ◌-◌, ◌*◌, max, List, [], Bool, false, ◌&&◌, ◌||◌, not, Option, none, some, ltb, leb, ◌==◌,
  if◌then◌else◌, length, get_elem?, take,
}
use pi_smart_compact.Messages.{SessionMessage, BranchEntry}
use pi_smart_compact.ModePolicy.{EffectiveCompactionMode, mode_policies}
use pi_smart_compact.ToolBoundary.{
  build_tool_call_boundary_index, guard_tool_call_boundary, advance_past_tool_call_boundary,
  is_tool_result,
}
use pi_smart_compact.Window.Budget.{
  ProfileConfig, Scale, sum, message_scale, scaled, retained_at, window_or_0, adaptive_keep,
  final_summary_allowance, retention_ceiling,
}
use pi_smart_compact.Window.Tail.{tail_walk}
use pi_smart_compact.Window.Soft.{RelaxedSoftBoundary, Cut, Frame, fits, soften}
use pi_smart_compact.Window.Portable.{advance_past_non_portable}

pub record CompactionWindowPlanInput : Type 0 where
  pub msgs : List SessionMessage
  pub branch : List BranchEntry
  pub message_tokens : List ℕ
  pub total_tokens : ℕ
  pub model_context_window : Option ℕ
  pub mode : EffectiveCompactionMode
  pub profile_cfg : ProfileConfig
  pub force : Bool
  pub final_summary_allowance_tokens : Option ℕ

pub data CompactionPlanReason : Type 0 where
  viable no_eligible_prefix unsafe_tool_boundary retention_target_exceeded : CompactionPlanReason
  mode_target_not_met insufficient_projected_saving : CompactionPlanReason

-- Fields that end in `hundredths` are the source's numbers times 100; `projectedYield` is
-- `projected_saved_tokens` over the total, and `viable` tells whether `reason` is.
pub record CompactionWindowPlan : Type 0 where
  pub keep_from : ℕ
  pub compact_tokens : ℕ
  pub retained_tokens : ℕ
  pub projected_after_tokens : ℕ
  pub projected_saved_tokens : ℕ
  pub fixed_context_tokens : ℕ
  pub retention_target_hundredths : ℕ
  pub summary_budget_tokens : ℕ
  pub final_summary_allowance_tokens : ℕ
  pub target_after_hundredths : ℕ
  pub hard_boundary_adjusted : Bool
  pub reason : CompactionPlanReason
  pub relaxed_soft_boundaries : List RelaxedSoftBoundary

-- The two-way tool guard: back to the call, or past the exchange where that fits and going back
-- does not.
unfoldable pub settle : Frame → ℕ → ℕ
settle f keep_from =
    let backward = guard_tool_call_boundary f.msgs keep_from f.index in
    let forward =
      if fits f backward
      then keep_from
      else advance_past_tool_call_boundary f.msgs keep_from f.index in
    if ltb keep_from forward && ltb forward (length f.msgs) && fits f forward
    then forward
    else backward

-- `settle`, then the step past exchanges with a non-portable tool name, unless nothing is left.
unfoldable pub harden : Frame → Cut → Cut
unfolding settle
harden f c =
    let settled = settle f c.keep_from in
    let safe = advance_past_non_portable f.msgs settled f.index in
    let moved = ltb safe (length f.msgs) && ltb settled safe in
    record c {
      keep_from = if moved then safe else settled;
      hard_boundary_adjusted = c.hard_boundary_adjusted || not (settled == c.keep_from) || moved;
    }

unfoldable pub non_portable_tail_blocked : Frame → Cut → Bool
non_portable_tail_blocked f c =
    leb (length f.msgs) (advance_past_non_portable f.msgs (settle f c.keep_from) f.index)

-- `isRecord(firstKeptMessage) && firstKeptMessage.role === "toolResult"`
abbrev pub starts_with_result : Option SessionMessage → Bool
starts_with_result none = false
starts_with_result (some m) = is_tool_result m.role

-- `projectedYield < MIN_COMPACTION_SAVING_RATIO`, where the yield of an empty context is 0.
abbrev pub yield_below_min : (total saved : ℕ) → Bool
yield_below_min total saved = leb total 0 || ltb (saved * 10) total

unfoldable pub reason_of :
    (blocked first_is_result force windowed : Bool)
    (keep_from retained ceiling after target total saved : ℕ)
    → CompactionPlanReason
reason_of blocked first_is_result force windowed keep_from retained ceiling after target total
      saved =
    if blocked || first_is_result
    then unsafe_tool_boundary
    else if leb keep_from 0
    then no_eligible_prefix
    else if ltb ceiling (retained * 100)
    then retention_target_exceeded
    else if not force && windowed && ltb target (after * 100)
    then mode_target_not_met
    else if yield_below_min total saved
    then insufficient_projected_saving
    else viable

module _ (input : CompactionWindowPlanInput) where
  open input use {
    msgs, branch, message_tokens, total_tokens, model_context_window, mode, profile_cfg, force,
    final_summary_allowance_tokens,
  }

  abbrev pub all_tokens : ℕ
  all_tokens = sum message_tokens

  abbrev pub scale_of : Scale
  scale_of = message_scale total_tokens all_tokens

  abbrev pub fixed_tokens : ℕ
  fixed_tokens = total_tokens - all_tokens

  abbrev pub allowance : ℕ
  allowance = final_summary_allowance profile_cfg final_summary_allowance_tokens

  abbrev pub windowed : Bool
  windowed = ltb 0 (window_or_0 model_context_window)

  abbrev pub raw_ceiling : ℕ
  raw_ceiling = retention_ceiling profile_cfg model_context_window mode force fixed_tokens allowance

  -- The cut that the token walk alone gives. Of no messages it is 0 here and -1 in the code; the
  -- plan is refused either way.
  unfoldable pub first_cut : ℕ
  first_cut =
      tail_walk message_tokens scale_of (adaptive_keep profile_cfg model_context_window) raw_ceiling
        (length msgs) 0

  unfoldable pub frame : Frame
  unfolding first_cut
  frame = record {
    msgs = msgs;
    tokens = message_tokens;
    scale = scale_of;
    index = build_tool_call_boundary_index msgs;
    ceiling = max raw_ceiling (retained_at message_tokens scale_of first_cut * 100);
  }

  unfoldable pub soft_cut : Cut
  unfolding frame
  soft_cut = soften frame branch (record {
    keep_from = first_cut;
    hard_boundary_adjusted = false;
    relaxed_soft_boundaries = [];
  })

  unfoldable pub plan_at : Cut → Bool → CompactionWindowPlan
  unfolding reason_of
  plan_at c blocked =
      let retained = retained_at message_tokens scale_of c.keep_from in
      let after = fixed_tokens + retained + allowance in
      let saved = total_tokens - after in
      let target =
        if not force && windowed
        then window_or_0 model_context_window * (mode_policies mode).target_context_percent
        else fixed_tokens * 100 + frame.ceiling + allowance * 100 in
      record {
        keep_from = c.keep_from;
        compact_tokens = scaled scale_of (sum (take c.keep_from message_tokens));
        retained_tokens = retained;
        projected_after_tokens = after;
        projected_saved_tokens = saved;
        fixed_context_tokens = fixed_tokens;
        retention_target_hundredths = frame.ceiling;
        summary_budget_tokens = profile_cfg.summary_budget_tokens;
        final_summary_allowance_tokens = allowance;
        target_after_hundredths = target;
        hard_boundary_adjusted = c.hard_boundary_adjusted;
        reason =
            reason_of blocked (starts_with_result (get_elem? msgs c.keep_from)) force windowed
              c.keep_from retained frame.ceiling after target total_tokens saved;
        relaxed_soft_boundaries = c.relaxed_soft_boundaries;
      }

  unfoldable pub plan_compaction_window : CompactionWindowPlan
  unfolding plan_at soft_cut harden non_portable_tail_blocked
  plan_compaction_window =
      plan_at (harden frame soft_cut) (non_portable_tail_blocked frame soft_cut)
