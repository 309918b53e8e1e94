-- ===== src/Window/Laws/Verdict.antt =====
-- What a plan that is called viable has been checked for.
use pi_smart_compact.Base.{
  ℕ, ◌*◌, ◌≤◌, ◌<◌, ◌≡◌, ◌≢◌, refl, [], Bool, true, false, arith, length, All-drop-le, length_pos,
  ◌∙◌, ap, All, ◌⊎◌, inl, inr, get_elem?,
}
use pi_smart_compact.ToolBoundary.{build_tool_call_boundary_index}
use pi_smart_compact.ToolBoundary.Safe.{IsSafe}
use pi_smart_compact.ModePolicy.{mode_policies}
use pi_smart_compact.Window.Budget.{window_or_0}
use pi_smart_compact.Window.Soft.{Cut, fits}
use pi_smart_compact.Window.Plan.{
  CompactionWindowPlanInput, CompactionWindowPlan, viable, reason_of, starts_with_result, settle,
  harden, all_tokens, first_cut, frame, soft_cut, plan_at, plan_compaction_window, windowed,
}
use pi_smart_compact.Window.Laws.Tail.{tail_walk-lt, message_scale_pos, adaptive_keep_pos}
use pi_smart_compact.Window.Laws.Soft.{IsWithin, soften-IsWithin}
use pi_smart_compact.Window.Laws.Hard.{
  settle-IsSafe, settle-zero, IsPortable, advance_past_non_portable_fixed,
}

reason_of-viable :
    (blocked first_is_result force windowed : Bool)
    (keep_from retained ceiling after target total saved : ℕ)
    → reason_of blocked first_is_result force windowed keep_from retained ceiling after target total
        saved
      ≡ viable
    → (blocked ≡ false)
      × (0 < keep_from)
      × (first_is_result ≡ false)
      × (retained * 100 ≤ ceiling)
      × (0 < total)
      × (total ≤ saved * 10)
      × (force ≡ false → windowed ≡ true → after * 100 ≤ target)
unfolding reason_of
reason_of-viable blocked first_is_result force windowed k r ceiling after target total saved h =
    ground arith

cut_cases : (n : ℕ) → (n ≡ 0) ⊎ (0 < n)
cut_cases n = grind arith

module _ (input : CompactionWindowPlanInput) where
  -- What the checks establish of a plan.
  pub record IsSound (plan : CompactionWindowPlan) : Type 0 where
    pub compacts : 0 < plan.keep_from
    pub starts_clean : starts_with_result (get_elem? input.msgs plan.keep_from) ≡ false
    pub retains : plan.retained_tokens * 100 ≤ plan.retention_target_hundredths
    pub measured : 0 < input.total_tokens
    pub saves : input.total_tokens ≤ plan.projected_saved_tokens * 10
    pub meets_target :
        input.force ≡ false
        → 0 < window_or_0 input.model_context_window
        → plan.projected_after_tokens * 100
          ≤ window_or_0 input.model_context_window
            * (mode_policies input.mode).target_context_percent

  target_of_mode :
      (c : Cut) (blocked : Bool)
      → input.force ≡ false
      → windowed input ≡ true
      → (plan_at input c blocked).target_after_hundredths
        ≡ window_or_0 input.model_context_window * (mode_policies input.mode).target_context_percent
  unfolding plan_at
  target_of_mode c blocked unforced known = rw (unforced, known)

  plan_at-IsSound :
      (c : Cut) (blocked : Bool)
      → (plan_at input c blocked).reason ≡ viable
      → IsSound (plan_at input c blocked)
  unfolding plan_at
  plan_at-IsSound c blocked h =
      let plan = plan_at input c blocked in
      let (_, k, first, r, t, s, m) =
        reason_of-viable blocked (starts_with_result (get_elem? input.msgs c.keep_from)) input.force
          (windowed input) c.keep_from plan.retained_tokens plan.retention_target_hundredths
          plan.projected_after_tokens plan.target_after_hundredths input.total_tokens
          plan.projected_saved_tokens h in
      record {
        compacts = k;
        starts_clean = first;
        retains = r;
        measured = t;
        saves = s;
        meets_target = λ unforced w.
            let known : windowed input ≡ true = ground arith in
            rw (target_of_mode c blocked unforced known) at (m unforced known);
      }

  -- A viable plan leaves something to compact; the first kept message is no tool result; the kept
  -- tail is within the retention target; the saving is at least a tenth of a positive total; and
  -- unless forced, a known model window gets the mode's target.
  pub viable-IsSound :
      (plan_compaction_window input).reason ≡ viable → IsSound (plan_compaction_window input)
  unfolding plan_compaction_window
  viable-IsSound h = plan_at-IsSound _ _ h

  first_cut-fits : fits (frame input) (first_cut input) ≡ true
  unfolding frame
  first_cut-fits = ground arith

  -- The softened cut keeps no fewer messages than the token walk alone, and keeps a tail that is
  -- within the retention target.
  pub soft_cut-IsWithin : IsWithin (frame input) (first_cut input) (soft_cut input)
  unfolding soft_cut
  soft_cut-IsWithin =
      soften-IsWithin (frame input) input.branch
        (record {
          keep_from = first_cut input;
          hard_boundary_adjusted = false;
          relaxed_soft_boundaries = [];
        })
        first_cut-fits

  first_cut-lt :
      input.msgs ≢ []
      → 0 < input.profile_cfg.keep_recent_tokens
      → first_cut input < length input.msgs
  unfolding first_cut
  first_cut-lt some_msgs keeps =
      tail_walk-lt _ _ _ _ (length input.msgs) (length_pos input.msgs some_msgs)
        (adaptive_keep_pos input.profile_cfg input.model_context_window keeps)
        (message_scale_pos input.total_tokens (all_tokens input))

  harden-settle :
      All IsPortable input.msgs
      → (harden (frame input) (soft_cut input)).keep_from
        ≡ settle (frame input) (soft_cut input).keep_from
  unfolding harden frame
  harden-settle portable =
      let settled = settle (frame input) (soft_cut input).keep_from in
      ground (
        arith,
        advance_past_non_portable_fixed (frame input).msgs settled (frame input).index
            (All-drop-le IsPortable 0 settled (frame input).msgs (omega arith) portable),
      )

  plan-keep_from :
      (plan_compaction_window input).keep_from ≡ (harden (frame input) (soft_cut input)).keep_from
  unfolding plan_compaction_window
  plan-keep_from = refl

  -- Where the conversation is not empty, the profile keeps recent tokens and every tool name is
  -- portable, a viable plan keeps every tool result with its call, and keeps at least one message.
  pub viable-IsSafe :
      input.msgs ≢ []
      → 0 < input.profile_cfg.keep_recent_tokens
      → All IsPortable input.msgs
      → (plan_compaction_window input).reason ≡ viable
      → IsSafe
          (build_tool_call_boundary_index input.msgs)
          input.msgs
          (plan_compaction_window input).keep_from
        × ((plan_compaction_window input).keep_from < length input.msgs)
  unfolding frame
  viable-IsSafe some_msgs keeps portable h =
      let f = frame input in
      let cut = (soft_cut input).keep_from in
      let e = plan-keep_from ∙ harden-settle portable in
      let compacts : 0 < settle f cut = rw e at (viable-IsSound h).compacts in
      let inside : cut < length input.msgs =
        omega (arith, soft_cut-IsWithin.no_later, first_cut-lt some_msgs keeps) in
      let later : 0 < cut = elim (cut_cases cut) [
        | inl z ↦ absurd (omega (arith, compacts, ap (settle f) z, settle-zero f))
        | inr p ↦ p
      ] in
      rw e (settle-IsSafe f cut later inside)
