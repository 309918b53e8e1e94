-- ===== src/Window/Laws/Hard.antt =====
-- The hard boundaries leave every kept tool result with its call.
use pi_smart_compact.Base.{
  ℕ, suc, ◌≤◌, ◌<◌, ◌≡◌, refl, List, [], ◌∷◌, false, arith, length, drop, All, le_refl, le_trans,
  ◌⊎◌, inl, inr,
}
use pi_smart_compact.OrderedMap.{OrderedMap}
use pi_smart_compact.Messages.{SessionMessage}
use pi_smart_compact.ToolBoundary.{
  ToolCallBoundaryIndex, guard_tool_call_boundary, advance_past_tool_call_boundary, guard_call,
  nonempty, is_blocked,
}
use pi_smart_compact.ToolBoundary.Safe.{IsUnsplit, IsSafe}
use pi_smart_compact.ToolBoundary.Guard.{guard-latest-IsSafe}
use pi_smart_compact.ToolBoundary.Advance.{IsClear, advance-earliest-IsWhole}
use pi_smart_compact.Window.Soft.{Frame}
use pi_smart_compact.Window.Portable.{
  any_bad_call, bad_result, past_bad, past_all_bad, exchange_ends, advance_past_non_portable,
}
use pi_smart_compact.Window.Plan.{settle}

unblocked-IsUnsplit :
    (index : ToolCallBoundaryIndex) (cut i : ℕ) (m : SessionMessage)
    → is_blocked index cut i m ≡ false
    → IsUnsplit index cut m
unfolding is_blocked guard_call nonempty
unblocked-IsUnsplit index cut i m h call e = ground arith

clear-IsSafe :
    (index : ToolCallBoundaryIndex) (cut i : ℕ) (ms : List SessionMessage)
    → IsClear index cut i ms
    → All (IsUnsplit index cut) ms
clear-IsSafe index cut i [] s = tt
clear-IsSafe index cut i (m ∷ ms) (s, ss) =
    (unblocked-IsUnsplit index cut i m s, clear-IsSafe index cut (suc i) ms ss)

settle_cases :
    (f : Frame) (keep_from : ℕ)
    → (settle f keep_from ≡ guard_tool_call_boundary f.msgs keep_from f.index)
      ⊎ ((settle f keep_from ≡ advance_past_tool_call_boundary f.msgs keep_from f.index)
          × (advance_past_tool_call_boundary f.msgs keep_from f.index < length f.msgs))
unfolding settle
settle_cases f keep_from = ground arith

-- Wherever the soft boundaries left the cut inside the conversation, the two-way guard ends at one
-- that splits no tool exchange, inside the conversation.
pub settle-IsSafe :
    (f : Frame) (keep_from : ℕ)
    → 0 < keep_from
    → keep_from < length f.msgs
    → IsSafe f.index f.msgs (settle f keep_from) × (settle f keep_from < length f.msgs)
settle-IsSafe f keep_from p q =
    let (safe, below, _) = guard-latest-IsSafe f.msgs keep_from f.index p q in
    let (whole, _, _) = advance-earliest-IsWhole f.msgs keep_from f.index p q in
    elim (settle_cases f keep_from) [
      | inl e ↦ rw e (safe, omega arith)
      | inr (e, inside) ↦ rw e (clear-IsSafe f.index _ _ _ whole, inside)
    ]

-- At the start of the conversation there is nothing to guard.
pub settle-zero : (f : Frame) → settle f 0 ≡ 0
unfolding settle advance_past_tool_call_boundary guard_tool_call_boundary
settle-zero f = ground arith

-- Tool names that every provider takes: in calls and in results.
abbrev pub IsPortable : SessionMessage → Type 0
IsPortable m = (any_bad_call m.content ≡ false) × (bad_result m.tool_name ≡ false)

past_all_bad_portable :
    (ends : OrderedMap ℕ ℕ) (i : ℕ) (ms : List SessionMessage) (adjusted : ℕ)
    → All IsPortable ms
    → past_all_bad ends i ms adjusted ≡ adjusted
unfolding past_all_bad past_bad
past_all_bad_portable ends i [] adjusted h = refl
past_all_bad_portable ends i (m ∷ ms) adjusted (h, hs) =
    ground (arith, past_all_bad_portable ends (suc i) ms adjusted)

past_bad-le :
    (ends : OrderedMap ℕ ℕ) (i : ℕ) (m : SessionMessage) (adjusted : ℕ)
    → adjusted ≤ past_bad ends i m adjusted
unfolding past_bad
past_bad-le ends i m adjusted = ground arith

past_all_bad-le :
    (ends : OrderedMap ℕ ℕ) (i : ℕ) (ms : List SessionMessage) (adjusted : ℕ)
    → adjusted ≤ past_all_bad ends i ms adjusted
unfolding past_all_bad
past_all_bad-le ends i [] adjusted = le_refl adjusted
past_all_bad-le ends i (m ∷ ms) adjusted =
    le_trans (past_bad-le ends i m adjusted)
      (past_all_bad-le ends (suc i) ms (past_bad ends i m adjusted))

-- The last step never moves the cut back.
pub advance_past_non_portable-le :
    (msgs : List SessionMessage) (keep_from : ℕ) (index : ToolCallBoundaryIndex)
    → keep_from ≤ advance_past_non_portable msgs keep_from index
unfolding advance_past_non_portable
advance_past_non_portable-le msgs keep_from index = ground (
  arith,
  past_all_bad-le (exchange_ends index keep_from keep_from (drop keep_from msgs) []) keep_from
      (drop keep_from msgs) keep_from,
)

-- And not at all where every kept tool name is portable.
pub advance_past_non_portable_fixed :
    (msgs : List SessionMessage) (keep_from : ℕ) (index : ToolCallBoundaryIndex)
    → All IsPortable (drop keep_from msgs)
    → advance_past_non_portable msgs keep_from index ≡ keep_from
unfolding advance_past_non_portable
advance_past_non_portable_fixed msgs keep_from index h = ground (
  arith,
  past_all_bad_portable (exchange_ends index keep_from keep_from (drop keep_from msgs) []) keep_from
      (drop keep_from msgs) keep_from h,
)
