-- ===== src/Window/Laws/Soft.antt =====
-- A soft boundary only moves the cut back, and never past the ceiling.
use pi_smart_compact.Base.{ℕ, ◌≤◌, ◌≡◌, List, true, Option, none, some, arith, le_refl}
use pi_smart_compact.Messages.{BranchEntry}
use pi_smart_compact.ToolBoundary.{guard_tool_call_boundary}
use pi_smart_compact.ToolBoundary.Guard.{guard-latest-IsSafe, guard_outside}
use pi_smart_compact.Window.Soft.{
  RelaxedSoftBoundary, recent_user_turn, anchor, topical, protected_user_index, anchor_candidate,
  topical_candidate, Cut, Frame, fits, try_soft_boundary, soften,
}

-- The guard never moves a cut forward.
pub guard-le :
    (f : Frame) (keep_from : ℕ) → guard_tool_call_boundary f.msgs keep_from f.index ≤ keep_from
guard-le f keep_from =
    grind
      (arith, guard-latest-IsSafe f.msgs keep_from f.index, guard_outside f.msgs keep_from f.index)

-- The cut is no later than another one and its tail is within the ceiling.
pub record IsWithin (f : Frame) (limit : ℕ) (c : Cut) : Type 0 where
  pub fitting : fits f c.keep_from ≡ true
  pub no_later : c.keep_from ≤ limit

try-IsWithin :
    (f : Frame) (limit : ℕ) (kind : RelaxedSoftBoundary) (candidate : Option ℕ) (c : Cut)
    → IsWithin f limit c
    → IsWithin f limit (try_soft_boundary f kind candidate c)
unfolding try_soft_boundary
try-IsWithin f limit kind none c w = w
try-IsWithin f limit kind (some candidate) c w = ground (arith, guard-le f candidate)

-- Softening a cut whose tail is within the ceiling gives one that is no later and whose tail is
-- within the ceiling too.
pub soften-IsWithin :
    (f : Frame) (branch : List BranchEntry) (c : Cut)
    → fits f c.keep_from ≡ true
    → IsWithin f c.keep_from (soften f branch c)
unfolding soften
soften-IsWithin f branch c h =
    let user_cut = try_soft_boundary f recent_user_turn (protected_user_index 0 f.msgs).1 c in
    let anchor_cut =
      try_soft_boundary f anchor (anchor_candidate f.msgs user_cut.keep_from branch) user_cut in
    let start : IsWithin f c.keep_from c = record { fitting = h; no_later = le_refl c.keep_from } in
    try-IsWithin f c.keep_from topical (topical_candidate f.msgs anchor_cut.keep_from) anchor_cut (
      try-IsWithin f c.keep_from anchor (anchor_candidate f.msgs user_cut.keep_from branch) user_cut
        (try-IsWithin f c.keep_from recent_user_turn (protected_user_index 0 f.msgs).1 c start))
