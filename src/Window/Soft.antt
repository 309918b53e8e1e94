-- ===== src/Window/Soft.antt =====
-- The soft boundaries: a recent human turn, the last anchor, the topic at the cut.
use pi_smart_compact.Base.{
  ℕ, suc, ◌-◌, ◌*◌, List, [], ◌∷◌, ◌++◌, String, Bool, true, false, ◌&&◌, ◌||◌, not, Option, none,
  some, is_some, ltb, leb, ◌==◌, if◌then◌else◌, length, get_elem?, String_discrete,
}
use pi_smart_compact.Messages.{Role, user, SessionMessage, BranchEntry}
use pi_smart_compact.ToolBoundary.{
  ToolCallBoundaryIndex, guard_tool_call_boundary, is_tool_result, nonempty,
}
use pi_smart_compact.Window.Budget.{Scale, retained_at}

pub data RelaxedSoftBoundary : Type 0 where
  recent_user_turn anchor topical : RelaxedSoftBoundary

abbrev is_user : Role → Bool
is_user user = true
is_user _ = false

-- A turn that a human typed: no custom message, no injected one.
unfoldable pub is_human_turn : SessionMessage → Bool
is_human_turn m = is_user m.role && not (is_some (nonempty m.custom_type)) && not m.is_injected

-- The loop over the messages from the last; here over the list, and the second human turn from
-- the end wins over the last one. The count is of the human turns after message `i`.
unfoldable pub protected_user_index : ℕ → List SessionMessage → ℕ × Option ℕ
unfolding is_human_turn
protected_user_index i [] = (0, none)
protected_user_index i (m ∷ msgs) =
    let (later, found) = protected_user_index (suc i) msgs in
    if is_human_turn m && ltb later 2 then (suc later, some i) else (later, found)

-- `toolName === "context"`
abbrev is_context : Option String → Bool
is_context none = false
is_context (some name) = elim (String_discrete name "context") [ yes _ ↦ true | no _ ↦ false ]

abbrev is_anchor : BranchEntry → Bool
is_anchor e = e.is_message && is_tool_result e.role && is_context e.tool_name && e.details_anchor

-- `findLastAnchorIndex`: the last anchor of the branch, by its entry.
unfoldable pub last_anchor : List BranchEntry → Option BranchEntry
last_anchor [] = none
last_anchor (e ∷ branch) = elim (last_anchor branch) [
  | some later ↦ some later
  | none ↦ if is_anchor e then some e else none
]

-- `entry.id === id`, where both may be undefined.
abbrev same_id : Option String → Option String → Bool
same_id none none = true
same_id none (some b) = false
same_id (some a) none = false
same_id (some a) (some b) = elim (String_discrete a b) [ yes _ ↦ true | no _ ↦ false ]

-- `Math.max(0, msgs.findIndex(…))`: an entry that is not among the messages has index 0.
unfoldable pub index_or_0 : Option String → ℕ → List SessionMessage → ℕ
index_or_0 id i [] = 0
index_or_0 id i (m ∷ msgs) = if same_id m.entry_id id then i else index_or_0 id (suc i) msgs

unfoldable pub anchor_candidate : List SessionMessage → ℕ → List BranchEntry → Option ℕ
unfolding last_anchor index_or_0
anchor_candidate msgs keep_from branch = elim (last_anchor branch) [
  | none ↦ none
  | some e ↦ let index = index_or_0 e.id 0 msgs in if ltb index keep_from then some index else none
]

unfoldable pub contains : List String → String → Bool
contains [] f = false
contains (g ∷ files) f =
    elim (String_discrete g f) [ yes _ ↦ true | no _ ↦ false ] || contains files f

unfoldable pub intersects : List String → List String → Bool
unfolding contains
intersects [] kept = false
intersects (f ∷ files) kept = contains kept f || intersects files kept

abbrev touched : Option SessionMessage → List String
touched none = []
touched (some m) = m.touched_files

unfoldable pub topical_candidate : List SessionMessage → ℕ → Option ℕ
unfolding intersects
topical_candidate msgs keep_from =
    if leb keep_from 0 || leb (length msgs) keep_from
    then none
    else if intersects (touched (get_elem? msgs (keep_from - 1)))
        (touched (get_elem? msgs keep_from))
    then some (keep_from - 1)
    else none

-- What `trySoftBoundary` changes.
pub record Cut : Type 0 where
  pub keep_from : ℕ
  pub hard_boundary_adjusted : Bool
  pub relaxed_soft_boundaries : List RelaxedSoftBoundary

-- What a plan reads all along; the ceiling is `effectiveRetentionCeiling`, in hundredths.
pub record Frame : Type 0 where
  pub msgs : List SessionMessage
  pub tokens : List ℕ
  pub scale : Scale
  pub index : ToolCallBoundaryIndex
  pub ceiling : ℕ

abbrev pub fits : Frame → ℕ → Bool
fits f from = leb (retained_at f.tokens f.scale from * 100) f.ceiling

unfoldable pub move_to : Frame → RelaxedSoftBoundary → ℕ → Cut → Cut
move_to f kind candidate c =
    let guarded = guard_tool_call_boundary f.msgs candidate f.index in
    if fits f guarded
    then record c {
      keep_from = guarded;
      hard_boundary_adjusted = c.hard_boundary_adjusted || not (guarded == candidate);
    }
    else record c { relaxed_soft_boundaries = c.relaxed_soft_boundaries ++ kind ∷ [] }

unfoldable pub try_soft_boundary : Frame → RelaxedSoftBoundary → Option ℕ → Cut → Cut
unfolding move_to
try_soft_boundary f kind none c = c
try_soft_boundary f kind (some candidate) c =
    if leb c.keep_from candidate then c else move_to f kind candidate c

-- The three attempts, in order; each candidate is read off the cut that the ones before left.
unfoldable pub soften : Frame → List BranchEntry → Cut → Cut
unfolding try_soft_boundary protected_user_index anchor_candidate topical_candidate
soften f branch c =
    let c₁ = try_soft_boundary f recent_user_turn (protected_user_index 0 f.msgs).1 c in
    let c₂ = try_soft_boundary f anchor (anchor_candidate f.msgs c₁.keep_from branch) c₁ in
    try_soft_boundary f topical (topical_candidate f.msgs c₂.keep_from) c₂
