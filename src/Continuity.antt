-- ===== src/Continuity.antt =====
-- `src/types.ts` and `src/utils/state.ts`: the facts that one compaction hands to the next. A
-- fact's id is the text that it came with or the number that a merge gave it. A confidence is in
-- hundredths. The fields of `CompactionState` that a merge takes unread from the current state
-- (the scope, the session's type, the version, the prior goal) are left out.
pub mod Facts
pub mod Merge
pub mod Delta
pub mod Laws
pub mod Files
pub mod Answers
pub mod Changes
use pi_smart_compact.Base.{
  ℕ, zero, suc, List, [], ◌∷◌, String, Bool, true, false, ◌&&◌, Option, ◌==◌,
}
use Prim.Native.Char.{code}
use pi_smart_compact.OpenLoops.{LoopId, OpenLoop, LoopOverride}

pub data FactKind : Type 0 where
  decision constraint error loop : FactKind

pub data OverrideStatus : Type 0 where
  active resolved superseded : OverrideStatus

pub record ContinuityOverride : Type 0 where
  pub id : LoopId
  pub kind : FactKind
  pub summary_key : String
  pub status : OverrideStatus
  pub replacement : Option String
  pub updated_at : ℕ

pub data DecisionType : Type 0 where
  explicit implicit : DecisionType

pub record Decision : Type 0 where
  pub id : LoopId
  pub summary : String
  pub user_response : Option String
  pub type_of : DecisionType

pub data ConstraintCategory : Type 0 where
  requirement preference prohibition : ConstraintCategory

pub record Constraint : Type 0 where
  pub id : LoopId
  pub text : String
  pub category : ConstraintCategory
  pub confidence : ℕ
  pub is_human : Bool

pub record ErrorFact : Type 0 where
  pub id : LoopId
  pub message : String
  pub tool : String
  pub files : List String

pub record Topic : Type 0 where
  pub title : String
  pub type_of : String
  pub priority : String

-- A list that the source may leave out is empty here.
pub record CompactionState : Type 0 where
  pub goal : Option String
  pub goal_key : Option String
  pub decisions : List Decision
  pub constraints : List Constraint
  pub modified_files : List String
  pub read_files : List String
  pub deleted_files : List String
  pub unresolved_errors : List ErrorFact
  pub resolved_errors : List ErrorFact
  pub open_loops : List OpenLoop
  pub loop_overrides : List LoopOverride
  pub fact_overrides : List ContinuityOverride
  pub topics : List Topic
  pub next_actions : List String
  pub critical_context : List String
  pub updated_at : ℕ

-- The tests on texts that the merge calls, all of them functions of one text: `normalizeFactKey`,
-- `isCompactionStatusText`, `isNonLiveConstraintText`, the `isNoise` of an item, and whether
-- `trim()` leaves nothing.
pub record TextTests : Type 0 where
  pub normalize : String → String
  pub is_status : String → Bool
  pub is_non_live : String → Bool
  pub is_noise : String → Bool
  pub is_blank : String → Bool

-- Texts: `a + b`, `a.startsWith(b)` and the length, by characters.
unfoldable pub join : String → String → String
join String.[] b = b
join (String.◌∷◌ c a) b = String.◌∷◌ c (join a b)

unfoldable pub starts_with : (text prefix : String) → Bool
starts_with text String.[] = true
starts_with String.[] (String.◌∷◌ d prefix) = false
starts_with (String.◌∷◌ c text) (String.◌∷◌ d prefix) = code c == code d && starts_with text prefix

unfoldable pub length_of : String → ℕ
length_of String.[] = 0
length_of (String.◌∷◌ c text) = suc (length_of text)
