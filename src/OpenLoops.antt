-- ===== src/OpenLoops.antt =====
-- `src/utils/state.ts`: open loops carried from one compaction to the next. A loop's id is the
-- text that a summary gave it or the number that a merge gives it. `normalize` stands for
-- `normalizeFactKey`: what it makes of a text is the key by which loops are the same.
pub mod Laws
pub mod Overrides
use pi_smart_compact.Base.{
  ℕ, suc, ◌+◌, List, [], ◌∷◌, ◌++◌, map, String, Bool, true, false, ◌||◌, Option, none, some,
  is_some, leb, if◌then◌else◌, take, String_discrete,
}
use pi_smart_compact.Window.Soft.{contains}

pub data LoopType : Type 0 where
  bugfix follow_up blocked pending retry : LoopType

pub data LoopPriority : Type 0 where
  critical high normal low : LoopPriority

pub data LoopStatus : Type 0 where
  open_loop in_progress resolved : LoopStatus

pub data LoopId : Type 0 where
  named : String → LoopId
  numbered : ℕ → LoopId

pub record OpenLoop : Type 0 where
  pub id : LoopId
  pub type_of : LoopType
  pub priority : LoopPriority
  pub status : LoopStatus
  pub summary : String
  pub files : List String

pub record LoopOverride : Type 0 where
  pub id : LoopId
  pub summary_key : String
  pub status : Option LoopStatus
  pub priority : Option LoopPriority
  pub pinned : Option Bool

-- `patch`: a key that it has, it has with a value.
pub record LoopPatch : Type 0 where
  pub status : Option LoopStatus
  pub priority : Option LoopPriority
  pub pinned : Option Bool

abbrev pub is_text : String → String → Bool
is_text a b = elim (String_discrete a b) [ yes _ ↦ true | no _ ↦ false ]

abbrev pub first_some {ℓ} : {A : Type ℓ} → Option A → Option A → Option A
first_some none b = b
first_some (some a) b = some a

module _ {ℓ} {A : Type ℓ} (key : A → String) where
  -- The `filter` of `mergeBy`: an item stays if its key is not empty and not seen before.
  unfoldable pub unseen : List String → List A → List A
  unseen seen [] = []
  unseen seen (a ∷ items) =
      let rest = unseen (key a ∷ seen) items in
      if is_text (key a) "" || contains seen (key a) then unseen seen items else a ∷ rest

  unfoldable pub merge_by : (current previous : List A) → ℕ → List A
  unfolding unseen
  merge_by current previous limit = take limit (unseen [] (current ++ previous))

  -- `find`
  abbrev pub find_key : String → List A → Option A
  find_key k [] = none
  find_key k (a ∷ items) = if is_text (key a) k then some a else find_key k items

-- A stable sort, by a rank: what `sort` does with a comparison of ranks.
module _ {ℓ} {A : Type ℓ} (rank : A → ℕ) where
  unfoldable pub place : A → List A → List A
  place a [] = a ∷ []
  place a (b ∷ items) = if leb (rank a) (rank b) then a ∷ b ∷ items else b ∷ place a items

  unfoldable pub sort_by : List A → List A
  unfolding place
  sort_by [] = []
  sort_by (a ∷ items) = place a (sort_by items)

-- `LOOP_PRIORITY`
abbrev pub loop_priority : LoopPriority → ℕ
loop_priority critical = 0
loop_priority high = 1
loop_priority normal = 2
loop_priority low = 3

abbrev pub is_resolved : LoopStatus → Bool
is_resolved resolved = true
is_resolved _ = false

-- Resolved last, then by priority; the third key is the order, which a stable sort keeps.
abbrev pub loop_rank : OpenLoop → ℕ
loop_rank loop = (if is_resolved loop.status then 4 else 0) + loop_priority loop.priority

abbrev pub max_state_open_loops : ℕ
max_state_open_loops = 25

unfoldable pub renumber : ℕ → List OpenLoop → List OpenLoop
renumber index [] = []
renumber index (loop ∷ loops) =
    record loop { id = numbered (index + 1) } ∷ renumber (suc index) loops

module _ (normalize : String → String) where
  abbrev pub loop_key : OpenLoop → String
  loop_key loop = normalize loop.summary

  -- The first merge has no limit that counts.
  unfoldable pub merge_open_loops : (current previous : List OpenLoop) → List OpenLoop
  unfolding sort_by renumber unseen
  merge_open_loops current previous =
      renumber 0
        (take max_state_open_loops (sort_by loop_rank (unseen loop_key [] (current ++ previous))))

  -- `bySummary.get(…)`: of two overrides with one key the map holds the last.
  unfoldable pub by_summary : List LoopOverride → String → Option LoopOverride
  by_summary [] k = none
  by_summary (o ∷ overrides) k =
      first_some (by_summary overrides k) (if is_text o.summary_key k then some o else none)

  abbrev or_status : Option LoopStatus → LoopStatus → LoopStatus
  or_status none status = status
  or_status (some status) old = status

  abbrev or_priority : Option LoopPriority → LoopPriority → LoopPriority
  or_priority none priority = priority
  or_priority (some priority) old = priority

  unfoldable pub overridden : List LoopOverride → OpenLoop → OpenLoop
  unfolding by_summary
  overridden overrides loop = elim (by_summary overrides (normalize loop.summary)) [
    | none ↦ loop
    | some o ↦ record loop {
      status = or_status o.status loop.status;
      priority = or_priority o.priority loop.priority;
    }
  ]

  abbrev is_true : Option Bool → Bool
  is_true none = false
  is_true (some b) = b

  -- 0 for a pinned loop, 1 for another.
  unfoldable pub pin_rank : List LoopOverride → OpenLoop → ℕ
  unfolding by_summary
  pin_rank overrides loop = elim (by_summary overrides (normalize loop.summary)) [
    | none ↦ 1
    | some o ↦ if is_true o.pinned then 0 else 1
  ]

  unfoldable pub apply_loop_overrides : List OpenLoop → List LoopOverride → List OpenLoop
  unfolding sort_by overridden pin_rank
  apply_loop_overrides loops overrides =
      sort_by (pin_rank overrides) (map (overridden overrides) loops)

  -- The first override with the key is replaced; without one the new override goes last.
  unfoldable pub upsert_loop_override : List LoopOverride → OpenLoop → LoopPatch → List LoopOverride
  upsert_loop_override [] loop patch =
      record {
        id = loop.id;
        summary_key = normalize loop.summary;
        status = patch.status;
        priority = patch.priority;
        pinned = patch.pinned;
      }
      ∷ []
  upsert_loop_override (o ∷ overrides) loop patch =
      let rest = upsert_loop_override overrides loop patch in
      if is_text o.summary_key (normalize loop.summary)
      then record {
        id = loop.id;
        summary_key = normalize loop.summary;
        status = first_some patch.status o.status;
        priority = first_some patch.priority o.priority;
        pinned = first_some patch.pinned o.pinned;
      }
        ∷ overrides
      else o ∷ rest
