-- ===== src/Tests/OpenLoops.antt =====
-- Loops of two compactions (`src/utils/state.ts`).
use pi_smart_compact.Base.{
  ℕ, ◌+◌, ◌≤◌, ◌≡◌, refl, List, [], ◌∷◌, ◌++◌, map, String, true, none, some, arith, All, length,
  take, String_discrete,
}
use pi_smart_compact.Window.Soft.{contains}
use pi_smart_compact.OpenLoops.{
  OpenLoop, LoopOverride, LoopPatch, LoopStatus, LoopPriority, bugfix, critical, normal, low,
  open_loop, resolved, named, numbered, first_some, find_key, merge_by, unseen, renumber, loop_key,
  merge_open_loops, apply_loop_overrides, upsert_loop_override,
}
use pi_smart_compact.OpenLoops.Laws.{weigh, IsBefore, merge_by-find, merge_open_loops-keeps_first}

abbrev same_text : String → String
same_text text = text

abbrev loop : String → LoopStatus → LoopPriority → OpenLoop
loop summary status priority = record {
  id = named summary;
  type_of = bugfix;
  priority = priority;
  status = status;
  summary = summary;
  files = [];
}

abbrev now_open : List OpenLoop
now_open = loop "a" resolved critical ∷ loop "b" open_loop normal ∷ []

abbrev before : List OpenLoop
before = loop "b" resolved normal ∷ loop "c" open_loop critical ∷ []

program : Unit {0}
unfolding merge_open_loops merge_by apply_loop_overrides upsert_loop_override contains
    String_discrete
program = tt

-- The current `b` stands, the active loops come first, the more urgent of them before the other.
merged :
    map (λ (l : OpenLoop). l.summary) (merge_open_loops same_text now_open before)
    ≡ "c" ∷ "b" ∷ "a" ∷ []
unfolding program
merged = refl

abbrev pin : LoopPatch
pin = record { status = none; priority = some critical; pinned = some true }

abbrev overrides : List LoopOverride
overrides =
    record {
      id = numbered 1;
      summary_key = "b";
      status = some resolved;
      priority = none;
      pinned = none;
    }
    ∷ []

pins :
    map
      (λ (l : OpenLoop). l.summary)
      (apply_loop_overrides same_text now_open
        (upsert_loop_override same_text overrides (loop "b" open_loop normal) pin))
    ≡ "b" ∷ "a" ∷ []
unfolding program
pins = refl

merge_by-find_example :
    find_key (loop_key same_text) "b" (merge_by (loop_key same_text) now_open before 4)
    ≡ first_some
        (find_key (loop_key same_text) "b" now_open)
        (find_key (loop_key same_text) "b" before)
merge_by-find_example =
    merge_by-find (loop_key same_text) "b" now_open before 4 (λ e. cc) (omega arith)

-- As many resolved loops as a merge keeps, and a previous one that is still open.
abbrev history : List OpenLoop
history =
    map (λ text. loop text resolved critical)
      ("a" ∷ "b" ∷ "c" ∷ "d" ∷ "e" ∷ "f" ∷ "g" ∷ "h" ∷ "i" ∷ "j" ∷ "k" ∷ "l" ∷ "m" ∷ "n" ∷ "o" ∷ "p"
        ∷ "q" ∷ "r" ∷ "s" ∷ "t" ∷ "u" ∷ "v" ∷ "w" ∷ "x" ∷ "y" ∷ [])

abbrev still_open : List OpenLoop
still_open = loop "z" open_loop low ∷ []

-- The open loop comes first, and the last of the resolved ones is dropped.
makes_room :
    map (λ (l : OpenLoop). l.summary) (merge_open_loops same_text history still_open)
    ≡ "z" ∷ map (λ (l : OpenLoop). l.summary) (take 24 history)
unfolding program
makes_room = refl

merge_open_loops-keeps_first_example :
    (kept : List OpenLoop) × (dropped : List OpenLoop) × (merge_open_loops same_text history
        still_open
      ≡ renumber 0 kept)
    × ((f : OpenLoop → ℕ)
        → weigh f kept + weigh f dropped
          ≡ weigh f (unseen (loop_key same_text) [] (history ++ still_open)))
    × All (λ a. All (λ b. IsBefore a b) dropped) kept
    × (length kept ≤ 25)
merge_open_loops-keeps_first_example = merge_open_loops-keeps_first same_text history still_open

abbrev target : OpenLoop
target = loop "b" open_loop normal
