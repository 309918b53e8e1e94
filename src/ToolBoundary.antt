-- ===== src/ToolBoundary.antt =====
-- `src/utils/helpers.ts`: where a compaction may cut, so that a tool result is never kept without
-- the call that it answers. An index into the messages is a natural number.
pub mod Safe
pub mod Guard
pub mod Advance
pub mod Index
use pi_smart_compact.Base.{
  ℕ, zero, suc, ◌+◌, min, List, [], ◌∷◌, String, Bool, true, false, ◌&&◌, ◌||◌, not, Option, none,
  some, ltb, leb, ◌==◌, if◌then◌else◌, length, drop, lookup, String_discrete,
}
use pi_smart_compact.OrderedMap.{OrderedMap, set}
use pi_smart_compact.Messages.{
  Role, user, assistant, tool_result, other_role, Block, tool_call, other_block, SessionMessage,
}

abbrev pub ToolCallBoundaryIndex : Type 0
ToolCallBoundaryIndex = OrderedMap String ℕ

-- `if (typeof id === "string") out.set(id, msgIndex)`
abbrev pub set_id : Option String → ℕ → ToolCallBoundaryIndex → ToolCallBoundaryIndex
set_id none i out = out
set_id (some id) i out = set String_discrete out id i

pub set_ids : List (Option String) → ℕ → ToolCallBoundaryIndex → ToolCallBoundaryIndex
set_ids [] i out = out
set_ids (id ∷ ids) i out = set_ids ids i (set_id id i out)

-- `block.name === "multi_tool_use.parallel"`
unfoldable pub is_parallel : Option String → Bool
is_parallel none = false
is_parallel (some name) = elim (String_discrete name "multi_tool_use.parallel") [
  | yes _ ↦ true
  | no _ ↦ false
]

pub collect_tool_call_ids : List Block → ℕ → ToolCallBoundaryIndex → ToolCallBoundaryIndex
unfolding set_ids is_parallel
collect_tool_call_ids [] i out = out
collect_tool_call_ids (other_block ∷ blocks) i out = collect_tool_call_ids blocks i out
collect_tool_call_ids (tool_call id name tool_uses ∷ blocks) i out =
    collect_tool_call_ids blocks i
      (if is_parallel name then set_ids tool_uses i (set_id id i out) else set_id id i out)

-- `message.role !== "assistant"`
abbrev pub is_assistant : Role → Bool
is_assistant assistant = true
is_assistant _ = false

abbrev pub is_tool_result : Role → Bool
is_tool_result tool_result = true
is_tool_result _ = false

-- The loop of `buildToolCallBoundaryIndex`, from message `i` on.
pub index_from : ℕ → List SessionMessage → ToolCallBoundaryIndex → ToolCallBoundaryIndex
unfolding collect_tool_call_ids
index_from i [] out = out
index_from i (m ∷ msgs) out =
    index_from (suc i) msgs
      (if is_assistant m.role then collect_tool_call_ids m.content i out else out)

unfoldable pub build_tool_call_boundary_index : List SessionMessage → ToolCallBoundaryIndex
unfolding index_from
build_tool_call_boundary_index msgs = index_from 0 msgs []

-- `tcMap.get(id)`, where an absent id finds nothing.
abbrev pub index_of : ToolCallBoundaryIndex → Option String → Option ℕ
index_of index none = none
index_of index (some id) = lookup String_discrete id index

-- `typeof message.toolCallId === "string" ? … : undefined`, then `if (!tcId) continue`.
unfoldable pub nonempty : Option String → Option String
nonempty none = none
nonempty (some id) = elim (String_discrete id "") [ yes _ ↦ none | no _ ↦ some id ]

-- The call that a kept tool result answers, as `guardToolCallBoundary` looks it up.
unfoldable pub guard_call : ToolCallBoundaryIndex → SessionMessage → Option ℕ
unfolding nonempty
guard_call index m =
    if is_tool_result m.role then index_of index (nonempty m.tool_call_id) else none

-- The inner loop of `guardToolCallBoundary`: the first call before the boundary.
unfoldable pub first_split : ToolCallBoundaryIndex → ℕ → List SessionMessage → Option ℕ
unfolding guard_call
first_split index adjusted [] = none
first_split index adjusted (m ∷ msgs) = elim (guard_call index m) [
  | none ↦ first_split index adjusted msgs
  | some call ↦ if ltb call adjusted then some call else first_split index adjusted msgs
]

-- The outer loop; out of rounds it reports an internal error and keeps what it has.
unfoldable pub guard_walk : ℕ → ToolCallBoundaryIndex → List SessionMessage → ℕ → ℕ
unfolding first_split
guard_walk zero index msgs adjusted = adjusted
guard_walk (suc rounds) index msgs adjusted =
    elim (first_split index adjusted (drop adjusted msgs)) [
      | none ↦ adjusted
      | some call ↦ guard_walk rounds index msgs call
    ]

unfoldable pub guard_tool_call_boundary : List SessionMessage → ℕ → ToolCallBoundaryIndex → ℕ
unfolding guard_walk
guard_tool_call_boundary msgs keep_from index =
    if leb keep_from 0 || leb (length msgs) keep_from
    then keep_from
    else min (guard_walk (length msgs + 1) index msgs keep_from) (length msgs)

-- The test of `advancePastToolCallBoundary` on the message at `i`: an answer to no known call at
-- the boundary itself, or to a call before it.
unfoldable pub is_blocked : ToolCallBoundaryIndex → ℕ → ℕ → SessionMessage → Bool
is_blocked index adjusted i m =
    is_tool_result m.role
    && elim (index_of index m.tool_call_id) [ none ↦ i == adjusted | some call ↦ ltb call adjusted ]

-- The inner loop from message `i` on: one past the first blocked message.
unfoldable pub first_blocked : ToolCallBoundaryIndex → ℕ → ℕ → List SessionMessage → Option ℕ
unfolding is_blocked
first_blocked index adjusted i [] = none
first_blocked index adjusted i (m ∷ msgs) =
    if is_blocked index adjusted i m
    then some (suc i)
    else first_blocked index adjusted (suc i) msgs

unfoldable pub advance_walk : ℕ → ToolCallBoundaryIndex → List SessionMessage → ℕ → ℕ
unfolding first_blocked
advance_walk zero index msgs adjusted = length msgs
advance_walk (suc rounds) index msgs adjusted =
    elim (first_blocked index adjusted adjusted (drop adjusted msgs)) [
      | none ↦ adjusted
      | some next ↦
          let rest = advance_walk rounds index msgs next in
          if leb (length msgs) next then length msgs else rest
    ]

unfoldable pub advance_past_tool_call_boundary : List SessionMessage → ℕ → ToolCallBoundaryIndex → ℕ
unfolding advance_walk
advance_past_tool_call_boundary msgs keep_from index =
    if leb keep_from 0 || leb (length msgs) keep_from
    then keep_from
    else advance_walk (length msgs + 1) index msgs keep_from
