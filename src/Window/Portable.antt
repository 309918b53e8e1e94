-- ===== src/Window/Portable.antt =====
-- `PORTABLE_TOOL_NAME_RE` and `advancePastNonPortableToolExchanges`: a kept exchange whose tool
-- name some providers reject is summarised whole.
use Prim.Native.Char.{code}
use pi_smart_compact.Base.{
  ℕ, suc, max, List, [], ◌∷◌, String, Bool, true, false, ◌&&◌, ◌||◌, not, Option, none, some, ltb,
  leb, ◌==◌, if◌then◌else◌, length, drop, lookup, ℕ_discrete,
}
use pi_smart_compact.OrderedMap.{OrderedMap, set}
use pi_smart_compact.Messages.{Block, tool_call, other_block, SessionMessage}
use pi_smart_compact.ToolBoundary.{ToolCallBoundaryIndex, index_of, is_assistant, is_tool_result}

abbrev codes : String → List ℕ
codes String.[] = []
codes (String.◌∷◌ c s) = code c ∷ codes s

-- `[A-Za-z0-9_-]`
is_portable_char : ℕ → Bool
is_portable_char c =
    (leb b'A' c && leb c b'Z')
    || (leb b'a' c && leb c b'z')
    || (leb b'0' c && leb c b'9')
    || c == b'_'
    || c == b'-'

all_portable : List ℕ → Bool
unfolding is_portable_char
all_portable [] = true
all_portable (c ∷ cs) = is_portable_char c && all_portable cs

unfoldable pub is_portable : String → Bool
unfolding all_portable
is_portable name = let cs = codes name in leb 1 (length cs) && leb (length cs) 64 && all_portable cs

-- A name that is no string, or does not match.
abbrev pub bad_name : Option String → Bool
bad_name none = true
bad_name (some name) = not (is_portable name)

-- `message.content.some(…)` of an assistant message.
unfoldable pub any_bad_call : List Block → Bool
unfolding is_portable
any_bad_call [] = false
any_bad_call (other_block ∷ blocks) = any_bad_call blocks
any_bad_call (tool_call id name tool_uses ∷ blocks) = bad_name name || any_bad_call blocks

-- `typeof message.toolName === "string" && !…test(message.toolName)`
abbrev pub bad_result : Option String → Bool
bad_result none = false
bad_result (some name) = not (is_portable name)

abbrev pub end_or_0 : Option ℕ → ℕ
end_or_0 none = 0
end_or_0 (some end) = end

-- The first loop, from message `i` on: the end of each kept exchange, by the index of its call.
unfoldable pub exchange_ends :
    ToolCallBoundaryIndex → ℕ → ℕ → List SessionMessage → OrderedMap ℕ ℕ → OrderedMap ℕ ℕ
exchange_ends index keep_from i [] ends = ends
exchange_ends index keep_from i (m ∷ msgs) ends = exchange_ends index keep_from (suc i) msgs (
    if is_tool_result m.role
    then elim (index_of index m.tool_call_id) [
      | none ↦ ends
      | some call ↦
          if ltb call keep_from
          then ends
          else set ℕ_discrete ends call (max (end_or_0 (lookup ℕ_discrete call ends)) (suc i))
    ]
    else ends)

-- One round of the second loop.
unfoldable pub past_bad : OrderedMap ℕ ℕ → ℕ → SessionMessage → ℕ → ℕ
unfolding any_bad_call is_portable
past_bad ends i m adjusted =
    if is_assistant m.role
    then (if any_bad_call m.content
        then max adjusted (elim (lookup ℕ_discrete i ends) [ none ↦ suc i | some end ↦ end ])
        else adjusted)
    else (if is_tool_result m.role && bad_result m.tool_name
        then max adjusted (suc i)
        else adjusted)

unfoldable pub past_all_bad : OrderedMap ℕ ℕ → ℕ → List SessionMessage → ℕ → ℕ
unfolding past_bad
past_all_bad ends i [] adjusted = adjusted
past_all_bad ends i (m ∷ msgs) adjusted =
    past_all_bad ends (suc i) msgs (past_bad ends i m adjusted)

unfoldable pub advance_past_non_portable : List SessionMessage → ℕ → ToolCallBoundaryIndex → ℕ
unfolding past_all_bad exchange_ends
advance_past_non_portable msgs keep_from index =
    if leb (length msgs) keep_from
    then keep_from
    else past_all_bad (exchange_ends index keep_from keep_from (drop keep_from msgs) []) keep_from
        (drop keep_from msgs) keep_from
