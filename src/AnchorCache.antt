-- ===== src/AnchorCache.antt =====
-- `src/app/anchor-cache.ts`: the limit on cache markers in a request. A block has a marker or
-- not, is owned (in the `WeakSet`) or not, and may hold blocks; content that is a text holds none.
pub mod Totals
pub mod Limit
use pi_smart_compact.Base.{
  ℕ, zero, suc, ◌+◌, ◌-◌, List, [], ◌∷◌, ◌++◌, Bool, true, false, not, ◌&&◌, Option, none, some,
  is_some, if◌then◌else◌, ltb, length,
}

pub data CacheControl : Type 0 where
  plain five_minutes one_hour : CacheControl

mutual
  pub data Block : Type 0 where
    block : (marker : Option CacheControl) → (owned : Bool) → Blocks → Block

  pub data Blocks : Type 0 where
    nil : Blocks
    cons : Block → Blocks → Blocks

pub record AnthropicPayload : Type 0 where
  pub system : Blocks
  pub tools : Blocks
  pub messages : List Blocks

pub data Section : Type 0 where
  system tools messages : Section

pub record MarkerRef : Type 0 where
  pub section : Section
  pub idx : ℕ
  pub block_idx : ℕ
  pub owned : Bool

abbrev pub marker_limit : ℕ
marker_limit = 4

abbrev pub is_marked : Block → Bool
is_marked (block marker owned content) = is_some marker

abbrev pub is_owned : Block → Bool
is_owned (block marker owned content) = owned

-- The markers of a list of blocks, from the index `k` on.
unfoldable pub refs_from : (ℕ → Bool → MarkerRef) → ℕ → Blocks → List MarkerRef
refs_from at k nil = []
refs_from at k (cons b blocks) =
    let rest = refs_from at (suc k) blocks in if is_marked b then at k (is_owned b) ∷ rest else rest

abbrev pub in_section : Section → ℕ → Bool → MarkerRef
in_section s k owned = record { section = s; idx = k; block_idx = 0; owned = owned }

abbrev pub in_message : ℕ → ℕ → Bool → MarkerRef
in_message i k owned = record { section = messages; idx = i; block_idx = k; owned = owned }

unfoldable pub message_refs : ℕ → List Blocks → List MarkerRef
unfolding refs_from
message_refs i [] = []
message_refs i (content ∷ rest) = refs_from (in_message i) 0 content ++ message_refs (suc i) rest

unfoldable pub list_markers : AnthropicPayload → List MarkerRef
unfolding refs_from message_refs
list_markers p =
    refs_from (in_section system) 0 p.system
    ++ (refs_from (in_section tools) 0 p.tools ++ message_refs 0 p.messages)

abbrev pub is_in : Section → MarkerRef → Bool
is_in system r = elim r.section [ system ↦ true | _ ↦ false ]
is_in tools r = elim r.section [ tools ↦ true | _ ↦ false ]
is_in messages r = elim r.section [ messages ↦ true | _ ↦ false ]

-- The markers of a section.
unfoldable pub of_section : Section → List MarkerRef → List MarkerRef
of_section s [] = []
of_section s (r ∷ refs) = let rest = of_section s refs in if is_in s r then r ∷ rest else rest

unfoldable pub foreign : List MarkerRef → List MarkerRef
foreign [] = []
foreign (r ∷ refs) = let rest = foreign refs in if r.owned then rest else r ∷ rest

-- `slice(0, -1)` and `slice(-1)`
unfoldable pub but_last : List MarkerRef → List MarkerRef
but_last [] = []
but_last (r ∷ []) = []
but_last (r ∷ q ∷ refs) = r ∷ but_last (q ∷ refs)

unfoldable pub only_last : List MarkerRef → List MarkerRef
only_last [] = []
only_last (r ∷ []) = r ∷ []
only_last (r ∷ q ∷ refs) = only_last (q ∷ refs)

unfoldable pub evictable : List MarkerRef → List MarkerRef
unfolding of_section foreign but_last only_last
evictable markers =
    foreign (but_last (of_section messages markers))
    ++ (foreign (but_last (of_section system markers))
        ++ (foreign (of_section tools markers) ++ foreign (only_last (of_section system markers))))

abbrev unmarked : Block → Block
unmarked (block marker owned content) = block none owned content

unfoldable pub unmark_at : ℕ → Blocks → Blocks
unmark_at k nil = nil
unmark_at zero (cons b blocks) = cons (unmarked b) blocks
unmark_at (suc k) (cons b blocks) = cons b (unmark_at k blocks)

unfoldable pub unmark_message : (i k : ℕ) → List Blocks → List Blocks
unfolding unmark_at
unmark_message i k [] = []
unmark_message zero k (content ∷ rest) = unmark_at k content ∷ rest
unmark_message (suc i) k (content ∷ rest) = content ∷ unmark_message i k rest

unfoldable pub unmark_in : Section → AnthropicPayload → (i k : ℕ) → AnthropicPayload
unfolding unmark_message
unmark_in system p i k = record p { system = unmark_at i p.system }
unmark_in tools p i k = record p { tools = unmark_at i p.tools }
unmark_in messages p i k = record p { messages = unmark_message i k p.messages }

-- `delete blockAt(payload, ref)!.cache_control`
abbrev pub unmark : AnthropicPayload → MarkerRef → AnthropicPayload
unmark p r = unmark_in r.section p r.idx r.block_idx

abbrev pub first_of : List MarkerRef → Option MarkerRef
first_of [] = none
first_of (r ∷ refs) = some r

abbrev pub evict_target :
    (AnthropicPayload → AnthropicPayload) → AnthropicPayload → Option MarkerRef → AnthropicPayload
evict_target next p none = p
evict_target next p (some r) = next (unmark p r)

-- The first loop of `enforceMarkerLimit`.
unfoldable pub evict_top : (fuel : ℕ) → AnthropicPayload → AnthropicPayload
unfolding list_markers evictable unmark_in
evict_top zero p = p
evict_top (suc fuel) p =
    if ltb marker_limit (length (list_markers p))
    then evict_target (λ q. evict_top fuel q) p (first_of (evictable (list_markers p)))
    else p

abbrev pub one_if : Bool → ℕ
one_if true = 1
one_if false = 0

-- The markers of blocks and of those that they hold, by a weight of their ownership.
unfoldable pub total : (Bool → Bool → ℕ) → Blocks → ℕ
total w nil = 0
total w (cons (block marker owned content) blocks) =
    w (is_some marker) owned + (total w content + total w blocks)

unfoldable pub total_messages : (Bool → Bool → ℕ) → List Blocks → ℕ
unfolding total
total_messages w [] = 0
total_messages w (content ∷ rest) = total w content + total_messages w rest

abbrev pub any_weight : Bool → Bool → ℕ
any_weight marked owned = one_if marked

abbrev pub foreign_weight : Bool → Bool → ℕ
foreign_weight marked owned = one_if (marked && not owned)

abbrev pub owned_weight : Bool → Bool → ℕ
owned_weight marked owned = one_if (marked && owned)

-- The markers of the blocks themselves.
unfoldable pub count_top : Blocks → ℕ
count_top nil = 0
count_top (cons b blocks) = one_if (is_marked b) + count_top blocks

unfoldable pub count_markers : AnthropicPayload → ℕ
unfolding count_top total_messages
count_markers p = count_top p.system + (count_top p.tools + total_messages any_weight p.messages)

-- `drop` of `dropNestedForeignMarker`: the first marker that is not owned, in render order.
abbrev pub drop_next :
    Option CacheControl
    → (owned : Bool) → Blocks
    → Blocks
    → Option Blocks
    → Option Blocks
    → Option Blocks
drop_next marker owned content blocks (some content') o =
    some (cons (block marker owned content') blocks)
drop_next marker owned content blocks none (some blocks') =
    some (cons (block marker owned content) blocks')
drop_next marker owned content blocks none none = none

unfoldable pub drop : Blocks → Option Blocks
drop nil = none
drop (cons (block marker owned content) blocks) =
    let in_content = drop content in
    let in_rest = drop blocks in
    if is_some marker && not owned
    then some (cons (block none owned content) blocks)
    else drop_next marker owned content blocks in_content in_rest

-- From the last message to the first.
abbrev pub drop_newest :
    Blocks → List Blocks → Option (List Blocks) → Option Blocks → Option (List Blocks)
drop_newest content rest (some rest') o = some (content ∷ rest')
drop_newest content rest none (some content') = some (content' ∷ rest)
drop_newest content rest none none = none

unfoldable pub drop_messages : List Blocks → Option (List Blocks)
unfolding drop
drop_messages [] = none
drop_messages (content ∷ rest) = drop_newest content rest (drop_messages rest) (drop content)

abbrev pub drop_outer :
    AnthropicPayload
    → Option (List Blocks)
    → Option Blocks
    → Option Blocks
    → Option AnthropicPayload
drop_outer p (some in_messages) o q = some (record p { messages = in_messages })
drop_outer p none (some in_tools) q = some (record p { tools = in_tools })
drop_outer p none none (some in_system) = some (record p { system = in_system })
drop_outer p none none none = none

unfoldable pub drop_nested_foreign_marker : AnthropicPayload → Option AnthropicPayload
unfolding drop_messages
drop_nested_foreign_marker p =
    drop_outer p (drop_messages p.messages) (drop p.tools) (drop p.system)

abbrev pub go_on :
    (AnthropicPayload → AnthropicPayload)
    → AnthropicPayload
    → Option AnthropicPayload
    → AnthropicPayload
go_on next p none = p
go_on next p (some q) = next q

-- The second loop.
unfoldable pub evict_nested : (fuel : ℕ) → AnthropicPayload → AnthropicPayload
unfolding count_markers drop_nested_foreign_marker
evict_nested zero p = p
evict_nested (suc fuel) p =
    if ltb marker_limit (count_markers p)
    then go_on (λ q. evict_nested fuel q) p (drop_nested_foreign_marker p)
    else p

abbrev pub total_of : (Bool → Bool → ℕ) → AnthropicPayload → ℕ
total_of w p = total w p.system + (total w p.tools + total_messages w p.messages)

-- The fuel is the number of markers that the loop may evict.
unfoldable pub enforce_marker_limit : AnthropicPayload → AnthropicPayload
unfolding evict_top evict_nested list_markers total_messages
enforce_marker_limit p =
    let q = evict_top (length (list_markers p)) p in evict_nested (total_of foreign_weight q) q
