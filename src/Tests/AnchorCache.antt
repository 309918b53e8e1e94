-- ===== src/Tests/AnchorCache.antt =====
-- A request with five cache markers (`src/app/anchor-cache.ts`).
use pi_smart_compact.Base.{◌≤◌, ◌≡◌, refl, [], ◌∷◌, true, false, none, some, arith}
use pi_smart_compact.AnchorCache.{
  Block, block, nil, cons, plain, AnthropicPayload, total, total_messages, total_of, owned_weight,
  count_top, count_markers, enforce_marker_limit, evict_top, evict_nested, list_markers, refs_from,
  message_refs, evictable, of_section, foreign, but_last, only_last, unmark_in, unmark_message,
  unmark_at, drop, drop_messages, drop_nested_foreign_marker,
}
use pi_smart_compact.AnchorCache.Limit.{enforce_marker_limit-IsWithin}

abbrev foreign_block : Block
foreign_block = block (some plain) false nil

abbrev plain_block : Block
plain_block = block none false nil

-- The markers of the system prompt, the tools, an anchor, an old turn and the newest turn.
abbrev five : AnthropicPayload
five = record {
  system = cons foreign_block nil;
  tools = cons foreign_block nil;
  messages =
      cons foreign_block nil ∷ cons (block (some plain) true nil) nil ∷ cons foreign_block nil ∷ [];
}

-- The marker of the old turn goes.
evicts_old_turn : enforce_marker_limit five ≡ record five {
  messages =
      cons plain_block nil ∷ cons (block (some plain) true nil) nil ∷ cons foreign_block nil ∷ [];
}
unfolding enforce_marker_limit evict_top evict_nested list_markers refs_from message_refs evictable
    of_section foreign but_last only_last unmark_in unmark_message unmark_at count_markers count_top
    total total_messages
evicts_old_turn = refl

-- A tool result that holds two markers, before the newest turn.
abbrev nested : AnthropicPayload
nested = record {
  system = cons foreign_block nil;
  tools = cons foreign_block nil;
  messages =
      cons (block none false (cons foreign_block (cons foreign_block nil))) nil
      ∷ cons foreign_block nil
      ∷ [];
}

-- The newest turn loses its marker, and the two inside the tool result stay.
evicts_newest_turn : enforce_marker_limit nested ≡ record nested {
  messages =
      cons (block none false (cons foreign_block (cons foreign_block nil))) nil
      ∷ cons plain_block nil
      ∷ [];
}
unfolding enforce_marker_limit evict_top evict_nested list_markers refs_from message_refs evictable
    of_section foreign but_last only_last unmark_in unmark_message unmark_at count_markers count_top
    total total_messages drop drop_messages drop_nested_foreign_marker
evicts_newest_turn = refl

enforce_marker_limit-IsWithin_example :
    (count_markers (enforce_marker_limit five) ≤ 4)
    × (total_of owned_weight (enforce_marker_limit five) ≡ total_of owned_weight five)
unfolding total total_messages
enforce_marker_limit-IsWithin_example = enforce_marker_limit-IsWithin five (omega arith)
