-- ===== src/PendingSlot/Calls.antt =====
-- What every call of the slot keeps.
use pi_smart_compact.Base.{
  ℕ, ◌≤◌, String, Option, arith, String_discrete, Option-cases, inl, inr, length, le_trans,
}
use pi_smart_compact.Types.{PendingCompaction}
use pi_smart_compact.OrderedMap.Laws.{length-delete-le}
use pi_smart_compact.PendingSlot.{
  PendingSlotOptions, PendingSlot, prune, delete_entry, put, consume, clear, is_present, peek, size,
  given, create, max_entries,
}
use pi_smart_compact.PendingSlot.Prune.{prune-entries, length-retained-le}
use pi_smart_compact.PendingSlot.Invariant.{
  IsLinked, create-IsLinked, prune-IsLinked, delete_entry-entries, delete_entry-IsLinked,
}
use pi_smart_compact.PendingSlot.Put.{put-IsLinked, length-put-le}

-- The size limit beside the links.
pub record IsValid (limit : ℕ) (s : PendingSlot) : Type 0 where
  pub links : IsLinked s
  pub bounded : length s.entries ≤ limit

-- The calls of the store, each with the options and the time it reads.
pub data Call : Type 0 where
  puts : PendingCompaction → Call
  consumes : String → Call
  clears peeks asks : Option String → Call
  sizes : Call

unfoldable pub after : PendingSlotOptions → ℕ → Call → PendingSlot → PendingSlot
unfolding put consume clear peek is_present size
after opts now (puts p) s = put opts now p s
after opts now (consumes session_id) s = (consume opts now session_id s).0
after opts now (clears session_id) s = clear session_id s
after opts now (peeks session_id) s = (peek opts now session_id s).0
after opts now (asks session_id) s = (is_present opts now session_id s).0
after opts now sizes s = (size opts now s).0

prune-IsValid :
    (opts : PendingSlotOptions) (now limit : ℕ) (s : PendingSlot)
    → IsValid limit s
    → IsValid limit (prune opts now s)
prune-IsValid opts now limit s v = record {
  links = prune-IsLinked opts now s v.links;
  bounded =
      rw (prune-entries opts now s v.links.distinct)
        (le_trans (length-retained-le opts now s.entries) v.bounded);
}

delete_entry-IsValid :
    (limit : ℕ) (s : PendingSlot) (k : String) → IsValid limit s → IsValid limit (delete_entry s k)
delete_entry-IsValid limit s k v = record {
  links = delete_entry-IsLinked s k v.links;
  bounded =
      rw (delete_entry-entries s k)
        (le_trans (length-delete-le String_discrete s.entries k) v.bounded);
}

create-IsValid : (limit : ℕ) → IsValid limit create
unfolding create
create-IsValid limit = record { links = create-IsLinked; bounded = omega arith }

-- Every call keeps the slot valid: one entry for a session, stored under the session of its
-- payload, the newest session at the end, and at most `maxEntries` entries.
pub after-IsValid :
    (opts : PendingSlotOptions) (now : ℕ) (c : Call) (s : PendingSlot)
    → IsValid (max_entries opts) s
    → IsValid (max_entries opts) (after opts now c s)
unfolding after consume clear peek is_present size
after-IsValid opts now (puts p) s v = record {
  links = put-IsLinked opts now p s v.links;
  bounded = length-put-le opts now p s v.links;
}
after-IsValid opts now (consumes session_id) s v = grind (
  arith,
  prune-IsValid opts now _ s v,
  delete_entry-IsValid _ s session_id v,
  prune-IsValid opts now _ (delete_entry s session_id),
)
after-IsValid opts now (clears session_id) s v = elim (Option-cases (given session_id)) [
  | inl e ↦ rw (e, clear) (create-IsValid (max_entries opts))
  | inr (one, e) ↦ rw (e, clear) (delete_entry-IsValid (max_entries opts) s one v)
]
after-IsValid opts now (peeks session_id) s v =
    ground (arith, prune-IsValid opts now (max_entries opts) s v)
after-IsValid opts now (asks session_id) s v =
    ground (arith, prune-IsValid opts now (max_entries opts) s v)
after-IsValid opts now sizes s v = prune-IsValid opts now (max_entries opts) s v
