-- ===== src/PendingSlot/Consume.antt =====
-- What `consume` hands out, and to whom.
use pi_smart_compact.Base.{
  ℕ, ◌-◌, ◌≤◌, ◌<◌, ◌≡◌, ◌≢◌, ◌⊎◌, ◌↔◌, [], String, true, none, some, arith, lookup,
  String_discrete, Option-cases, inl, inr,
}
use pi_smart_compact.Types.{PendingCompaction}
use pi_smart_compact.OrderedMap.{OrderedMap, delete, last_key_or}
use pi_smart_compact.OrderedMap.Laws.{
  lookup-delete_self, lookup-last, All-lookup, nil_of_last_key_or,
}
use pi_smart_compact.PendingSlot.{
  PendingSlotOptions, PendingEntry, PendingSlot, ok, empty, mismatch, prune, delete_entry, probe,
  consume,
}
use pi_smart_compact.PendingSlot.Prune.{
  retained, prune-entries, prune-newest, lookup-retained-none, All-retained,
}
use pi_smart_compact.PendingSlot.Invariant.{
  IsKeyed, IsLinked, delete_entry-entries, delete_entry-IsLinked,
}

-- A payload that may be handed out at `now`: young enough, or certified within the ceiling.
abbrev pub IsServable : PendingSlotOptions → ℕ → PendingEntry → Type 0
IsServable opts now e =
    (now - e.created_at ≤ opts.ttl_ms)
    ⊎ ((0 < opts.max_age_ms)
        × (now - e.created_at ≤ opts.max_age_ms)
        × (probe opts.still_fresh e.value ≡ true))

-- `consume` hands out a payload exactly if it is that of a servable entry under the session.
pub consume-ok_iff :
    (opts : PendingSlotOptions) (now : ℕ) (session_id : String) (p : PendingCompaction)
    (s : PendingSlot)
    → ((consume opts now session_id s).1 ≡ ok p) ↔ (
        (e : PendingEntry) × (lookup String_discrete session_id s.entries ≡ some e)
        × (e.value ≡ p)
        × IsServable opts now e)
unfolding consume
consume-ok_iff opts now session_id p s = (
  λ h. elim (Option-cases (lookup String_discrete session_id s.entries)) [
    | inl miss ↦ absurd (ground arith)
    | inr (e, hit) ↦ (e, hit, ground arith, ground arith)
  ],
  λ h. ground arith,
)

pub consume-gone :
    (opts : PendingSlotOptions) (now : ℕ) (session_id : String) (s : PendingSlot)
    → IsLinked s
    → lookup String_discrete session_id (consume opts now session_id s).0.entries ≡ none
unfolding consume
consume-gone opts now session_id s v = ground (
  arith,
  prune-entries opts now s v.distinct,
  prune-entries opts now (delete_entry s session_id)
      (delete_entry-IsLinked s session_id v).distinct,
  delete_entry-entries s session_id,
  lookup-delete_self String_discrete s.entries session_id v.distinct,
  lookup-retained-none opts now s.entries session_id,
  lookup-retained-none opts now (delete String_discrete s.entries session_id) session_id,
)

-- After one `consume` of a session in a linked slot a second, with no `set` between, hands out
-- nothing: a prepared summary is applied at most once.
pub consume-once :
    (opts : PendingSlotOptions) (now later : ℕ) (session_id : String) (p : PendingCompaction)
    (s : PendingSlot)
    → IsLinked s
    → (consume opts later session_id (consume opts now session_id s).0).1 ≢ ok p
consume-once opts now later session_id p s v h =
    let found = (consume-ok_iff opts later session_id p (consume opts now session_id s).0).0 h in
    ground (arith, consume-gone opts now session_id s v, found)

-- In a linked slot, a session with no entry is told of the newest waiting one, which is another's,
-- or that none waits.
pub consume-absent :
    (opts : PendingSlotOptions) (now : ℕ) (session_id : String) (s : PendingSlot)
    → IsLinked s
    → lookup String_discrete session_id s.entries ≡ none
    → (((consume opts now session_id s).1 ≡ empty) × (retained opts now s.entries ≡ []))
      ⊎ ((other : String) × ((consume opts now session_id s).1 ≡ mismatch other session_id)
          × (last_key_or none (retained opts now s.entries) ≡ some other)
          × (other ≢ session_id))
unfolding consume
consume-absent opts now session_id s v h = elim (Option-cases (last_key_or none m)) [
  | inl e ↦ inl (ground (arith, same, latest), nil_of_last_key_or m e)
  | inr (other, e) ↦ elim (lookup-last String_discrete none m other e) [
    | inl x ↦ absurd (ground arith)
    | inr (entry, found) ↦
        let key : entry.value.session_id ≡ other =
          All-lookup String_discrete IsKeyed m other entry
            (All-retained opts now IsKeyed s.entries v.keyed) found in
        inr (other, ground (arith, same, latest), e, λ p. ground (arith, gone))
  ]
]
  where
    m : OrderedMap String PendingEntry
    m = retained opts now s.entries

    same : (prune opts now s).entries ≡ retained opts now s.entries
    same = prune-entries opts now s v.distinct

    latest : (prune opts now s).newest_session_id ≡ last_key_or none (prune opts now s).entries
    latest = prune-newest opts now s v.distinct v.newest

    gone : lookup String_discrete session_id (retained opts now s.entries) ≡ none
    gone = lookup-retained-none opts now s.entries session_id h
