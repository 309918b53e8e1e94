-- ===== src/PendingSlot.antt =====
-- `src/app/pending-slot.ts`: prepared summaries by session, with a time to live and a size limit.
-- A call takes the time that `now()` returns and, as `current_session_id`, what
-- `resolveSessionId(ctx)` returns. An age is read against a limit only, or is over one, so the
-- truncated `now - created_at` answers as the difference does where a clock steps back.
pub mod Prune
pub mod Invariant
pub mod Put
pub mod Calls
pub mod Consume
pub mod History
pub mod Revalidate
use pi_smart_compact.Base.{
  ℕ, zero, suc, ◌-◌, List, [], ◌∷◌, String, Bool, true, false, not, ◌&&◌, ◌||◌, Option, none, some,
  is_some, ltb, leb, if◌then◌else◌, length, max, lookup, String_discrete,
}
use pi_smart_compact.Types.{PendingCompaction}
use pi_smart_compact.OrderedMap.{OrderedMap, delete, set, first_key, last_key_or}

-- The options; `still_fresh` is the probe at the caller's `ctx`.
pub record PendingSlotOptions : Type 0 where
  pub ttl_ms : ℕ
  pub max_age_ms : ℕ
  pub still_fresh : Option (PendingCompaction → Bool)
  pub max_entries_option : ℕ

pub record PendingEntry : Type 0 where
  pub value : PendingCompaction
  pub created_at : ℕ

pub record PendingSlot : Type 0 where
  pub entries : OrderedMap String PendingEntry
  pub newest_session_id : Option String

pub data ConsumeResult : Type 0 where
  ok : PendingCompaction → ConsumeResult
  empty : ConsumeResult
  expired : ℕ → ConsumeResult
  mismatch : (expected actual : String) → ConsumeResult

abbrev pub max_entries : PendingSlotOptions → ℕ
max_entries opts = max 1 opts.max_entries_option

unfoldable pub create : PendingSlot
create = record { entries = []; newest_session_id = none }

unfoldable pub refresh_newest : PendingSlot → PendingSlot
refresh_newest s = record s { newest_session_id = last_key_or none s.entries }

-- `newestSessionId === sessionId`
unfoldable pub is_newest : Option String → String → Bool
is_newest none session_id = false
is_newest (some newest) session_id = elim (String_discrete newest session_id) [
  | yes _ ↦ true
  | no _ ↦ false
]

unfoldable pub delete_entry : PendingSlot → String → PendingSlot
unfolding is_newest refresh_newest
delete_entry s session_id =
    let s' = record s { entries = delete String_discrete s.entries session_id } in
    if is_some (lookup String_discrete session_id s.entries)
    then (if is_newest s.newest_session_id session_id then refresh_newest s' else s')
    else s

-- `cap > 0 && Boolean(opts.stillFresh)`
abbrev extended : PendingSlotOptions → Bool
extended opts = ltb 0 opts.max_age_ms && is_some opts.still_fresh

-- The two `continue` lines of the loop in `prune`.
unfoldable pub is_retained : PendingSlotOptions → ℕ → PendingEntry → Bool
is_retained opts now entry =
    leb (now - entry.created_at) opts.ttl_ms
    || (extended opts && leb (now - entry.created_at) opts.max_age_ms)

-- The loop of `prune`, over the entries that the map had at its start.
unfoldable pub prune_from :
    PendingSlotOptions
    → ℕ
    → OrderedMap String PendingEntry
    → PendingSlot
    → Bool
    → PendingSlot × Bool
unfolding is_newest
prune_from opts now [] s removed_newest = (s, removed_newest)
prune_from opts now ((session_id, entry) ∷ rest) s removed_newest =
    let kept = is_retained opts now entry in
    prune_from opts now rest
      (if kept then s else record s { entries = delete String_discrete s.entries session_id })
      (if kept then removed_newest else removed_newest || is_newest s.newest_session_id session_id)

unfoldable pub prune : PendingSlotOptions → ℕ → PendingSlot → PendingSlot
unfolding prune_from refresh_newest
prune opts now s =
    let (s', removed_newest) = prune_from opts now s.entries s false in
    if removed_newest then refresh_newest s' else s'

-- The `while` loop of `set`; a round deletes one entry, so the size is fuel enough.
unfoldable pub evict : ℕ → ℕ → PendingSlot → PendingSlot
unfolding delete_entry
evict zero limit s = s
evict (suc fuel) limit s = elim (ltb limit (length s.entries)) [
  | false ↦ s
  | true ↦ elim (first_key s.entries) [
    | none ↦ s
    | some oldest ↦ evict fuel limit (delete_entry s oldest)
  ]
]

-- `entries.delete`, then `entries.set`, then the new newest session.
unfoldable pub insert : ℕ → PendingCompaction → PendingSlot → PendingSlot
insert now pending s = record {
  entries =
      set String_discrete (delete String_discrete s.entries pending.session_id) pending.session_id
        (record { value = pending; created_at = now });
  newest_session_id = some pending.session_id;
}

unfoldable pub put : PendingSlotOptions → ℕ → PendingCompaction → PendingSlot → PendingSlot
unfolding prune insert evict
put opts now pending s =
    let grown = insert now pending (prune opts now s) in
    evict (length grown.entries) (max_entries opts) grown

-- `opts.stillFresh?.(entry.value, ctx)`
abbrev probe : Option (PendingCompaction → Bool) → PendingCompaction → Bool
probe none pending = false
probe (some still_fresh) pending = still_fresh pending

unfoldable pub consume : PendingSlotOptions → ℕ → String → PendingSlot → PendingSlot × ConsumeResult
unfolding prune delete_entry
consume opts now current_session_id s = elim (lookup String_discrete current_session_id s.entries) [
  | some entry ↦
      let age_ms = now - entry.created_at in
      let removed = delete_entry s current_session_id in
      if ltb opts.ttl_ms age_ms
      then (if ltb 0 opts.max_age_ms
            && leb age_ms opts.max_age_ms
            && probe opts.still_fresh entry.value
          then (removed, ok entry.value)
          else (prune opts now removed, expired age_ms))
      else (removed, ok entry.value)
  | none ↦
      let s' = prune opts now s in
      elim s'.newest_session_id [
        | none ↦ (s', empty)
        | some newest ↦ elim (lookup String_discrete newest s'.entries) [
          | none ↦ (s', empty)
          | some other ↦ (s', mismatch other.value.session_id current_session_id)
        ]
      ]
]

-- A session id as a condition: absent and empty are false.
unfoldable pub given : Option String → Option String
given none = none
given (some session_id) = elim (String_discrete session_id "") [
  | yes _ ↦ none
  | no _ ↦ some session_id
]

unfoldable pub clear : Option String → PendingSlot → PendingSlot
unfolding given delete_entry create
clear session_id s = elim (given session_id) [ none ↦ create | some one ↦ delete_entry s one ]

unfoldable pub is_present :
    PendingSlotOptions → ℕ → Option String → PendingSlot → PendingSlot × Bool
unfolding prune given
is_present opts now session_id s =
    let s' = prune opts now s in
    elim (given session_id) [
      | none ↦ (s', ltb 0 (length s'.entries))
      | some one ↦ (s', is_some (lookup String_discrete one s'.entries))
    ]

-- `entry?.value ?? null`
abbrev value_at : OrderedMap String PendingEntry → Option String → Option PendingCompaction
value_at entries none = none
value_at entries (some session_id) = elim (lookup String_discrete session_id entries) [
  | none ↦ none
  | some entry ↦ some entry.value
]

unfoldable pub peek :
    PendingSlotOptions → ℕ → Option String → PendingSlot → PendingSlot × Option PendingCompaction
unfolding prune given
peek opts now session_id s =
    let s' = prune opts now s in
    elim (given session_id) [
      | none ↦ (s', value_at s'.entries s'.newest_session_id)
      | some one ↦ (s', value_at s'.entries (some one))
    ]

unfoldable pub size : PendingSlotOptions → ℕ → PendingSlot → PendingSlot × ℕ
unfolding prune
size opts now s = let s' = prune opts now s in (s', length s'.entries)
