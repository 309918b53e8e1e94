-- ===== src/CommitStore.antt =====
-- `src/app/compaction-commit-store.ts`: summaries that wait between `session_before_compact` and
-- `session_compact`. The calls of `onDiscard` are kept as a list, the first one first; the
-- callback is assumed to return and to leave the store alone. A call reads the clock once.
pub mod Conserve
pub mod Take
pub mod Limit
use pi_smart_compact.Base.{
  ℕ, zero, suc, ◌-◌, max, List, [], ◌∷◌, ◌++◌, String, Bool, true, false, not, ◌||◌, Option, none,
  some, is_some, leb, ltb, if◌then◌else◌, length, lookup, String_discrete,
}
use pi_smart_compact.Types.{PendingCompaction}
use pi_smart_compact.OrderedMap.{OrderedMap, delete, set, first_key}

pub data CommitDiscardReason : Type 0 where
  expired evicted aborted shutdown apply_error foreign session_mismatch : CommitDiscardReason

pub record Entry : Type 0 where
  pub pending : PendingCompaction
  pub created_at : ℕ

pub record Store : Type 0 where
  pub entries : OrderedMap String Entry
  pub discarded : List (PendingCompaction × CommitDiscardReason)

-- `ttlMs` and `maxEntries` as the caller gives them.
pub record StoreOptions : Type 0 where
  pub ttl_option : ℕ
  pub max_entries_option : ℕ

abbrev pub ttl_ms : StoreOptions → ℕ
ttl_ms opts = max 1 opts.ttl_option

abbrev pub max_entries : StoreOptions → ℕ
max_entries opts = max 1 opts.max_entries_option

-- `remove`, which every caller asks to notify.
unfoldable pub remove : String → CommitDiscardReason → Store → Store × Option PendingCompaction
remove run_id reason s = elim (lookup String_discrete run_id s.entries) [
  | none ↦ (s, none)
  | some entry ↦ (
    record {
      entries = delete String_discrete s.entries run_id;
      discarded = s.discarded ++ (entry.pending, reason) ∷ [];
    },
    some entry.pending,
  )
]

unfoldable pub is_expired : StoreOptions → ℕ → Entry → Bool
is_expired opts now entry = ltb (ttl_ms opts) (now - entry.created_at)

-- The loop of `sweep`, over the entries that the map had at its start.
unfoldable pub sweep_from : StoreOptions → ℕ → OrderedMap String Entry → Store → Store
unfolding remove is_expired
sweep_from opts now [] s = s
sweep_from opts now ((run_id, entry) ∷ rest) s =
    sweep_from opts now rest (if is_expired opts now entry then (remove run_id expired s).0 else s)

unfoldable pub sweep : StoreOptions → ℕ → Store → Store
unfolding sweep_from
sweep opts now s = sweep_from opts now s.entries s

-- The `while` loop of `stage`; a round removes one entry, so the size is fuel enough.
unfoldable pub evict : ℕ → ℕ → Store → Store
unfolding remove
evict zero limit s = s
evict (suc fuel) limit s = elim (leb limit (length s.entries)) [
  | false ↦ s
  | true ↦ elim (first_key s.entries) [
    | none ↦ s
    | some oldest ↦ elim (String_discrete oldest "") [
      | yes _ ↦ s
      | no _ ↦ evict fuel limit (remove oldest evicted s).0
    ]
  ]
]

-- What `stage` does: it returns, or throws one of its two errors.
pub data StageResult : Type 0 where
  staged run_id_mismatch duplicate : StageResult

-- `!pending.runId || pending.details.runId !== pending.runId`
unfoldable pub is_mismatched : PendingCompaction → Bool
is_mismatched pending = elim (String_discrete pending.run_id "") [
  | yes _ ↦ true
  | no _ ↦ elim pending.details.run_id [
    | none ↦ true
    | some run_id ↦ elim (String_discrete run_id pending.run_id) [ yes _ ↦ false | no _ ↦ true ]
  ]
]

unfoldable pub stage : StoreOptions → ℕ → PendingCompaction → Store → Store × StageResult
unfolding sweep evict is_mismatched
stage opts now pending s =
    let s' = sweep opts now s in
    if is_mismatched pending
    then (s', run_id_mismatch)
    else elim (lookup String_discrete pending.run_id s'.entries) [
      | some _ ↦ (s', duplicate)
      | none ↦
          let roomy = evict (length s'.entries) (max_entries opts) s' in
          (
            record roomy {
              entries =
                  set String_discrete roomy.entries pending.run_id
                    (record { pending = pending; created_at = now });
            },
            staged,
          )
    ]

unfoldable pub take :
    StoreOptions → ℕ → (run_id session_id : String) → Store → Store × Option PendingCompaction
unfolding sweep remove
take opts now run_id session_id s =
    let s' = sweep opts now s in
    elim (lookup String_discrete run_id s'.entries) [
      | none ↦ (s', none)
      | some entry ↦ elim (String_discrete entry.pending.session_id session_id) [
        | no _ ↦ ((remove run_id session_mismatch s').0, none)
        | yes _ ↦
            (record s' { entries = delete String_discrete s'.entries run_id }, some entry.pending)
      ]
    ]

unfoldable pub discard :
    StoreOptions → ℕ → String → CommitDiscardReason → Store → Store × Option PendingCompaction
unfolding sweep remove
discard opts now run_id reason s = remove run_id reason (sweep opts now s)

abbrev push_some : List PendingCompaction → Option PendingCompaction → List PendingCompaction
push_some removed none = removed
push_some removed (some pending) = removed ++ pending ∷ []

-- The loop of `clearSession`, over the entries that the map had at its start.
unfoldable pub clear_from :
    String
    → CommitDiscardReason
    → OrderedMap String Entry
    → Store
    → List PendingCompaction
    → Store × List PendingCompaction
unfolding remove
clear_from session_id reason [] s removed = (s, removed)
clear_from session_id reason ((run_id, entry) ∷ rest) s removed =
    elim (String_discrete entry.pending.session_id session_id) [
      | no _ ↦ clear_from session_id reason rest s removed
      | yes _ ↦
          let (s', pending) = remove run_id reason s in
          clear_from session_id reason rest s' (push_some removed pending)
    ]

unfoldable pub clear_session :
    StoreOptions → ℕ → String → CommitDiscardReason → Store → Store × List PendingCompaction
unfolding sweep clear_from
clear_session opts now session_id reason s =
    let s' = sweep opts now s in clear_from session_id reason s'.entries s' []

unfoldable pub size : StoreOptions → ℕ → Store → Store × ℕ
unfolding sweep
size opts now s = let s' = sweep opts now s in (s', length s'.entries)
