-- ===== src/PendingSlot/Revalidate.antt =====
-- `pendingMatchesBranch`, `usageRefusesApplication` and `revalidatePending` of
-- `src/app/pending-slot.ts`: the last gate before a prepared summary is applied.
pub mod Sound
use pi_smart_compact.Base.{
  ℕ, zero, suc, ◌+◌, ◌-◌, ◌*◌, max, List, [], ◌∷◌, String, Bool, true, false, not, ◌&&◌, ◌||◌,
  Option, none, some, is_some, if◌then◌else◌, ltb, leb, ◌==◌, length, take, drop,
}
use pi_smart_compact.Types.{SmartCompactDetails, ContextSnapshot, PendingCompaction}
use pi_smart_compact.Messages.{SessionMessage}
use pi_smart_compact.OpenLoops.{is_text}
use pi_smart_compact.YieldGate.{exceeds_yield_target}
use pi_smart_compact.Window.Plan.{yield_below_min}

pub data UsageBasis : Type 0 where
  uncertain unavailable certain : UsageBasis

-- What `contextUsage(ctx, pending.usagePricing)` returns; a number that is not finite is none.
pub record Usage : Type 0 where
  pub basis : UsageBasis
  pub stale_producer : Bool
  pub tokens : Option ℕ

-- What the gate reads of `ctx`: the model, if any, `readerSignature`, `resolveSessionId`, the ids
-- of the branch, `contextMessageEntries`, the hash of `fingerprintContext`, and, where the summary
-- carries its pricing, the weights of `estimateReaderMessageTokens` under it.
pub record ReaderView : Type 0 where
  pub has_model : Bool
  pub context_window : ℕ
  pub max_tokens : ℕ
  pub reserve_tokens : ℕ
  pub usage : Option Usage
  pub signature : Option String
  pub session_id : String
  pub branch_ids : List String
  pub entries : List SessionMessage
  pub hash : List SessionMessage → String
  pub weights : Option (List SessionMessage → List ℕ)

abbrev includes_text : List String → String → Bool
includes_text [] id = false
includes_text (x ∷ ids) id = is_text x id || includes_text ids id

abbrev matches_snapshot : ReaderView → Option ContextSnapshot → Bool
matches_snapshot v none = true
matches_snapshot v (some snapshot) =
    let messages = take snapshot.message_count v.entries in
    (length messages == snapshot.message_count) && is_text (v.hash messages) snapshot.hash

unfoldable pub pending_matches_branch : PendingCompaction → ReaderView → Bool
pending_matches_branch pending v =
    includes_text v.branch_ids pending.origin_branch_head_id
    && includes_text v.branch_ids pending.first_kept_entry_id
    && matches_snapshot v pending.context_snapshot

abbrev pub usage_refuses_application : Usage → Bool
usage_refuses_application u = elim u.basis [
  | uncertain ↦ true
  | unavailable ↦ u.stale_producer
  | certain ↦ false
]

abbrev is_entry : Option String → String → Bool
is_entry none id = false
is_entry (some x) id = is_text x id

-- `findIndex(entry => entry.id === id)`
unfoldable pub find_entry : String → List SessionMessage → Option ℕ
find_entry id [] = none
find_entry id (e ∷ entries) = step (is_entry e.entry_id id) (find_entry id entries)
  where
    step : Bool → Option ℕ → Option ℕ
    step true rest = some 0
    step false none = none
    step false (some i) = some (suc i)

abbrev total : List ℕ → ℕ
total [] = 0
total (w ∷ weights) = w + total weights

abbrev pub or_baseline : Option ℕ → ℕ → ℕ
or_baseline none staged = staged
or_baseline (some baseline) staged = baseline

-- How much the context has grown since the summary was staged, and the weight of the kept tail;
-- none where the tail cannot be found.
abbrev pub tail_growth :
    PendingCompaction
    → (tokens : ℕ) → List SessionMessage
    → List SessionMessage
    → (List SessionMessage → List ℕ)
    → Option ℕ
    → Option ℕ
    → Option (ℕ × Option ℕ)
tail_growth pending tokens entries staged weigh none o = none
tail_growth pending tokens entries staged weigh (some cut) none = none
tail_growth pending tokens entries staged weigh (some cut) (some staged_cut) =
    let current = total (drop cut (weigh entries)) in
    let baseline =
      or_baseline pending.tail_baseline_tokens (total (drop staged_cut (weigh staged))) in
    some (max (current - baseline) (tokens - pending.tokens_before), some current)

abbrev pub snapshot_growth :
    PendingCompaction
    → (tokens : ℕ) → ReaderView
    → (List SessionMessage → List ℕ)
    → Option ContextSnapshot
    → Option (ℕ × Option ℕ)
snapshot_growth pending tokens v weigh none = none
snapshot_growth pending tokens v weigh (some snapshot) =
    let staged = take snapshot.message_count v.entries in
    tail_growth pending tokens v.entries staged weigh
      (find_entry pending.first_kept_entry_id v.entries)
      (find_entry pending.first_kept_entry_id staged)

abbrev pub growth_of :
    PendingCompaction
    → (tokens : ℕ) → ReaderView
    → Option (List SessionMessage → List ℕ)
    → Option (ℕ × Option ℕ)
growth_of pending tokens v none = some (tokens - pending.tokens_before, none)
growth_of pending tokens v (some weigh) =
    snapshot_growth pending tokens v weigh pending.context_snapshot

abbrev or_zero : Option ℕ → ℕ
or_zero none = 0
or_zero (some n) = n

abbrev pub or_tail : Option ℕ → Option ℕ → Option ℕ
or_tail none before = before
or_tail (some current) before = some current

abbrev pub reserve : ReaderView → ℕ
reserve v = max (max 8192 v.max_tokens) v.reserve_tokens

abbrev misses_target : (after : ℕ) → Option ℕ → Bool
misses_target after none = false
misses_target after (some target) = exceeds_yield_target after (target * 100)

-- The three tests of the size; a saving that is negative is none.
unfoldable pub is_too_large : ReaderView → (tokens after : ℕ) → Option ℕ → Bool
is_too_large v tokens after target =
    leb v.context_window (after + reserve v)
    || yield_below_min tokens (tokens - after)
    || misses_target after target

unfoldable pub repriced :
    PendingCompaction → (tokens after growth : ℕ) → Option ℕ → PendingCompaction
repriced pending tokens after growth current_tail = record pending {
  tokens_before = tokens;
  tail_baseline_tokens = or_tail current_tail pending.tail_baseline_tokens;
  details = record pending.details {
    tokens_saved = some (tokens - after);
    estimated_after_tokens = some after;
    retained_tail_tokens = some (or_zero pending.details.retained_tail_tokens + growth);
  };
}

abbrev pub sized :
    PendingCompaction
    → (tokens estimated_after : ℕ) → ReaderView
    → Option (ℕ × Option ℕ)
    → Option PendingCompaction
sized pending tokens estimated_after v none = none
sized pending tokens estimated_after v (some (growth, current_tail)) =
    let after = estimated_after + growth in
    if is_too_large v tokens after pending.details.target_after_tokens
    then none
    else some (repriced pending tokens after growth current_tail)

abbrev is_signature : Option String → Option String → Bool
is_signature (some a) (some b) = not (is_text a "") && is_text a b
is_signature _ _ = false

unfoldable pub is_current : PendingCompaction → ReaderView → (tokens : ℕ) → Bool
unfolding pending_matches_branch
is_current pending v tokens =
    v.has_model
    && is_signature pending.reader_signature v.signature
    && is_text pending.session_id v.session_id
    && pending_matches_branch pending v
    && ltb 0 tokens
    && ltb 0 pending.tokens_before
    && ltb 0 v.context_window

abbrev pub measured :
    PendingCompaction → ReaderView → Option ℕ → Option ℕ → Option PendingCompaction
measured pending v none estimated_after = none
measured pending v (some tokens) none = none
measured pending v (some tokens) (some estimated_after) =
    if is_current pending v tokens
    then sized pending tokens estimated_after v (growth_of pending tokens v v.weights)
    else none

abbrev pub used : PendingCompaction → ReaderView → Option Usage → Option PendingCompaction
used pending v none = none
used pending v (some u) =
    if usage_refuses_application u
    then none
    else measured pending v u.tokens pending.details.estimated_after_tokens

unfoldable pub revalidate_pending : PendingCompaction → ReaderView → Option PendingCompaction
unfolding is_current is_too_large repriced find_entry
revalidate_pending pending v = used pending v v.usage
