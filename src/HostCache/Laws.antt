-- ===== src/HostCache/Laws.antt =====
-- What the ledger's tallies say of the requests.
use pi_smart_compact.Base.{
  ℕ, ◌+◌, ◌≤◌, ◌<◌, ◌≡◌, refl, ◌≢◌, String, Bool, false, Option, none, some, arith, leb, Bool-cases,
  Option-cases, inl, inr,
}
use pi_smart_compact.HostCache.{
  ContextEditKind, trim, rewind, navigation, compaction, RebuildCause, continuity, idle_expiry,
  foreign, TokenTally, LedgerSummary, UsageCost, Usage, ObservedMessage, ModelPromptCache,
  HostCacheLedger, reset, note_context_edit, note_cache_warm,
}
use pi_smart_compact.HostCache.Observe.{
  add_cause, add_kind, edits_after, Request, prompt_of, uncached_of, is_rebuild, cause_of,
  tally_rebuild, tally_request, tally_cost, record_request, observe, request_of, time_of,
}

abbrev pub rebuild_count : (RebuildCause → TokenTally) → ℕ
rebuild_count f = (f continuity).count + (f idle_expiry).count + (f foreign).count

abbrev pub rebuild_tokens : (RebuildCause → TokenTally) → ℕ
rebuild_tokens f = (f continuity).uncached + (f idle_expiry).uncached + (f foreign).uncached

abbrev pub edit_count : (ContextEditKind → TokenTally) → ℕ
edit_count f = (f trim).count + (f rewind).count + (f navigation).count + (f compaction).count

abbrev pub edit_tokens : (ContextEditKind → TokenTally) → ℕ
edit_tokens f =
    (f trim).uncached + (f rewind).uncached + (f navigation).uncached + (f compaction).uncached

-- The tallies by edit add up to the tally of their cause; rebuilds are fewer than requests, and
-- their tokens are among those billed without the cache.
pub record IsBalanced (l : HostCacheLedger) : Type 0 where
  pub by_edit_count : edit_count l.summary.edits ≡ (l.summary.rebuilds continuity).count
  pub by_edit_tokens : edit_tokens l.summary.edits ≡ (l.summary.rebuilds continuity).uncached
  pub billed : rebuild_tokens l.summary.rebuilds ≤ l.summary.input + l.summary.cache_write
  pub first : l.previous_at ≡ none → rebuild_count l.summary.rebuilds ≡ 0
  pub fewer : l.previous_at ≢ none → rebuild_count l.summary.rebuilds < l.summary.requests

-- What the tallies of one summary become.
record IsTallied (l : HostCacheLedger) (r : Request) (s : LedgerSummary) : Type 0 where
  by_edit_count : edit_count s.edits ≡ (s.rebuilds continuity).count
  by_edit_tokens : edit_tokens s.edits ≡ (s.rebuilds continuity).uncached
  billed : rebuild_tokens s.rebuilds ≤ s.input + s.cache_write
  fewer : rebuild_count s.rebuilds < s.requests

causes_after :
    (c : RebuildCause) (n : ℕ) (f : RebuildCause → TokenTally)
    → (rebuild_count (add_cause c n f) ≡ rebuild_count f + 1)
      × (rebuild_tokens (add_cause c n f) ≡ rebuild_tokens f + n)
causes_after continuity n f = (omega arith, omega arith)
causes_after idle_expiry n f = (omega arith, omega arith)
causes_after foreign n f = (omega arith, omega arith)

kinds_after :
    (k : ContextEditKind) (n : ℕ) (f : ContextEditKind → TokenTally)
    → (edit_count (add_kind k n f) ≡ edit_count f + 1)
      × (edit_tokens (add_kind k n f) ≡ edit_tokens f + n)
kinds_after trim n f = (omega arith, omega arith)
kinds_after rewind n f = (omega arith, omega arith)
kinds_after navigation n f = (omega arith, omega arith)
kinds_after compaction n f = (omega arith, omega arith)

-- An edit's rebuild goes to both tallies, any other to neither.
rebuild_balance :
    (l : HostCacheLedger) (n : ℕ) (r : Request) (f : RebuildCause → TokenTally)
    (g : ContextEditKind → TokenTally)
    → edit_count g ≡ (f continuity).count
    → edit_tokens g ≡ (f continuity).uncached
    → (edit_count (edits_after l.pending_edit n g)
        ≡ (add_cause (cause_of l r) n f continuity).count)
      × (edit_tokens (edits_after l.pending_edit n g)
          ≡ (add_cause (cause_of l r) n f continuity).uncached)
unfolding cause_of
rebuild_balance l n r f g p q = elim (Option-cases l.pending_edit) [
  | inl e ↦ ground arith
  | inr (k, e) ↦
      let (c, t) = kinds_after k n g in rw (e, cause_of) (omega (arith, c, p), omega (arith, t, q))
]

no_previous : (l : HostCacheLedger) (r : Request) → l.previous_at ≡ none → is_rebuild l r ≡ false
unfolding is_rebuild
no_previous l r e = rw (e, is_rebuild) refl

request-IsTallied :
    (l : HostCacheLedger) (r : Request)
    → IsBalanced l
    → IsTallied l r (tally_request r (tally_rebuild l r l.summary))
unfolding tally_request tally_rebuild
request-IsTallied l r v = elim (Bool-cases (is_rebuild l r)) [
  | inr tail ↦ rw tail (record {
    by_edit_count = v.by_edit_count;
    by_edit_tokens = v.by_edit_tokens;
    billed = omega (arith, v.billed);
    fewer = elim (Option-cases l.previous_at) [
      | inl e ↦ omega (arith, v.first e)
      | inr (t, e) ↦ omega (arith, v.fewer (λ e'. ground arith))
    ];
  })
  | inl missed ↦
      let (c, t) = causes_after (cause_of l r) (uncached_of r) l.summary.rebuilds in
      let (p, q) =
        rebuild_balance l (uncached_of r) r l.summary.rebuilds l.summary.edits v.by_edit_count
          v.by_edit_tokens in
      let later : l.previous_at ≢ none = λ e. ground (arith, no_previous l r e) in
      rw missed (record {
        by_edit_count = p;
        by_edit_tokens = q;
        billed = omega (arith, t, v.billed);
        fewer = omega (arith, c, v.fewer later);
      })
]

cost-IsTallied :
    (l : HostCacheLedger) (r : Request) (cost : Option UsageCost) (rebuild : Bool)
    (s : LedgerSummary)
    → IsTallied l r s
    → IsTallied l r (tally_cost cost rebuild s)
unfolding tally_cost
cost-IsTallied l r none rebuild s v = v
cost-IsTallied l r (some cost) rebuild s v = elim (Option-cases cost.total) [
  | inl e ↦ rw (e, tally_cost) v
  | inr (t, e) ↦
      rw (e, tally_cost)
        (record {
          by_edit_count = v.by_edit_count;
          by_edit_tokens = v.by_edit_tokens;
          billed = v.billed;
          fewer = v.fewer;
        })
]

record-IsBalanced :
    (documented : String → Bool) (usage : Usage) (cache : Option ModelPromptCache) (r : Request)
    (l : HostCacheLedger)
    → IsBalanced l
    → IsBalanced (record_request documented usage cache r l).0
unfolding record_request
record-IsBalanced documented usage cache r l v =
    let t = cost-IsTallied l r usage.cost (is_rebuild l r) _ (request-IsTallied l r v) in
    record {
      by_edit_count = t.by_edit_count;
      by_edit_tokens = t.by_edit_tokens;
      billed = t.billed;
      first = λ e. absurd (ground arith);
      fewer = λ e. t.fewer;
    }

-- What the ledger is told.
pub data Event : Type 0 where
  resets : Option String → Event
  edits : ContextEditKind → Event
  warms : ℕ → Event
  observes : ObservedMessage → Option ℕ → Option ModelPromptCache → (now : ℕ) → Event

unfoldable pub after : (String → Bool) → Event → HostCacheLedger → HostCacheLedger
after documented (resets id) l = reset id
after documented (edits kind) l = note_context_edit kind l
after documented (warms time) l = note_cache_warm time l
after documented (observes message time cache now) l =
    (observe documented message time cache now l).0

reset-IsBalanced : (id : Option String) → IsBalanced (reset id)
unfolding reset
reset-IsBalanced id = record {
  by_edit_count = refl;
  by_edit_tokens = refl;
  billed = omega arith;
  first = λ e. refl;
  fewer = λ e. absurd (e refl);
}

observe-IsBalanced :
    (documented : String → Bool) (message : ObservedMessage) (time : Option ℕ)
    (cache : Option ModelPromptCache) (now : ℕ) (l : HostCacheLedger)
    → IsBalanced l
    → IsBalanced (observe documented message time cache now l).0
unfolding observe
observe-IsBalanced documented message time cache now l v = elim (Option-cases message.usage) [
  | inl e ↦ rw (e, observe) v
  | inr (usage, e) ↦ elim (Option-cases usage.input) [
    | inl e' ↦ rw (e, e', observe) v
    | inr (input, e') ↦
        let r = request_of message usage input (time_of time message.timestamp now) in
        elim (Bool-cases (leb (prompt_of r) 0)) [
          | inl nothing ↦ rw (e, e', nothing, observe) v
          | inr some_prompt ↦
              rw (e, e', some_prompt, observe) (record-IsBalanced documented usage cache r l v)
        ]
  ]
]

-- After any event a balanced ledger is balanced: rebuilds by edit add up to those of their cause,
-- rebuilds are fewer than requests, and their tokens are among those billed without the cache.
pub after-IsBalanced :
    (documented : String → Bool) (event : Event) (l : HostCacheLedger)
    → IsBalanced l
    → IsBalanced (after documented event l)
unfolding after note_context_edit note_cache_warm
after-IsBalanced documented (resets id) l v = reset-IsBalanced id
after-IsBalanced documented (edits kind) l v = record {
  by_edit_count = v.by_edit_count;
  by_edit_tokens = v.by_edit_tokens;
  billed = v.billed;
  first = v.first;
  fewer = v.fewer;
}
after-IsBalanced documented (warms time) l v = record {
  by_edit_count = v.by_edit_count;
  by_edit_tokens = v.by_edit_tokens;
  billed = v.billed;
  first = v.first;
  fewer = v.fewer;
}
after-IsBalanced documented (observes message time cache now) l v =
    observe-IsBalanced documented message time cache now l v
