-- ===== src/CommitStore/Conserve.antt =====
-- No staged summary is lost or doubled: each one waits, was handed out, or was reported discarded.
use pi_smart_compact.Base.{
  ℕ, zero, suc, ◌+◌, ◌≡◌, refl, List, [], ◌∷◌, ◌++◌, String, Option, none, some, arith, length,
  lookup, String_discrete, Option-cases, Bool-cases, inl, inr,
}
use pi_smart_compact.Types.{PendingCompaction}
use pi_smart_compact.OrderedMap.{OrderedMap, delete}
use pi_smart_compact.OrderedMap.Laws.{set_absent, lookup-delete-none}
use pi_smart_compact.CommitStore.{
  CommitDiscardReason, expired, session_mismatch, Entry, Store, StoreOptions, max_entries, remove,
  sweep_from, sweep, evict, is_mismatched, stage, staged, run_id_mismatch, duplicate, StageResult,
  take, discard, clear_from, clear_session, size,
}

-- The calls of the store.
pub data Call : Type 0 where
  stages : PendingCompaction → Call
  takes : (run_id session_id : String) → Call
  discards : String → CommitDiscardReason → Call
  clears : String → CommitDiscardReason → Call
  sizes : Call

unfoldable pub after : StoreOptions → ℕ → Call → Store → Store
after opts now (stages p) s = (stage opts now p s).0
after opts now (takes run_id session_id) s = (take opts now run_id session_id s).0
after opts now (discards run_id reason) s = (discard opts now run_id reason s).0
after opts now (clears session_id reason) s = (clear_session opts now session_id reason s).0
after opts now sizes s = (size opts now s).0

-- Any measure of summaries, summed: two lists have the same sums exactly if they have the same
-- members as often.
module _ (f : PendingCompaction → ℕ) where
  pub waiting : OrderedMap String Entry → ℕ
  waiting [] = 0
  waiting ((k, e) ∷ m) = f e.pending + waiting m

  pub reported : List (PendingCompaction × CommitDiscardReason) → ℕ
  reported [] = 0
  reported ((p, r) ∷ log) = f p + reported log

  abbrev pub total : Store → ℕ
  total s = waiting s.entries + reported s.discarded

  abbrev pub optional : Option PendingCompaction → ℕ
  optional none = 0
  optional (some p) = f p

  -- What a call takes in: the summary that it stages.
  abbrev pub accepted : PendingCompaction → StageResult → ℕ
  accepted p staged = f p
  accepted p run_id_mismatch = 0
  accepted p duplicate = 0

  pub comes_in : StoreOptions → ℕ → Call → Store → ℕ
  comes_in opts now (stages p) s = accepted p (stage opts now p s).1
  comes_in opts now (takes run_id session_id) s = 0
  comes_in opts now (discards run_id reason) s = 0
  comes_in opts now (clears session_id reason) s = 0
  comes_in opts now sizes s = 0

  -- What it hands out to be committed.
  pub goes_out : StoreOptions → ℕ → Call → Store → ℕ
  goes_out opts now (takes run_id session_id) s = optional (take opts now run_id session_id s).1
  goes_out opts now (stages p) s = 0
  goes_out opts now (discards run_id reason) s = 0
  goes_out opts now (clears session_id reason) s = 0
  goes_out opts now sizes s = 0

  reported-append :
      (log : List (PendingCompaction × CommitDiscardReason)) (p : PendingCompaction)
      (r : CommitDiscardReason)
      → reported (log ++ (p, r) ∷ []) ≡ reported log + f p
  unfolding reported
  reported-append [] p r = omega arith
  reported-append ((q, r') ∷ log) p r = omega (arith, reported-append log p r)

  waiting-append :
      (m : OrderedMap String Entry) (k : String) (e : Entry)
      → waiting (m ++ (k, e) ∷ []) ≡ waiting m + f e.pending
  unfolding waiting
  waiting-append [] k e = omega arith
  waiting-append ((j, d) ∷ m) k e = omega (arith, waiting-append m k e)

  waiting-delete :
      (m : OrderedMap String Entry) (k : String) (e : Entry)
      → lookup String_discrete k m ≡ some e
      → waiting (delete String_discrete m k) + f e.pending ≡ waiting m
  unfolding waiting lookup delete
  waiting-delete [] k e h = ground arith
  waiting-delete ((j, d) ∷ m) k e h = ground (arith, waiting-delete m k e)

  remove-total :
      (run_id : String) (reason : CommitDiscardReason) (s : Store)
      → total (remove run_id reason s).0 ≡ total s
  unfolding remove
  remove-total run_id reason s = elim (Option-cases (lookup String_discrete run_id s.entries)) [
    | inl miss ↦ rw (miss, remove) refl
    | inr (e, hit) ↦
        rw (hit, remove)
          (omega (
            arith,
            waiting-delete s.entries run_id e hit,
            reported-append s.discarded e.pending reason,
          ))
  ]

  sweep_from-total :
      (opts : StoreOptions) (now : ℕ) (rest : OrderedMap String Entry) (s : Store)
      → total (sweep_from opts now rest s) ≡ total s
  unfolding sweep_from
  sweep_from-total opts now [] s = refl
  sweep_from-total opts now ((k, e) ∷ rest) s =
      grind (arith, sweep_from-total opts now rest, remove-total k expired s)

  pub sweep-total : (opts : StoreOptions) (now : ℕ) (s : Store) → total (sweep opts now s) ≡ total s
  unfolding sweep
  sweep-total opts now s = sweep_from-total opts now s.entries s

  evict-total : (fuel limit : ℕ) (s : Store) → total (evict fuel limit s) ≡ total s
  unfolding evict
  evict-total zero limit s = refl
  evict-total (suc fuel) limit s = grind (arith, evict-total fuel limit, remove-total)

  clear_from-total :
      (session_id : String) (reason : CommitDiscardReason) (rest : OrderedMap String Entry)
      (s : Store) (removed : List PendingCompaction)
      → total (clear_from session_id reason rest s removed).0 ≡ total s
  unfolding clear_from
  clear_from-total session_id reason [] s removed = refl
  clear_from-total session_id reason ((k, e) ∷ rest) s removed =
      grind (arith, clear_from-total session_id reason rest, remove-total k reason s)

remove-absent :
    (k run_id : String) (reason : CommitDiscardReason) (s : Store)
    → lookup String_discrete k s.entries ≡ none
    → lookup String_discrete k (remove run_id reason s).0.entries ≡ none
unfolding remove
remove-absent k run_id reason s h =
    ground (arith, lookup-delete-none String_discrete s.entries k run_id)

pub evict-absent :
    (fuel limit : ℕ) (k : String) (s : Store)
    → lookup String_discrete k s.entries ≡ none
    → lookup String_discrete k (evict fuel limit s).entries ≡ none
unfolding evict
evict-absent zero limit k s h = h
evict-absent (suc fuel) limit k s h = grind (arith, evict-absent fuel limit k, remove-absent k)

module _ (f : PendingCompaction → ℕ) where
  stage-total :
      (opts : StoreOptions) (now : ℕ) (p : PendingCompaction) (s : Store)
      → total f (stage opts now p s).0 ≡ total f s + accepted f p (stage opts now p s).1
  unfolding stage
  stage-total opts now p s = elim (Bool-cases (is_mismatched p)) [
    | inl bad ↦ rw bad (omega (arith, sweep-total f opts now s))
    | inr good ↦
        let s' = sweep opts now s in
        elim (Option-cases (lookup String_discrete p.run_id s'.entries)) [
          | inr (e, hit) ↦ rw (good, hit) (omega (arith, sweep-total f opts now s))
          | inl miss ↦
              let gone = evict-absent (length s'.entries) (max_entries opts) p.run_id s' miss in
              rw
                (
                  good,
                  miss,
                  set_absent String_discrete _ p.run_id (record { pending = p; created_at = now })
                      gone,
                )
                (omega (
                  arith,
                  sweep-total f opts now s,
                  evict-total f (length s'.entries) (max_entries opts) s',
                  waiting-append f (evict (length s'.entries) (max_entries opts) s').entries
                      p.run_id (record { pending = p; created_at = now }),
                ))
        ]
  ]

  take-total :
      (opts : StoreOptions) (now : ℕ) (run_id session_id : String) (s : Store)
      → total f (take opts now run_id session_id s).0
          + optional f (take opts now run_id session_id s).1
        ≡ total f s
  unfolding take
  take-total opts now run_id session_id s =
      let s' = sweep opts now s in
      elim (Option-cases (lookup String_discrete run_id s'.entries)) [
        | inl miss ↦ ground (arith, sweep-total f opts now s)
        | inr (e, hit) ↦ elim (String_discrete e.pending.session_id session_id) [
          | no p ↦
              ground (arith, sweep-total f opts now s, remove-total f run_id session_mismatch s')
          | yes p ↦
              ground (arith, sweep-total f opts now s, waiting-delete f s'.entries run_id e hit)
        ]
      ]

  -- However summaries are measured, a call of the commit store leaves the sum over those that wait
  -- and those reported discarded, with what it hands out, at the sum before with what it takes in:
  -- no summary is lost, and none is both handed out and kept.
  pub after-conserves :
      (opts : StoreOptions) (now : ℕ) (c : Call) (s : Store)
      → total f (after opts now c s) + goes_out f opts now c s ≡ total f s + comes_in f opts now c s
  unfolding after goes_out comes_in discard clear_session size
  after-conserves opts now (stages p) s = omega (arith, stage-total opts now p s)
  after-conserves opts now (takes run_id session_id) s =
      omega (arith, take-total opts now run_id session_id s)
  after-conserves opts now (discards run_id reason) s =
      omega (arith, sweep-total f opts now s, remove-total f run_id reason (sweep opts now s))
  after-conserves opts now (clears session_id reason) s = omega (
    arith,
    sweep-total f opts now s,
    clear_from-total f session_id reason (sweep opts now s).entries (sweep opts now s) [],
  )
  after-conserves opts now sizes s = omega (arith, sweep-total f opts now s)
