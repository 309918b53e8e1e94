-- ===== src/CommitStore/Limit.antt =====
-- What every call of the commit store keeps.
use pi_smart_compact.Base.{
  ℕ, zero, suc, ◌≤◌, ◌<◌, ◌≡◌, refl, ◌≢◌, [], ◌∷◌, String, false, arith, length, lookup,
  String_discrete, Option-cases, Bool-cases, inl, inr, All, List,
}
use pi_smart_compact.Types.{PendingCompaction}
use pi_smart_compact.OrderedMap.{OrderedMap, delete}
use pi_smart_compact.OrderedMap.Laws.{
  IsDistinct, delete-IsDistinct, set-IsDistinct, length-delete-le, length-set-le, delete_first,
  All-delete, All-set,
}
use pi_smart_compact.CommitStore.{
  CommitDiscardReason, expired, evicted, session_mismatch, Entry, Store, StoreOptions, max_entries,
  remove, sweep_from, sweep, evict, is_mismatched, stage, take, discard, clear_from, clear_session,
  size,
}
use pi_smart_compact.CommitStore.Conserve.{Call, stages, takes, discards, clears, sizes, after}

-- An entry is stored under its run, whose id is not empty.
abbrev pub IsKeyed : String × Entry → Type 0
IsKeyed e = (e.1.pending.run_id ≡ e.0) × (e.0 ≢ "")

pub record IsOrderly (limit : ℕ) (s : Store) : Type 0 where
  pub distinct : IsDistinct String_discrete s.entries
  pub keyed : All IsKeyed s.entries
  pub bounded : length s.entries ≤ limit

delete-IsOrderly :
    (limit : ℕ) (k : String) (s : Store) (log : List (PendingCompaction × CommitDiscardReason))
    → IsOrderly limit s
    → IsOrderly limit (record { entries = delete String_discrete s.entries k; discarded = log })
delete-IsOrderly limit k s log v = record {
  distinct = delete-IsDistinct String_discrete s.entries k v.distinct;
  keyed = All-delete String_discrete IsKeyed s.entries k v.keyed;
  bounded = omega (arith, length-delete-le String_discrete s.entries k, v.bounded);
}

remove-IsOrderly :
    (limit : ℕ) (k : String) (reason : CommitDiscardReason) (s : Store)
    → IsOrderly limit s
    → IsOrderly limit (remove k reason s).0
unfolding remove
remove-IsOrderly limit k reason s v = elim (Option-cases (lookup String_discrete k s.entries)) [
  | inl miss ↦ rw (remove, miss) v
  | inr (e, hit) ↦ rw (remove, hit) (delete-IsOrderly limit k s _ v)
]

sweep_from-IsOrderly :
    (limit : ℕ) (opts : StoreOptions) (now : ℕ) (rest : OrderedMap String Entry) (s : Store)
    → IsOrderly limit s
    → IsOrderly limit (sweep_from opts now rest s)
unfolding sweep_from
sweep_from-IsOrderly limit opts now [] s v = v
sweep_from-IsOrderly limit opts now ((k, e) ∷ rest) s v =
    grind (arith, sweep_from-IsOrderly limit opts now rest, remove-IsOrderly limit k expired s)

sweep-IsOrderly :
    (limit : ℕ) (opts : StoreOptions) (now : ℕ) (s : Store)
    → IsOrderly limit s
    → IsOrderly limit (sweep opts now s)
unfolding sweep
sweep-IsOrderly limit opts now s v = sweep_from-IsOrderly limit opts now s.entries s v

clear_from-IsOrderly :
    (limit : ℕ) (session_id : String) (reason : CommitDiscardReason)
    (rest : OrderedMap String Entry) (s : Store) (removed : List PendingCompaction)
    → IsOrderly limit s
    → IsOrderly limit (clear_from session_id reason rest s removed).0
unfolding clear_from
clear_from-IsOrderly limit session_id reason [] s removed v = v
clear_from-IsOrderly limit session_id reason ((k, e) ∷ rest) s removed v =
    grind
      (arith, clear_from-IsOrderly limit session_id reason rest, remove-IsOrderly limit k reason s)

-- A round takes the oldest entry away.
remove_first :
    (k : String) (e : Entry) (m : OrderedMap String Entry) (reason : CommitDiscardReason)
    (s : Store)
    → s.entries ≡ (k, e) ∷ m
    → (remove k reason s).0.entries ≡ m
unfolding remove lookup
remove_first k e m reason s h = ground (arith, delete_first String_discrete m k e)

-- With fuel for every entry the loop makes room, since no key is empty.
evict_makes_room :
    (fuel limit : ℕ) (s : Store) (m : OrderedMap String Entry)
    → s.entries ≡ m
    → All IsKeyed m
    → length m ≤ fuel
    → 0 < limit
    → length (evict fuel limit s).entries < limit
unfolding evict
evict_makes_room zero limit s [] e keys h p = ground arith
evict_makes_room zero limit s (x ∷ m) e keys h p = absurd (omega arith)
evict_makes_room (suc fuel) limit s [] e keys h p = ground arith
evict_makes_room (suc fuel) limit s ((k, v) ∷ m) e ((_, named), keys) h p = ground (
  arith,
  evict_makes_room fuel limit (remove k evicted s).0 m (remove_first k v m evicted s e) keys
      (omega arith) p,
)

evict-IsOrderly :
    (fuel room limit : ℕ) (s : Store) → IsOrderly limit s → IsOrderly limit (evict fuel room s)
unfolding evict
evict-IsOrderly zero room limit s v = v
evict-IsOrderly (suc fuel) room limit s v =
    grind (arith, evict-IsOrderly fuel room limit, remove-IsOrderly limit)

mismatched_not : (p : PendingCompaction) → is_mismatched p ≡ false → p.run_id ≢ ""
unfolding is_mismatched
mismatched_not p h e = ground arith

stage-IsOrderly :
    (opts : StoreOptions) (now : ℕ) (p : PendingCompaction) (s : Store)
    → IsOrderly (max_entries opts) s
    → IsOrderly (max_entries opts) (stage opts now p s).0
unfolding stage
stage-IsOrderly opts now p s v =
    let s' = sweep opts now s in
    let v' = sweep-IsOrderly (max_entries opts) opts now s v in
    elim (Bool-cases (is_mismatched p)) [
      | inl bad ↦ rw bad v'
      | inr good ↦ elim (Option-cases (lookup String_discrete p.run_id s'.entries)) [
        | inr (e, hit) ↦ rw (good, hit) v'
        | inl miss ↦
            let roomy = evict (length s'.entries) (max_entries opts) s' in
            let r =
              evict-IsOrderly (length s'.entries) (max_entries opts) (max_entries opts) s' v' in
            let room =
              evict_makes_room (length s'.entries) (max_entries opts) s' s'.entries refl v'.keyed
                (omega arith) (omega arith) in
            rw (good, miss)
              (record {
                distinct = set-IsDistinct String_discrete roomy.entries p.run_id _ r.distinct;
                keyed =
                    All-set String_discrete IsKeyed roomy.entries p.run_id _
                      (refl, mismatched_not p good) r.keyed;
                bounded = omega (
                  arith,
                  room,
                  length-set-le String_discrete roomy.entries p.run_id
                      (record { pending = p; created_at = now }),
                );
              })
      ]
    ]

-- Every call keeps the commit store orderly: one entry for a run, stored under the run's id, which
-- is not empty, and at most `maxEntries` entries.
pub after-IsOrderly :
    (opts : StoreOptions) (now : ℕ) (c : Call) (s : Store)
    → IsOrderly (max_entries opts) s
    → IsOrderly (max_entries opts) (after opts now c s)
unfolding after take discard clear_session size
after-IsOrderly opts now (stages p) s v = stage-IsOrderly opts now p s v
after-IsOrderly opts now (takes run_id session_id) s v =
    let v' = sweep-IsOrderly (max_entries opts) opts now s v in
    grind (
      arith,
      v',
      remove-IsOrderly (max_entries opts) run_id session_mismatch (sweep opts now s) v',
      delete-IsOrderly (max_entries opts) run_id (sweep opts now s) (sweep opts now s).discarded v',
    )
after-IsOrderly opts now (discards run_id reason) s v =
    remove-IsOrderly (max_entries opts) run_id reason (sweep opts now s)
      (sweep-IsOrderly (max_entries opts) opts now s v)
after-IsOrderly opts now (clears session_id reason) s v =
    clear_from-IsOrderly (max_entries opts) session_id reason (sweep opts now s).entries
      (sweep opts now s) [] (sweep-IsOrderly (max_entries opts) opts now s v)
after-IsOrderly opts now sizes s v = sweep-IsOrderly (max_entries opts) opts now s v
