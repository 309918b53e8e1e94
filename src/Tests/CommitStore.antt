-- ===== src/Tests/CommitStore.antt =====
-- A store with two candidates (`src/app/compaction-commit-store.ts`).
use pi_smart_compact.Base.{
  ℕ, ◌+◌, ◌-◌, ◌≤◌, ◌≡◌, refl, ◌↔◌, [], ◌∷◌, String, none, some, lookup, String_discrete, arith,
}
use pi_smart_compact.Types.{PendingCompaction, SmartCompactDetails}
use pi_smart_compact.OrderedMap.{delete, set}
use pi_smart_compact.CommitStore.{
  Entry, Store, StoreOptions, evicted, duplicate, stage, take, ttl_ms,
}
use pi_smart_compact.CommitStore.Conserve.{
  stages, takes, after, total, goes_out, comes_in, after-conserves,
}
use pi_smart_compact.CommitStore.Take.{take-some_iff, take-once}
use pi_smart_compact.CommitStore.Limit.{IsOrderly, after-IsOrderly}

abbrev details : String → SmartCompactDetails
details run = record {
  run_id = some run;
  tokens_saved = none;
  estimated_after_tokens = some 10;
  retained_tail_tokens = none;
  target_after_tokens = none;
}

abbrev candidate : (run session : String) → PendingCompaction
candidate run session = record {
  run_id = run;
  tail_baseline_tokens = none;
  summary = "text";
  first_kept_entry_id = "e9";
  origin_branch_head_id = "e12";
  reader_signature = none;
  context_snapshot = none;
  tokens_before = 500;
  details = details run;
  session_id = session;
}

abbrev options : StoreOptions
options = record { ttl_option = 100; max_entries_option = 2 }

abbrev store : Store
store = record {
  entries =
      ("r1", record { pending = candidate "r1" "a"; created_at = 0 })
      ∷ ("r2", record { pending = candidate "r2" "b"; created_at = 50 })
      ∷ [];
  discarded = [];
}

program : Unit {0}
unfolding stage take delete set lookup String_discrete
program = tt

-- The third candidate evicts the first, which is reported.
makes_room :
    (stage options 60 (candidate "r3" "a") store).0.discarded ≡ (candidate "r1" "a", evicted) ∷ []
unfolding program
makes_room = refl

refuses_twin : (stage options 60 (candidate "r2" "a") store).1 ≡ duplicate
unfolding program
refuses_twin = refl

confirmed : (take options 60 "r2" "b" store).1 ≡ some (candidate "r2" "b")
unfolding program
confirmed = refl

foreign_session : (take options 60 "r2" "a" store).1 ≡ none
unfolding program
foreign_session = refl

abbrev tokens : PendingCompaction → ℕ
tokens p = p.tokens_before

after-conserves_example :
    total tokens (after options 60 (stages (candidate "r3" "a")) store)
      + goes_out tokens options 60 (stages (candidate "r3" "a")) store
    ≡ total tokens store + comes_in tokens options 60 (stages (candidate "r3" "a")) store
after-conserves_example = after-conserves tokens options 60 (stages (candidate "r3" "a")) store

take-some_iff_example : ((take options 60 "r2" "b" store).1 ≡ some (candidate "r2" "b")) ↔ (
    (e : Entry) × (lookup String_discrete "r2" store.entries ≡ some e)
    × (e.pending ≡ candidate "r2" "b")
    × ((candidate "r2" "b").session_id ≡ "b")
    × (60 - e.created_at ≤ ttl_ms options))
unfolding program
take-some_iff_example =
    take-some_iff options 60 "r2" "b" (candidate "r2" "b") store (refl, (refl, tt))

take-once_example : (take options 70 "r2" "b" (take options 60 "r2" "b" store).0).1 ≡ none
unfolding program
take-once_example = take-once options 60 70 "r2" "b" "b" store (refl, (refl, tt))

orderly : IsOrderly 2 store
unfolding program
orderly = record {
  distinct = (refl, (refl, tt));
  keyed = ((refl, λ e. cc), ((refl, λ e. cc), tt));
  bounded = omega arith;
}

after-IsOrderly_example : IsOrderly 2 (after options 60 (takes "r1" "b") store)
after-IsOrderly_example = after-IsOrderly options 60 (takes "r1" "b") store orderly
