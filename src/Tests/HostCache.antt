-- ===== src/Tests/HostCache.antt =====
-- Requests of one route (`src/app/host-cache-ledger.ts`).
use pi_smart_compact.Base.{
  ℕ, ◌≡◌, refl, String, Bool, true, none, some, arith, lookup, String_discrete,
}
use pi_smart_compact.OrderedMap.{set}
use pi_smart_compact.HostCache.{
  continuity, idle_expiry, trim, Usage, ObservedMessage, ModelPromptCache, HostCacheLedger,
  Route_discrete, reset, note_context_edit, cache_lifetime_ms, cache_write_tier_ms,
}
use pi_smart_compact.HostCache.Observe.{Request, is_rebuild, cause_of, record_request, observe}
use pi_smart_compact.HostCache.Laws.{IsBalanced, observes, after, after-IsBalanced}

abbrev documented : String → Bool
documented provider = true

abbrev usage : ℕ → ℕ → Usage
usage input read = record {
  input = some input;
  cache_read = read;
  cache_write = 0;
  cache_write_1h = none;
  cost = none;
}

abbrev message : ℕ → ℕ → ObservedMessage
message input read = record {
  usage = some (usage input read);
  provider = some "p";
  model = some "m";
  timestamp = none;
}

abbrev request : ℕ → ℕ → Request
request time input = record {
  time = time;
  route = (some "p", some "m");
  input = input;
  cache_read = 0;
  cache_write = 0;
}

abbrev tiers : ModelPromptCache
tiers = record { short = some 300; long = none }

abbrev balanced : HostCacheLedger
balanced = reset (some "s")

program : Unit {0}
unfolding observe reset note_context_edit Route_discrete is_rebuild cause_of cache_lifetime_ms
    cache_write_tier_ms set lookup String_discrete
program = tt

abbrev warm : HostCacheLedger
warm = (observe documented (message 20_000 0) (some 0) (some tiers) 0 balanced).0

-- Six minutes later the five-minute cache is gone.
expires :
    (record_request documented (usage 20_000 0) (some tiers) (request 360_001 20_000) warm).1.cause
    ≡ some idle_expiry
unfolding program
expires = refl

edited :
    (record_request documented
      (usage 20_000 0)
      (some tiers)
      (request 10 20_000)
      (note_context_edit trim warm)).1.cause
    ≡ some continuity
unfolding program
edited = refl

start-IsBalanced : IsBalanced balanced
unfolding program
start-IsBalanced = record {
  by_edit_count = refl;
  by_edit_tokens = refl;
  billed = omega arith;
  first = λ e. refl;
  fewer = λ e. absurd (e refl);
}

after-IsBalanced_example :
    IsBalanced (after documented (observes (message 20_000 0) (some 0) (some tiers) 0) balanced)
after-IsBalanced_example =
    after-IsBalanced documented (observes (message 20_000 0) (some 0) (some tiers) 0) balanced
      start-IsBalanced

rebuilds :
    (record_request documented (usage 20_000 0) (some tiers) (request 10 20_000) warm).1.rebuild
    ≡ true
unfolding program
rebuilds = refl
