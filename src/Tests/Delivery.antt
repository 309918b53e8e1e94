-- ===== src/Tests/Delivery.antt =====
-- Notifications that wait for a compaction (`src/app/compaction-delivery.ts`).
use pi_smart_compact.Base.{
  ℕ, ◌+◌, ◌≡◌, refl, List, [], ◌∷◌, ◌++◌, map, true, false, not, some, String_discrete, arith,
  is_some, ◌==◌,
}
use pi_smart_compact.OpenLoops.Laws.{weigh}
use pi_smart_compact.Delivery.{
  DeliveryRequest, Gate, put_gate, queue_of, is_empty, create, new_gate,
}
use pi_smart_compact.Delivery.Drain.{Outcome, drain}
use pi_smart_compact.Delivery.Events.{Event, requested, compacting, compacted, timer_fires, run}
use pi_smart_compact.Delivery.Runs.{run-conserves}
use pi_smart_compact.Delivery.Live.{failing, healthy, drain_quiet}

abbrev notice : ℕ → DeliveryRequest
notice body = record {
  version = 1;
  session_id = "s";
  has_deliver = true;
  deferred = false;
  body = body;
}

-- The callback of 2 throws.
abbrev deliver : DeliveryRequest → Outcome
deliver r = record { actions = []; throws = r.body == 2 }

program : Unit {0}
unfolding run drain String_discrete create
program = tt

abbrev events : List Event
events =
    requested (notice 0) (some "s")
    ∷ compacting "s"
    ∷ requested (notice 1) (some "s")
    ∷ requested (notice 2) (some "s")
    ∷ requested (notice 3) (some "s")
    ∷ compacted (some "s") (some "s") false
    ∷ timer_fires 0 (some "s") true
    ∷ []

-- The first notice comes before the compaction and is not held; the failing one stays.
delivered_bodies :
    map (λ (r : DeliveryRequest). r.body) (run 9 deliver create events).delivered ≡ 1 ∷ 3 ∷ []
unfolding program
delivered_bodies = refl

queued_bodies :
    map (λ (r : DeliveryRequest). r.body) (queue_of (run 9 deliver create events).current) ≡ 2 ∷ []
unfolding program
queued_bodies = refl

run-conserves_example :
    weigh (λ (r : DeliveryRequest). r.body) (run 9 deliver create events).accepted
    ≡ weigh (λ (r : DeliveryRequest). r.body) (queue_of (run 9 deliver create events).current)
      + weigh (λ (r : DeliveryRequest). r.body) (run 9 deliver create events).delivered
      + weigh (λ (r : DeliveryRequest). r.body) (run 9 deliver create events).lost
run-conserves_example = run-conserves (λ r. r.body) 9 deliver events

abbrev waiting : Gate
waiting = record (new_gate 0 "s") { queue = notice 1 ∷ notice 2 ∷ notice 3 ∷ [] }

drain_quiet_example :
    ((drain 3 deliver (put_gate create waiting) 0 (some "s")).delivered
      ≡ [] ++ healthy deliver waiting.queue)
    × (queue_of (drain 3 deliver (put_gate create waiting) 0 (some "s")).current
        ≡ failing deliver waiting.queue)
    × ((drain 3 deliver (put_gate create waiting) 0 (some "s")).lost ≡ [])
    × (is_some (drain 3 deliver (put_gate create waiting) 0 (some "s")).current
        ≡ not (is_empty (failing deliver waiting.queue)))
unfolding create
drain_quiet_example = drain_quiet deliver (λ r. refl) 3 create waiting refl refl (omega arith)
