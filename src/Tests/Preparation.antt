-- ===== src/Tests/Preparation.antt =====
-- Preparations that finish, are cancelled and are handed off
-- (`src/app/background-preparation.ts`).
use pi_smart_compact.Base.{
  ℕ, ◌+◌, ◌-◌, ◌≤◌, ◌≡◌, ◌≢◌, refl, arith, List, [], ◌∷◌, map, true, false, none, some,
  String_discrete, lookup, ℕ_discrete,
}
use pi_smart_compact.OrderedMap.{set}
use pi_smart_compact.Preparation.{
  cancelled, superseded, branch, Prepared, Task, Discard, create, task_at,
}
use pi_smart_compact.Preparation.Window.{
  CompactConfig, background, message, compaction, BranchEntry, View, preparation_window,
}
use pi_smart_compact.Preparation.Calls.{
  cooldown_ms, is_id, observe, settle, take, status, ready, Event, observed, began, finished, taken,
  was_cancelled, unused, run,
}
use pi_smart_compact.Preparation.Weight.{count, one_if, is_handed}
use pi_smart_compact.Preparation.Once.{run-records_once, settle-records}
use pi_smart_compact.Preparation.Admission.{IsInWindow}
use pi_smart_compact.Preparation.Spaced.{last_try, run-spaced}

abbrev configuration : CompactConfig
configuration = record {
  auto_trigger = true;
  strategy = background;
  min_context_percent = 70;
  prepare_context_percent = none;
  pending_ttl_ms = 1000;
}

abbrev seen : ℕ → List BranchEntry → View
seen now entries = record {
  now = now;
  config = configuration;
  session_id = "s";
  is_unresolved = false;
  signature = "m";
  branch = entries;
  has_model = true;
  tokens = some 65000;
  window = some 100000;
  matches_branch = λ pending. true;
  revalidate = λ pending. some pending;
}

abbrev head : List BranchEntry
head = record { id = "e1"; type_of = message } ∷ []

abbrev edited : List BranchEntry
edited = record { id = "e1"; type_of = message } ∷ record { id = "e2"; type_of = compaction } ∷ []

abbrev prepared : Prepared
prepared = record {
  run_id = "r";
  session_id = "s";
  metrics_snapshot = some (record { cost = 5; ready_ms = none; wait_ms = none });
}

program : Unit {0}
unfolding run create observe settle take status String_discrete lookup set ℕ_discrete
    preparation_window
program = tt

abbrev late_events : List Event
late_events =
    observed (seen 100 head)
    ∷ began (seen 101 head) 0
    ∷ was_cancelled 102 cancelled
    ∷ finished 110 0 (some prepared)
    ∷ []

-- The task of a cancelled run is recorded when its summary comes, with the reason of the cancel.
late_discard : map (λ (d : Discard). d.reason) (run create late_events).discards ≡ cancelled ∷ []
unfolding program
late_discard = refl

abbrev used_events : List Event
used_events =
    observed (seen 100 head)
    ∷ began (seen 101 head) 0
    ∷ finished 110 0 (some prepared)
    ∷ taken (seen 120 head)
    ∷ unused 130 "r" superseded
    ∷ unused 131 "r" superseded
    ∷ []

used_discard : map (λ (d : Discard). d.reason) (run create used_events).discards ≡ superseded ∷ []
unfolding program
used_discard = refl

-- A compaction after the origin makes the ready summary invalid.
edited_discard :
    map
      (λ (d : Discard). d.reason)
      (run create (
        observed (seen 100 head)
        ∷ finished 110 0 (some prepared)
        ∷ taken (seen 120 edited)
        ∷ [])).discards
    ≡ branch ∷ []
unfolding program
edited_discard = refl

becomes_ready :
    status (run create (observed (seen 100 head) ∷ finished 110 0 (some prepared) ∷ [])) "s" ≡ ready
unfolding program
becomes_ready = refl

run-records_once_example :
    count 0 (run create used_events).discards
      + one_if (is_id (run create used_events).current 0)
      + one_if (is_handed (run create used_events).handed_off 0)
    ≤ 1
run-records_once_example = run-records_once used_events 0

abbrev first_events : List Event
first_events = observed (seen 100 head) ∷ []

abbrev first_task : Task
first_task = record {
  session_id = "s";
  origin_id = "e1";
  signature = "m";
  aborted = false;
  created_at = 100;
  ready_at = none;
  pending = none;
  discard_reason = none;
  settled = false;
}

started_task : task_at (run create first_events) 0 ≡ some first_task
unfolding program
started_task = refl

settle-records_example :
    count 0 (settle 110 (run create first_events) 0 (some prepared)).discards
      + one_if (is_id (settle 110 (run create first_events) 0 (some prepared)).current 0)
    ≡ 1
settle-records_example =
    settle-records first_events 110 0 first_task prepared started_task refl refl

-- One preparation is started and cancelled, and the next is started when the cooldown is over.
abbrev cancelled_events : List Event
cancelled_events = observed (seen 100 head) ∷ was_cancelled 200 cancelled ∷ []

abbrev ten_minutes_on : View
ten_minutes_on = seen 600100 head

waits :
    (observe (run create cancelled_events) (seen 600099 head)).next_task
    ≡ (run create cancelled_events).next_task
unfolding program
waits = refl

tried_once : last_try create cancelled_events none ≡ some ("s", 100)
unfolding program
tried_once = refl

starts_again :
    (observe (run create cancelled_events) ten_minutes_on).next_task
    ≢ (run create cancelled_events).next_task
unfolding program
starts_again h = absurd (omega (arith, h))

run-spaced_example :
    (cooldown_ms ≤ 600100 - 100)
    × ((observe (run create cancelled_events) ten_minutes_on).current
        ≡ some (run create cancelled_events).next_task)
    × IsInWindow ten_minutes_on
run-spaced_example = run-spaced cancelled_events ten_minutes_on 100 tried_once starts_again
