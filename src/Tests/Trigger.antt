-- ===== src/Tests/Trigger.antt =====
-- The automatic trigger on two sessions (`src/app/settled-auto-trigger.ts`).
use pi_smart_compact.Base.{
  ℕ, ◌≡◌, ◌≢◌, refl, List, [], ◌∷◌, String, true, false, none, some, lookup, arith, String_discrete,
  ℕ_discrete,
}
use pi_smart_compact.OrderedMap.{set, delete}
use pi_smart_compact.Preparation.Window.{settled, preparation_window}
use pi_smart_compact.Trigger.{
  Request, create_settled_auto_trigger, HostState, CompactCall, completed, failed, returned, threw,
  Event, requested, called_back, timed_out, after, run, admits, has_pressure, request, call_back,
  finish_request, release_slot, apply_failed,
}
use pi_smart_compact.Trigger.Freed.{is_done, run-freed}
use pi_smart_compact.Trigger.Single.{run-one_at_a_time}
use pi_smart_compact.Trigger.Cooldown.{run-cools}

abbrev host : String → ℕ → HostState
host id now = record {
  view = record {
    now = now;
    config = record {
      auto_trigger = true;
      strategy = settled;
      min_context_percent = 50;
      prepare_context_percent = none;
      pending_ttl_ms = 1000;
    };
    session_id = id;
    is_unresolved = false;
    signature = "";
    branch = [];
    has_model = true;
    tokens = some 90000;
    window = some 100000;
    matches_branch = λ p. true;
    revalidate = λ p. some p;
  };
  is_idle = true;
  has_pending_messages = false;
}

abbrev pending_call : CompactCall
pending_call = record { callbacks = []; result = returned true }

-- A request of each of two sessions; a second one of the first is refused.
abbrev two_requests : List Event
two_requests =
    requested (host "a" 10) pending_call
    ∷ requested (host "b" 11) pending_call
    ∷ requested (host "a" 12) pending_call
    ∷ []

two_requests_state :
    ((run 100 create_settled_auto_trigger two_requests).active ≡ ("a", 0) ∷ ("b", 1) ∷ [])
    × ((run 100 create_settled_auto_trigger two_requests).next_token ≡ 2)
unfolding run after create_settled_auto_trigger request admits has_pressure preparation_window
    lookup set delete String_discrete ℕ_discrete
two_requests_state = (refl, refl)

-- A call that throws reports it, and frees the slot at once.
throws :
    let s =
      after 100 create_settled_auto_trigger
        (requested (host "a" 10) (record { callbacks = []; result = threw })) in
    (s.active ≡ []) × (s.cooldown_started_at ≡ ("a", 10) ∷ []) × (s.reports ≡ apply_failed ∷ [])
unfolding after create_settled_auto_trigger request admits has_pressure preparation_window lookup
    set delete String_discrete ℕ_discrete call_back finish_request release_slot
throws = (refl, refl, refl)

run-freed_example :
    let s =
      run 100
        (after 100 (run 100 create_settled_auto_trigger two_requests) (timed_out 50 false 0))
        (requested (host "a" 200) pending_call ∷ called_back 210 0 completed ∷ []) in
    (is_done s 0 ≡ true) × ((id : String) → lookup String_discrete id s.active ≢ some 0)
unfolding run after create_settled_auto_trigger request admits has_pressure preparation_window
    lookup set delete String_discrete ℕ_discrete
run-freed_example =
    run-freed 100 two_requests (timed_out 50 false 0)
      (requested (host "a" 200) pending_call ∷ called_back 210 0 completed ∷ []) 0 refl
      (omega arith)

abbrev request_of : String → Request
request_of id = record { session_id = id; finished = false; can_recover = true }

run-one_at_a_time_example : ◌≡◌ {A = ℕ} 1 1
unfolding run after create_settled_auto_trigger request admits has_pressure preparation_window
    lookup set delete String_discrete ℕ_discrete
run-one_at_a_time_example =
    run-one_at_a_time 100 two_requests (tt, (tt, (tt, tt))) 1 1 (request_of "b") (request_of "b")
      refl refl refl refl refl

run-cools_example :
    let s =
      after 100 (run 100 create_settled_auto_trigger two_requests) (called_back 50 0 failed) in
    request 100 s (host "a" 120) pending_call ≡ s
unfolding run after create_settled_auto_trigger request admits has_pressure preparation_window
    lookup set delete String_discrete ℕ_discrete
run-cools_example =
    run-cools 100 two_requests (called_back 50 0 failed) 0 (host "a" 120) pending_call refl refl
      (omega arith)
