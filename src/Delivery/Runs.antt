-- ===== src/Delivery/Runs.antt =====
-- The host's events keep the balance of the notifications.
use pi_smart_compact.Base.{
  ℕ, ◌+◌, ◌≡◌, refl, List, [], ◌∷◌, String, Bool, true, false, ◌&&◌, not, none, some, arith,
  Option-cases, Bool-cases, inl, inr,
}
use pi_smart_compact.OpenLoops.Laws.{weigh}
use pi_smart_compact.Delivery.{
  DeliveryRequest, Gate, Delivery, SessionRead, put_gate, queue_of, matched, is_open, acquire,
  create,
}
use pi_smart_compact.Delivery.Drain.{Outcome}
use pi_smart_compact.Delivery.Events.{
  matched_current, cleared_current, before_compact, release_held, finish_native, natural_run,
  before_agent_start, turn_start, agent_settled, tick, is_failing, timer_off, Event, requested,
  scope_taken, scope_released, user_cancelled, compacting, compacted, agent_starts, turn_starts,
  settles, timer_fires, session_changes, after, run,
}
use pi_smart_compact.Delivery.Conserve.{
  held, IsBalanced, clear-IsBalanced, cleared-IsBalanced, put_gate-IsBalanced, matched-some,
  acquire-IsBalanced, defer-IsBalanced, release-IsBalanced, check_idle-IsBalanced,
  pause_cancelled-IsBalanced,
}
use pi_smart_compact.Delivery.Drains.{drain-IsBalanced}

module _ (f : DeliveryRequest → ℕ) where
  matched_current-some :
      (s : Delivery) (read : SessionRead) (gate : Gate)
      → matched_current s read ≡ some gate
      → s.current ≡ some gate
  matched_current-some s read gate h = elim (Option-cases s.current) [
    | inl e ↦ absurd (ground (arith, e, h))
    | inr (g, e) ↦ matched-some f s g.number read gate (ground (arith, e, h))
  ]

  cleared_current-IsBalanced :
      (n : ℕ) (s : Delivery) (read : SessionRead)
      → IsBalanced f n s
      → IsBalanced f n (cleared_current s read)
  cleared_current-IsBalanced n s read h = elim (Option-cases s.current) [
    | inl e ↦ rw (cleared_current, e) h
    | inr (gate, e) ↦ rw (cleared_current, e) (cleared-IsBalanced f n s gate.number read h)
  ]

  before_compact-IsBalanced :
      (s : Delivery) (id : String) → IsBalanced f 0 s → IsBalanced f 0 (before_compact s id)
  unfolding before_compact IsBalanced held acquire
  before_compact-IsBalanced s id h = acquire-IsBalanced f 0 s id h

  release_held-IsBalanced :
      (s : Delivery) (number : ℕ) (captured : SessionRead)
      → IsBalanced f 0 s
      → IsBalanced f 0 (release_held s number captured s.current)
  unfolding release_held
  release_held-IsBalanced s number captured h = elim (Option-cases s.current) [
    | inl e ↦ rw (release_held, e) h
    | inr (gate, e) ↦
        let v = put_gate-IsBalanced f 0 s gate (record gate { release_native = none }) e refl h in
        elim (Option-cases gate.release_native) [
          | inl none_held ↦ rw (release_held, e, none_held) v
          | inr (token, token_held) ↦
              rw (release_held, e, token_held)
                (release-IsBalanced f 0 (put_gate s (record gate { release_native = none })) number
                  token captured v)
        ]
  ]

  finish_native-IsBalanced :
      (s : Delivery) (read captured : SessionRead) (aborted : Bool)
      → IsBalanced f 0 s
      → IsBalanced f 0 (finish_native s read captured aborted)
  unfolding finish_native
  finish_native-IsBalanced s read captured aborted h =
      elim (Option-cases (matched_current s read)) [
        | inl e ↦ rw (finish_native, e) (cleared_current-IsBalanced 0 s read h)
        | inr (gate, e) ↦ elim (Bool-cases aborted) [
          | inl stop ↦
              rw (finish_native, e, stop)
                (release_held-IsBalanced _ gate.number captured
                  (pause_cancelled-IsBalanced f 0 s gate.number captured h))
          | inr go ↦
              rw (finish_native, e, go)
                (release_held-IsBalanced (put_gate s (record gate { pause = none })) gate.number
                  captured
                  (put_gate-IsBalanced f 0 s gate (record gate { pause = none })
                    (matched_current-some s read gate e) refl h))
        ]
      ]

  agent_settled-IsBalanced :
      (s : Delivery) (read captured : SessionRead)
      → IsBalanced f 0 s
      → IsBalanced f 0 (agent_settled s read captured)
  unfolding agent_settled
  agent_settled-IsBalanced s read captured h = elim (Option-cases (matched_current s read)) [
    | inl e ↦ rw (agent_settled, e) (cleared_current-IsBalanced 0 s read h)
    | inr (gate, e) ↦ rw (agent_settled, e) (check_idle-IsBalanced f 0 s gate.number captured h)
  ]

  timer_off-IsBalanced :
      (s : Delivery) (number : ℕ)
      → IsBalanced f 0 s
      → IsBalanced f 0 (record s { current = timer_off number s.current })
  unfolding IsBalanced held
  timer_off-IsBalanced s number h = elim (Option-cases s.current) [
    | inl e ↦ rw e (ground (arith, h, e))
    | inr (gate, e) ↦ rw e (ground (arith, h, e))
  ]

  abbrev free_gate : Gate → Gate
  free_gate gate = record gate { pause = none; draining = false; resume_on_turn_start = false }

  module _ (fuel : ℕ) (deliver : DeliveryRequest → Outcome) where
    natural_run-IsBalanced :
        (s : Delivery) (read captured : SessionRead)
        → IsBalanced f 0 s
        → IsBalanced f 0 (natural_run fuel deliver s read captured)
    unfolding natural_run
    natural_run-IsBalanced s read captured h = elim (Option-cases (matched_current s read)) [
      | inl e ↦ rw (natural_run, e) (cleared_current-IsBalanced 0 s read h)
      | inr (gate, e) ↦ elim (Bool-cases gate.draining) [
        | inl busy ↦ rw (natural_run, e, busy) h
        | inr free ↦
            rw (natural_run, e, free)
              (drain-IsBalanced f fuel deliver (put_gate s (free_gate gate)) gate.number captured (
                put_gate-IsBalanced f 0 s gate (free_gate gate) (matched_current-some s read gate e)
                  refl h))
      ]
    ]

    before_agent_start-IsBalanced :
        (s : Delivery) (read captured : SessionRead) (is_idle : Bool)
        → IsBalanced f 0 s
        → IsBalanced f 0 (before_agent_start fuel deliver s read captured is_idle)
    unfolding before_agent_start
    before_agent_start-IsBalanced s read captured is_idle h =
        elim (Option-cases (matched_current s read)) [
          | inl e ↦ rw (before_agent_start, e) (cleared_current-IsBalanced 0 s read h)
          | inr (gate, e) ↦ elim (Bool-cases (not gate.draining && is_idle)) [
            | inl waits ↦
                rw (before_agent_start, e, waits)
                  (put_gate-IsBalanced f 0 s gate (record gate { resume_on_turn_start = true })
                    (matched_current-some s read gate e) refl h)
            | inr runs ↦ rw (before_agent_start, e, runs) (natural_run-IsBalanced s read captured h)
          ]
        ]

    turn_start-IsBalanced :
        (s : Delivery) (read captured : SessionRead)
        → IsBalanced f 0 s
        → IsBalanced f 0 (turn_start fuel deliver s read captured)
    unfolding turn_start
    turn_start-IsBalanced s read captured h = elim (Bool-cases (is_failing s.current)) [
      | inl failing ↦ rw (turn_start, failing) h
      | inr runs ↦ rw (turn_start, runs) (natural_run-IsBalanced s read captured h)
    ]

    tick-IsBalanced :
        (s : Delivery) (number : ℕ) (captured : SessionRead) (is_idle : Bool)
        → IsBalanced f 0 s
        → IsBalanced f 0 (tick fuel deliver s number captured is_idle)
    unfolding tick
    tick-IsBalanced s number captured is_idle h =
        let s' = record s { current = timer_off number s.current } in
        let v = timer_off-IsBalanced s number h in
        elim (Option-cases (matched s' number captured)) [
          | inl e ↦ rw (tick, e) (cleared-IsBalanced f 0 s' number captured v)
          | inr (gate, e) ↦ elim (Bool-cases (is_open gate)) [
            | inr shut ↦ rw (tick, e, shut) v
            | inl ready ↦ elim (Bool-cases is_idle) [
              | inl idle ↦
                  rw (tick, e, ready, idle) (drain-IsBalanced f fuel deliver s' number captured v)
              | inr busy ↦
                  rw (tick, e, ready, busy) (check_idle-IsBalanced f 0 s' number captured v)
            ]
          ]
        ]

    -- Every event keeps the balance.
    pub after-IsBalanced :
        (s : Delivery) (e : Event) → IsBalanced f 0 s → IsBalanced f 0 (after fuel deliver s e)
    unfolding after
    after-IsBalanced s (requested request read) h = defer-IsBalanced f 0 s request read h
    after-IsBalanced s (scope_taken id) h = acquire-IsBalanced f 0 s id h
    after-IsBalanced s (scope_released number token read) h =
        release-IsBalanced f 0 s number token read h
    after-IsBalanced s (user_cancelled number read) h =
        pause_cancelled-IsBalanced f 0 s number read h
    after-IsBalanced s (compacting id) h = before_compact-IsBalanced s id h
    after-IsBalanced s (compacted read captured aborted) h =
        finish_native-IsBalanced s read captured aborted h
    after-IsBalanced s (agent_starts read captured is_idle) h =
        before_agent_start-IsBalanced s read captured is_idle h
    after-IsBalanced s (turn_starts read captured) h = turn_start-IsBalanced s read captured h
    after-IsBalanced s (settles read captured) h = agent_settled-IsBalanced s read captured h
    after-IsBalanced s (timer_fires number captured is_idle) h =
        tick-IsBalanced s number captured is_idle h
    after-IsBalanced s session_changes h = clear-IsBalanced f 0 s h

    run_from-IsBalanced :
        (s : Delivery) (events : List Event)
        → IsBalanced f 0 s
        → IsBalanced f 0 (run fuel deliver s events)
    unfolding run
    run_from-IsBalanced s [] h = h
    run_from-IsBalanced s (e ∷ events) h =
        run_from-IsBalanced (after fuel deliver s e) events (after-IsBalanced s e h)

    -- However notifications are measured, along every sequence of events the sum over those
    -- accepted is the sum over those queued, those delivered and those given up with a gate: a
    -- notification that was taken over is neither forgotten nor both delivered and kept.
    pub run-conserves :
        (events : List Event)
        → weigh f (run fuel deliver create events).accepted
          ≡ weigh f (queue_of (run fuel deliver create events).current)
            + weigh f (run fuel deliver create events).delivered
            + weigh f (run fuel deliver create events).lost
    unfolding IsBalanced held create
    run-conserves events = omega (arith, run_from-IsBalanced create events (omega arith))
