-- ===== src/Delivery/Events.antt =====
-- What the host's events do to the gate.
use pi_smart_compact.Base.{
  ℕ, List, [], ◌∷◌, String, Bool, true, false, ◌&&◌, not, Option, none, some, if◌then◌else◌, ◌==◌,
}
use pi_smart_compact.Delivery.{
  DeliveryRequest, Gate, Delivery, SessionRead, put_gate, clear, matched, cleared, is_open, acquire,
  check_idle, release, pause_cancelled, defer, is_delivery_error,
}
use pi_smart_compact.Delivery.Drain.{Outcome, drain}

-- `matches(current, ctx)`: the current gate, if the context is of its session.
abbrev pub matched_current : Delivery → SessionRead → Option Gate
matched_current s read = elim s.current [ none ↦ none | some gate ↦ matched s gate.number read ]

abbrev pub cleared_current : Delivery → SessionRead → Delivery
cleared_current s read = elim s.current [ none ↦ s | some gate ↦ cleared s gate.number read ]

abbrev pub last_token : List ℕ → Option ℕ
last_token [] = none
last_token (t ∷ []) = some t
last_token (t ∷ u ∷ scopes) = last_token (u ∷ scopes)

abbrev pub hold_native : Option Gate → Option Gate
hold_native none = none
hold_native (some gate) = some (record gate { release_native = last_token gate.scopes })

-- `session_before_compact`
unfoldable pub before_compact : Delivery → String → Delivery
unfolding acquire
before_compact s session_id =
    let s' = acquire s session_id in record s' { current = hold_native s'.current }

-- The release that `finishNative` calls, with the state that has forgotten it.
unfoldable pub release_held : Delivery → (number : ℕ) → SessionRead → Option Gate → Delivery
unfolding release
release_held s number captured none = s
release_held s number captured (some gate) =
    let s' = put_gate s (record gate { release_native = none }) in
    elim gate.release_native [ none ↦ s' | some token ↦ release s' number token captured ]

-- `session_compact` and `session_compact_failed`.
unfoldable pub finish_native :
    Delivery → (read captured : SessionRead) → (aborted : Bool) → Delivery
unfolding release_held pause_cancelled matched cleared
finish_native s read captured aborted = elim (matched_current s read) [
  | none ↦ cleared_current s read
  | some gate ↦
      let s' =
        if aborted
        then pause_cancelled s gate.number captured
        else put_gate s (record gate { pause = none }) in
      release_held s' gate.number captured s'.current
]

pub data Event : Type 0 where
  requested : DeliveryRequest → SessionRead → Event
  scope_taken : String → Event
  scope_released : (number token : ℕ) → SessionRead → Event
  user_cancelled : (number : ℕ) → SessionRead → Event
  compacting : String → Event
  compacted : (read captured : SessionRead) → (aborted : Bool) → Event
  agent_starts : (read captured : SessionRead) → (is_idle : Bool) → Event
  turn_starts : (read captured : SessionRead) → Event
  settles : (read captured : SessionRead) → Event
  timer_fires : (number : ℕ) → SessionRead → (is_idle : Bool) → Event
  session_changes : Event

abbrev pub resumed : Gate → Gate
resumed gate = record gate { pause = none; resume_on_turn_start = false }

abbrev pub is_failing : Option Gate → Bool
is_failing none = false
is_failing (some gate) = is_delivery_error gate.pause && not gate.resume_on_turn_start

unfoldable pub agent_settled : Delivery → (read captured : SessionRead) → Delivery
unfolding check_idle matched cleared
agent_settled s read captured = elim (matched_current s read) [
  | none ↦ cleared_current s read
  | some gate ↦ check_idle s gate.number captured
]

abbrev pub timer_off : ℕ → Option Gate → Option Gate
timer_off number none = none
timer_off number (some gate) =
    if gate.number == number then some (record gate { has_timer = false }) else some gate

module _ (fuel : ℕ) (deliver : DeliveryRequest → Outcome) where
  -- `naturalRun`
  unfoldable pub natural_run : Delivery → (read captured : SessionRead) → Delivery
  unfolding drain matched cleared
  natural_run s read captured = elim (matched_current s read) [
    | none ↦ cleared_current s read
    | some gate ↦
        if gate.draining
        then s
        else drain fuel deliver (put_gate s (resumed gate)) gate.number captured
  ]

  unfoldable pub before_agent_start :
      Delivery → (read captured : SessionRead) → (is_idle : Bool) → Delivery
  unfolding natural_run matched cleared
  before_agent_start s read captured is_idle = elim (matched_current s read) [
    | none ↦ cleared_current s read
    | some gate ↦
        if not gate.draining && is_idle
        then put_gate s (record gate { resume_on_turn_start = true })
        else natural_run s read captured
  ]

  -- Failed callbacks are not tried again on every turn.
  unfoldable pub turn_start : Delivery → (read captured : SessionRead) → Delivery
  unfolding natural_run
  turn_start s read captured = if is_failing s.current then s else natural_run s read captured

  -- The timer of `checkIdle`.
  unfoldable pub tick : Delivery → (number : ℕ) → SessionRead → (is_idle : Bool) → Delivery
  unfolding drain check_idle matched cleared
  tick s number captured is_idle =
      let s' = record s { current = timer_off number s.current } in
      elim (matched s' number captured) [
        | none ↦ cleared s' number captured
        | some gate ↦
            if is_open gate
            then (if is_idle
                then drain fuel deliver s' number captured
                else check_idle s' number captured)
            else s'
      ]

  unfoldable pub after : Delivery → Event → Delivery
  unfolding defer acquire release pause_cancelled before_compact finish_native before_agent_start
      turn_start agent_settled tick clear
  after s (requested request read) = (defer s request read).0
  after s (scope_taken session_id) = acquire s session_id
  after s (scope_released number token read) = release s number token read
  after s (user_cancelled number read) = pause_cancelled s number read
  after s (compacting session_id) = before_compact s session_id
  after s (compacted read captured aborted) = finish_native s read captured aborted
  after s (agent_starts read captured is_idle) = before_agent_start s read captured is_idle
  after s (turn_starts read captured) = turn_start s read captured
  after s (settles read captured) = agent_settled s read captured
  after s (timer_fires number captured is_idle) = tick s number captured is_idle
  after s session_changes = clear s

  unfoldable pub run : Delivery → List Event → Delivery
  unfolding after
  run s [] = s
  run s (e ∷ events) = run (after s e) events
