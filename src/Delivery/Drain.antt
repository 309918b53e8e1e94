-- ===== src/Delivery/Drain.antt =====
-- `drain`: the callbacks of the queue, one after the other.
use pi_smart_compact.Base.{
  ℕ, zero, suc, List, [], ◌∷◌, ◌++◌, String, Bool, true, false, ◌&&◌, not, Option, none, some,
  if◌then◌else◌, ◌==◌,
}
use pi_smart_compact.Delivery.{
  DeliveryRequest, delivery_error, Gate, Delivery, SessionRead, put_gate, clear, matched, cleared,
  is_empty, is_open, acquire, release, pause_cancelled, defer,
}

-- What a callback makes happen in this module before it ends.
pub data Action : Type 0 where
  defers : DeliveryRequest → SessionRead → Action
  acquires : String → Action
  releases : (number token : ℕ) → SessionRead → Action
  cancels : (number : ℕ) → SessionRead → Action
  clears : Action

unfoldable pub act : Delivery → Action → Delivery
unfolding defer acquire release pause_cancelled clear
act s (defers request read) = (defer s request read).0
act s (acquires session_id) = acquire s session_id
act s (releases number token read) = release s number token read
act s (cancels number read) = pause_cancelled s number read
act s clears = clear s

unfoldable pub act_all : Delivery → List Action → Delivery
unfolding act
act_all s [] = s
act_all s (a ∷ actions) = act_all (act s a) actions

-- `deliver()`: what it does, and whether it throws.
pub record Outcome : Type 0 where
  pub actions : List Action
  pub throws : Bool

abbrev pub first_request : Gate → List DeliveryRequest → Option (DeliveryRequest × Gate)
first_request gate [] = none
first_request gate (request ∷ queue) = some (request, record gate { queue = queue })

-- Takes the head of the queue, if the loop goes on: the gate is current and open.
abbrev pub next_request : Option Gate → Option (DeliveryRequest × Gate)
next_request none = none
next_request (some gate) = if is_open gate then first_request gate gate.queue else none

module _ (deliver : DeliveryRequest → Outcome) (number : ℕ) (read : SessionRead) where
  -- One pass of the loop over a request taken from the queue.
  abbrev pub after_delivery : Delivery → DeliveryRequest → Delivery
  after_delivery s request =
      let s' = act_all s (deliver request).actions in
      if (deliver request).throws
      then s'
      else record s' { delivered = s'.delivered ++ request ∷ [] }

  abbrev pub still_failed : DeliveryRequest → List DeliveryRequest → List DeliveryRequest
  still_failed request failed = if (deliver request).throws then failed ++ request ∷ [] else failed

  -- The loop, with the requests that failed so far; on fuel, since callbacks may defer more.
  unfoldable pub drain_loop :
      (fuel : ℕ) → Delivery → List DeliveryRequest → Delivery × List DeliveryRequest
  unfolding act_all matched cleared
  drain_loop zero s failed = (s, failed)
  drain_loop (suc fuel) s failed = elim (next_request (matched s number read)) [
    | none ↦ (cleared s number read, failed)
    | some (request, gate) ↦
        drain_loop fuel (after_delivery (put_gate s gate) request) (still_failed request failed)
  ]

-- The `finally` block for a gate that is still current.
abbrev pub settle_gate : List DeliveryRequest → Gate → Gate
settle_gate failed gate = record gate {
  queue = failed ++ gate.queue;
  pause = if not (is_empty failed) && is_open gate then some delivery_error else gate.pause;
}

-- `clear()` of a gate that has nothing left to wait for.
abbrev pub is_done : Gate → Bool
is_done gate = is_open gate && is_empty gate.queue

unfoldable pub finish : Delivery → Option Gate → List DeliveryRequest → Delivery
unfolding clear
finish s none failed = record s { lost = s.lost ++ failed }
finish s (some gate) failed =
    let s' = put_gate s (settle_gate failed gate) in
    if is_done (settle_gate failed gate) then clear s' else s'

-- `gate.draining = false`, also for a gate whose session has changed.
unfoldable pub undrained : Delivery → (number : ℕ) → Delivery
undrained s number = elim s.current [
  | none ↦ s
  | some gate ↦ if gate.number == number then put_gate s (record gate { draining = false }) else s
]

unfoldable pub finish_drain :
    Delivery → (number : ℕ) → SessionRead → List DeliveryRequest → Delivery
unfolding finish matched cleared undrained
finish_drain s number read failed =
    let s' = undrained s number in finish (cleared s' number read) (matched s' number read) failed

abbrev pub may_drain : Option Gate → Option Gate
may_drain none = none
may_drain (some gate) =
    if is_open gate && not gate.draining
    then some (record gate { draining = true; has_timer = false })
    else none

unfoldable pub drain :
    (fuel : ℕ) → (DeliveryRequest → Outcome) → Delivery → (number : ℕ) → SessionRead → Delivery
unfolding drain_loop finish_drain matched cleared
drain fuel deliver s number read = elim (may_drain (matched s number read)) [
  | none ↦ cleared s number read
  | some gate ↦
      let r = drain_loop deliver number read fuel (put_gate s gate) [] in
      finish_drain r.0 number read r.1
]
