-- ===== src/Delivery.antt =====
-- `src/app/compaction-delivery.ts`: notifications that wait while a compaction runs. A gate is an
-- object that timers and releases refer to, so it has a number. `accepted` is the log of the
-- requests whose `deferred` was set, `delivered` of the callbacks that returned, `lost` of those that the program forgets when a gate goes. What a
-- callback does to this module before it returns or throws is a list of actions; a callback that
-- starts a run of a second session's gate is left out.
pub mod Drain
pub mod Events
pub mod Conserve
pub mod Drains
pub mod Runs
pub mod Live
use pi_smart_compact.Base.{
  ℕ, suc, List, [], ◌∷◌, ◌++◌, String, Bool, true, false, ◌&&◌, ◌||◌, not, Option, none, some,
  if◌then◌else◌, ◌==◌, is_some,
}
use pi_smart_compact.OpenLoops.{is_text}

-- `DeliveryRequest`, as an event carries it; `body` tells the requests apart.
pub record DeliveryRequest : Type 0 where
  pub version : ℕ
  pub session_id : String
  pub has_deliver : Bool
  pub deferred : Bool
  pub body : ℕ

pub data Pause : Type 0 where
  cancelled delivery_error : Pause

pub record Gate : Type 0 where
  pub number : ℕ
  pub session_id : String
  pub scopes : List ℕ
  pub queue : List DeliveryRequest
  pub pause : Option Pause
  pub draining : Bool
  pub resume_on_turn_start : Bool
  pub announced : Bool
  pub has_timer : Bool
  pub release_native : Option ℕ

pub record Delivery : Type 0 where
  pub current : Option Gate
  pub next_number : ℕ
  pub accepted : List DeliveryRequest
  pub delivered : List DeliveryRequest
  pub lost : List DeliveryRequest

-- What `getSessionId()` of a context returns; it throws for a context that is no longer valid.
abbrev pub SessionRead : Type 0
SessionRead = Option String

abbrev pub put_gate : Delivery → Gate → Delivery
put_gate s gate = record s { current = some gate }

abbrev pub queue_of : Option Gate → List DeliveryRequest
queue_of none = []
queue_of (some gate) = gate.queue

unfoldable pub clear : Delivery → Delivery
clear s = record s { current = none; lost = s.lost ++ queue_of s.current }

-- Whether a read is the gate's session.
abbrev pub is_session : SessionRead → Gate → Bool
is_session none gate = false
is_session (some id) gate = is_text id gate.session_id

-- `matches(gate, ctx)`: first the gate, if it is current, then the state, cleared if the read throws.
unfoldable pub matched : Delivery → (number : ℕ) → SessionRead → Option Gate
matched s number read = elim s.current [
  | none ↦ none
  | some gate ↦ if gate.number == number && is_session read gate then some gate else none
]

unfoldable pub cleared : Delivery → (number : ℕ) → SessionRead → Delivery
unfolding clear
cleared s number read = elim s.current [
  | none ↦ s
  | some gate ↦ if gate.number == number && not (is_some read) then clear s else s
]

abbrev pub is_empty {ℓ} : {A : Type ℓ} → List A → Bool
is_empty [] = true
is_empty (_ ∷ _) = false

-- No scope is held and nothing pauses the gate.
abbrev pub is_open : Gate → Bool
is_open gate = is_empty gate.scopes && not (is_some gate.pause)

abbrev pub new_gate : (number : ℕ) → String → Gate
new_gate number session_id = record {
  number = number;
  session_id = session_id;
  scopes = [];
  queue = [];
  pause = none;
  draining = false;
  resume_on_turn_start = false;
  announced = false;
  has_timer = false;
  release_native = none;
}

-- `if (current && current.sessionId !== sessionId) clear()`
unfoldable pub leave_other : Delivery → String → Delivery
unfolding clear
leave_other s session_id = elim s.current [
  | none ↦ s
  | some gate ↦ if is_text gate.session_id session_id then s else clear s
]

abbrev pub gate_or_new : Delivery → String → Gate
gate_or_new s session_id = elim s.current [
  | none ↦ new_gate s.next_number session_id
  | some gate ↦ gate
]

-- A scope's token is the number after the gate's.
unfoldable pub acquire : Delivery → String → Delivery
unfolding leave_other
acquire s session_id =
    let s' = leave_other s session_id in
    let gate = gate_or_new s' session_id in
    record s' {
      current =
          some (record gate { scopes = gate.scopes ++ suc s'.next_number ∷ []; has_timer = false });
      next_number = suc (suc s'.next_number);
    }

unfoldable pub without : ℕ → List ℕ → List ℕ
without token [] = []
without token (t ∷ scopes) =
    let rest = without token scopes in if t == token then scopes else t ∷ rest

unfoldable pub has_token : ℕ → List ℕ → Bool
has_token token [] = false
has_token token (t ∷ scopes) = t == token || has_token token scopes

-- `checkIdle`: the timer that looks again later.
abbrev pub set_timer : Gate → Gate
set_timer gate =
    if is_open gate && not gate.has_timer then record gate { has_timer = true } else gate

abbrev pub with_gate : Delivery → Option Gate → (Gate → Gate) → Delivery
with_gate s none change = s
with_gate s (some gate) change = put_gate s (change gate)

unfoldable pub check_idle : Delivery → (number : ℕ) → SessionRead → Delivery
unfolding matched cleared
check_idle s number read = with_gate (cleared s number read) (matched s number read) set_timer

abbrev pub release_gate : ℕ → Gate → Gate
release_gate token gate =
    if has_token token gate.scopes
    then set_timer (record gate { scopes = without token gate.scopes })
    else gate

unfoldable pub release : Delivery → (number token : ℕ) → SessionRead → Delivery
unfolding matched cleared without has_token
release s number token read =
    with_gate (cleared s number read) (matched s number read) (release_gate token)

unfoldable pub pause_cancelled : Delivery → (number : ℕ) → SessionRead → Delivery
unfolding matched cleared
pause_cancelled s number read =
    with_gate (cleared s number read) (matched s number read)
      (λ gate. record gate { pause = some cancelled })

abbrev pub is_delivery_error : Option Pause → Bool
is_delivery_error (some delivery_error) = true
is_delivery_error _ = false

-- What the request has to be, for the gate that is current.
abbrev pub is_deferrable : DeliveryRequest → Gate → Bool
is_deferrable request gate =
    request.version == 1
    && not request.deferred
    && is_text request.session_id gate.session_id
    && request.has_deliver

-- A failed producer captures no new request while no compaction runs.
abbrev pub takes_in : Gate → Bool
takes_in gate = not (is_empty gate.scopes && is_delivery_error gate.pause)

abbrev pub enqueue : DeliveryRequest → Gate → Gate
enqueue request gate = record gate { queue = gate.queue ++ request ∷ []; announced = true }

abbrev pub accept : Delivery → DeliveryRequest → Delivery
accept s request = record s { accepted = s.accepted ++ request ∷ [] }

abbrev pub defer_to : Delivery → DeliveryRequest → SessionRead → Gate → Delivery × Bool
defer_to s request read gate =
    if not (is_some read)
    then (clear s, false)
    else if is_session read gate && takes_in gate
    then (accept (put_gate s (enqueue request gate)) request, true)
    else (s, false)

-- The event `smart-compact:defer-delivery`, with whether the request is deferred.
unfoldable pub defer : Delivery → DeliveryRequest → SessionRead → Delivery × Bool
unfolding matched cleared
defer s request read = elim s.current [
  | none ↦ (s, false)
  | some gate ↦ if is_deferrable request gate then defer_to s request read gate else (s, false)
]

unfoldable pub create : Delivery
create = record { current = none; next_number = 0; accepted = []; delivered = []; lost = [] }
