-- ===== src/Trigger.antt =====
-- `src/app/settled-auto-trigger.ts`, with `contextPressure` of `src/app/background-preparation.ts`:
-- automatic requests for a compaction, one at a time for a session, with a cooldown. The promises,
-- the callbacks of the host and the timers are events that come in any order.
pub mod Walk
pub mod Single
pub mod Sound
pub mod Freed
pub mod Cooldown
use pi_smart_compact.Base.{
  ℕ, suc, ◌-◌, ◌*◌, List, [], ◌∷◌, ◌++◌, String, Bool, true, false, not, ◌&&◌, ◌||◌, Option, none,
  some, is_some, if◌then◌else◌, ltb, leb, ◌==◌, max, lookup, String_discrete, ℕ_discrete,
}
use pi_smart_compact.OrderedMap.{OrderedMap, set, delete}
use pi_smart_compact.Preparation.Window.{
  AutoTriggerStrategy, background, settled, native_hook, CompactConfig, View, preparation_window,
  min_token_threshold,
}

-- What `request` keeps in its closure, under the request's token: `resolve` is called, and
-- `finished` set, once. `can_recover` tells whether `compact` gave a recovery action.
pub record Request : Type 0 where
  pub session_id : String
  pub finished : Bool
  pub can_recover : Bool

-- The issues reported; `host_busy` chooses the text of the first.
pub data Report : Type 0 where
  no_callback : (host_busy : Bool) → Report
  apply_failed : Report

pub record SettledAutoTrigger : Type 0 where
  pub active : OrderedMap String ℕ
  pub cooldown_started_at : OrderedMap String ℕ
  pub requests : OrderedMap ℕ Request
  pub next_token : ℕ
  pub reports : List Report
  pub recovered : List ℕ

unfoldable pub create_settled_auto_trigger : SettledAutoTrigger
create_settled_auto_trigger = record {
  active = [];
  cooldown_started_at = [];
  requests = [];
  next_token = 0;
  reports = [];
  recovered = [];
}

unfoldable pub note_compaction :
    (now : ℕ) → SettledAutoTrigger → (is_unresolved : Bool) → String → SettledAutoTrigger
note_compaction now s is_unresolved id =
    if is_unresolved
    then s
    else record s { cooldown_started_at = set String_discrete s.cooldown_started_at id now }

unfoldable pub clear : SettledAutoTrigger → String → SettledAutoTrigger
clear s id = record s {
  active = delete String_discrete s.active id;
  cooldown_started_at = delete String_discrete s.cooldown_started_at id;
}

abbrev pub put_request : SettledAutoTrigger → ℕ → Request → SettledAutoTrigger
put_request s t r = record s { requests = set ℕ_discrete s.requests t r }

-- `active.get(sessionId) === requestToken`
abbrev pub is_token : Option ℕ → ℕ → Bool
is_token none t = false
is_token (some u) t = u == t

unfoldable pub release_slot : (now : ℕ) → SettledAutoTrigger → ℕ → String → SettledAutoTrigger
release_slot now s t id =
    if is_token (lookup String_discrete id s.active) t
    then record s {
      active = delete String_discrete s.active id;
      cooldown_started_at = set String_discrete s.cooldown_started_at id now;
    }
    else s

unfoldable pub finish_request :
    (now : ℕ) → SettledAutoTrigger → ℕ → Option Request → SettledAutoTrigger
unfolding release_slot
finish_request now s t none = s
finish_request now s t (some r) =
    if r.finished
    then s
    else release_slot now (put_request s t (record r { finished = true })) t r.session_id

abbrev pub finish : (now : ℕ) → SettledAutoTrigger → ℕ → SettledAutoTrigger
finish now s t = finish_request now s t (lookup ℕ_discrete t s.requests)

abbrev pub report : SettledAutoTrigger → Report → SettledAutoTrigger
report s r = record s { reports = s.reports ++ r ∷ [] }

-- `recoverDelivery?.()`; what the action does is not part of this module.
abbrev pub recover : SettledAutoTrigger → ℕ → Bool → SettledAutoTrigger
recover s t false = s
recover s t true = record s { recovered = s.recovered ++ t ∷ [] }

-- The timer of a request; `finish` clears it, so that it does nothing after that. The calls before
-- `finish`, `ctx.isIdle`, `reportIssue` and `recoverDelivery`, are taken not to throw.
unfoldable pub watch_request :
    (now : ℕ) → (host_busy : Bool) → SettledAutoTrigger → ℕ → Option Request → SettledAutoTrigger
unfolding finish_request
watch_request now host_busy s t none = s
watch_request now host_busy s t (some r) =
    if r.finished
    then s
    else if not (is_token (lookup String_discrete r.session_id s.active) t)
    then finish now s t
    else finish now (recover (report s (no_callback host_busy)) t r.can_recover) t

abbrev pub watchdog : (now : ℕ) → (host_busy : Bool) → SettledAutoTrigger → ℕ → SettledAutoTrigger
watchdog now host_busy s t = watch_request now host_busy s t (lookup ℕ_discrete t s.requests)

pub data Callback : Type 0 where
  completed failed : Callback

unfoldable pub call_back : (now : ℕ) → SettledAutoTrigger → ℕ → Callback → SettledAutoTrigger
call_back now s t completed = finish now s t
call_back now s t failed = finish now (report s apply_failed) t

pub data CompactResult : Type 0 where
  threw : CompactResult
  returned : (can_recover : Bool) → CompactResult

-- The host's `compact`: the callbacks that it calls before it returns, and how it ends.
pub record CompactCall : Type 0 where
  pub callbacks : List Callback
  pub result : CompactResult

abbrev pub set_recovery : SettledAutoTrigger → ℕ → Bool → Option Request → SettledAutoTrigger
set_recovery s t b none = s
set_recovery s t b (some r) = put_request s t (record r { can_recover = b })

abbrev pub call_all : (now : ℕ) → SettledAutoTrigger → ℕ → List Callback → SettledAutoTrigger
call_all now s t [] = s
call_all now s t (c ∷ cs) = call_all now (call_back now s t c) t cs

abbrev pub conclude : (now : ℕ) → SettledAutoTrigger → ℕ → CompactResult → SettledAutoTrigger
conclude now s t threw = finish now (report s apply_failed) t
conclude now s t (returned b) = set_recovery s t b (lookup ℕ_discrete t s.requests)

-- `contextPressure(ctx, config).compaction`, in hundredths of a token
unfoldable pub has_pressure : CompactConfig → Option ℕ → Option ℕ → Bool
unfolding preparation_window
has_pressure c none window = false
has_pressure c (some tokens) none = false
has_pressure c (some tokens) (some window) =
    ltb 0 window
    && leb (max (min_token_threshold * 100) (preparation_window c window).apply_hundredths)
        (tokens * 100)

abbrev pub is_proactive : AutoTriggerStrategy → Bool
is_proactive background = true
is_proactive settled = true
is_proactive native_hook = false

-- `ctx.isIdle()` and `ctx.hasPendingMessages()`
pub record HostState : Type 0 where
  pub view : View
  pub is_idle : Bool
  pub has_pending_messages : Bool

abbrev pub is_cooling : (cooldown_ms now : ℕ) → Option ℕ → Bool
is_cooling cooldown_ms now none = false
is_cooling cooldown_ms now (some start) = ltb (now - start) cooldown_ms

-- The guards of `request`. A clock that stepped back is within the cooldown, as in the source,
-- where the cooldown is not 0.
unfoldable pub admits : (cooldown_ms : ℕ) → SettledAutoTrigger → HostState → Bool
unfolding has_pressure
admits cooldown_ms s h =
    let v = h.view in
    v.config.auto_trigger
    && is_proactive v.config.strategy
    && not (v.is_unresolved || is_some (lookup String_discrete v.session_id s.active))
    && has_pressure v.config v.tokens v.window
    && not
        (is_cooling cooldown_ms v.now (lookup String_discrete v.session_id s.cooldown_started_at))
    && (h.is_idle && not h.has_pending_messages)

abbrev pub opened : SettledAutoTrigger → String → SettledAutoTrigger
opened s id = record s {
  active = set String_discrete s.active id s.next_token;
  requests =
      set ℕ_discrete s.requests s.next_token
        (record { session_id = id; finished = false; can_recover = false });
  next_token = suc s.next_token;
}

unfoldable pub request :
    (cooldown_ms : ℕ) → SettledAutoTrigger → HostState → CompactCall → SettledAutoTrigger
unfolding admits call_back
request cooldown_ms s h call =
    let now = h.view.now in
    if admits cooldown_ms s h
    then conclude now (call_all now (opened s h.view.session_id) s.next_token call.callbacks)
        s.next_token call.result
    else s

pub data Event : Type 0 where
  requested : HostState → CompactCall → Event
  called_back : (now t : ℕ) → Callback → Event
  timed_out : (now : ℕ) → (host_busy : Bool) → (t : ℕ) → Event
  noted : (now : ℕ) → (is_unresolved : Bool) → String → Event
  cleared : String → Event

unfoldable pub after : (cooldown_ms : ℕ) → SettledAutoTrigger → Event → SettledAutoTrigger
unfolding request call_back watch_request note_compaction clear
after cooldown_ms s (requested h call) = request cooldown_ms s h call
after cooldown_ms s (called_back now t c) = call_back now s t c
after cooldown_ms s (timed_out now host_busy t) = watchdog now host_busy s t
after cooldown_ms s (noted now is_unresolved id) = note_compaction now s is_unresolved id
after cooldown_ms s (cleared id) = clear s id

unfoldable pub run : (cooldown_ms : ℕ) → SettledAutoTrigger → List Event → SettledAutoTrigger
unfolding after
run cooldown_ms s [] = s
run cooldown_ms s (e ∷ events) = run cooldown_ms (after cooldown_ms s e) events
