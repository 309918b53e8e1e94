-- ===== src/Trigger/Cooldown.antt =====
-- The cooldown that `src/app/settled-auto-trigger.ts` starts when a request ends.
use pi_smart_compact.Base.{
  ℕ, ◌-◌, ◌<◌, ◌≡◌, refl, List, String, Bool, true, false, Option, none, some, arith, lookup,
  String_discrete, ℕ_discrete, subst,
}
use pi_smart_compact.OrderedMap.Laws.{lookup-set}
use pi_smart_compact.Trigger.{
  Request, SettledAutoTrigger, create_settled_auto_trigger, is_token, release_slot, finish_request,
  finish, report, recover, watch_request, completed, failed, call_back, CompactCall, no_callback,
  apply_failed, Event, requested, called_back, timed_out, noted, cleared, after, run, HostState,
  admits, request,
}
use pi_smart_compact.Trigger.Sound.{run-IsSound, kept_at, is_running}
use pi_smart_compact.Trigger.Freed.{ends, recover-requests}

abbrev pub time_of : Event → ℕ
time_of (requested h call) = h.view.now
time_of (called_back now u c) = now
time_of (timed_out now host_busy u) = now
time_of (noted now is_unresolved id) = now
time_of (cleared id) = 0

module _ (s : SettledAutoTrigger) (t : ℕ) (r : Request) (runs : r.finished ≡ false)
    (at : lookup ℕ_discrete t s.requests ≡ some r)
    (mine : is_token (lookup String_discrete r.session_id s.active) t ≡ true) where
  finish-cools :
      (now : ℕ)
      → lookup String_discrete r.session_id (finish now s t).cooldown_started_at ≡ some now
  unfolding finish_request release_slot
  finish-cools now =
      rw
        (
          at,
          runs,
          mine,
          lookup-set String_discrete s.cooldown_started_at r.session_id r.session_id now,
        )
        (ground arith)

finish_after-cools :
    (s q : SettledAutoTrigger) (t : ℕ) (r : Request) (now : ℕ)
    → q.requests ≡ s.requests
    → q.active ≡ s.active
    → r.finished ≡ false
    → lookup ℕ_discrete t s.requests ≡ some r
    → is_token (lookup String_discrete r.session_id s.active) t ≡ true
    → lookup String_discrete r.session_id (finish now q t).cooldown_started_at ≡ some now
finish_after-cools s q t r now e f runs at mine = finish-cools q t r runs (rw e at) (rw f mine) now

recover-active : (s : SettledAutoTrigger) (t : ℕ) (b : Bool) → (recover s t b).active ≡ s.active
recover-active s t false = refl
recover-active s t true = refl

after-cools :
    (cooldown_ms : ℕ) (s : SettledAutoTrigger) (e : Event) (t : ℕ) (r : Request)
    → ends e t ≡ true
    → r.finished ≡ false
    → lookup ℕ_discrete t s.requests ≡ some r
    → is_token (lookup String_discrete r.session_id s.active) t ≡ true
    → lookup String_discrete r.session_id (after cooldown_ms s e).cooldown_started_at
      ≡ some (time_of e)
unfolding after call_back watch_request
after-cools c s (requested v call) t r i runs at mine = absurd (ground arith)
after-cools c s (called_back now u completed) t r i runs at mine =
    let same : u ≡ t = ground arith in rw same (finish-cools s t r runs at mine now)
after-cools c s (called_back now u failed) t r i runs at mine =
    let same : u ≡ t = ground arith in
    rw same (finish_after-cools s (report s apply_failed) t r now refl refl runs at mine)
after-cools c s (timed_out now host_busy u) t r i runs at mine =
    let same : u ≡ t = ground arith in
    let reported = report s (no_callback host_busy) in
    rw (same, at, runs, mine)
      (finish_after-cools s (recover reported t r.can_recover) t r now
        (recover-requests reported t r.can_recover) (recover-active reported t r.can_recover) runs
        at mine)
after-cools c s (noted now is_unresolved id) t r i runs at mine = absurd (ground arith)
after-cools c s (cleared id) t r i runs at mine = absurd (ground arith)

request-cooling :
    (cooldown_ms : ℕ) (s : SettledAutoTrigger) (v : HostState) (call : CompactCall) (start : ℕ)
    → lookup String_discrete v.view.session_id s.cooldown_started_at ≡ some start
    → v.view.now - start < cooldown_ms
    → request cooldown_ms s v call ≡ s
unfolding request admits
request-cooling c s v call start e early =
    let shut : admits c s v ≡ false = ground (arith, e, early) in rw shut refl

-- After any events, once the callback or the timer of the request that holds a session's slot has
-- fired, a request of the session does nothing where the time since then is under the cooldown.
pub run-cools :
    (cooldown_ms : ℕ) (before : List Event) (e : Event) (t : ℕ) (v : HostState) (call : CompactCall)
    → lookup String_discrete v.view.session_id
        (run cooldown_ms create_settled_auto_trigger before).active
      ≡ some t
    → ends e t ≡ true
    → v.view.now - time_of e < cooldown_ms
    → let s = after cooldown_ms (run cooldown_ms create_settled_auto_trigger before) e in
      request cooldown_ms s v call ≡ s
run-cools c before e t v call holds ending early =
    let s = run c create_settled_auto_trigger before in
    let id = v.view.session_id in
    let (r, at, runs, of) =
      running_of (lookup ℕ_discrete t s.requests) id
        (kept_at s id (some t) (run-IsSound c before) holds) in
    request-cooling c (after c s e) v call (time_of e)
      (subst (λ x. lookup String_discrete x (after c s e).cooldown_started_at ≡ some (time_of e)) of
        (after-cools c s e t r ending runs at (rw (of, holds) (ground arith))))
      early
  where
    running_of :
        (o : Option Request) (id : String)
        → is_running o id ≡ true
        → (r : Request) × (o ≡ some r) × (r.finished ≡ false) × (r.session_id ≡ id)
    running_of none id h = absurd (ground arith)
    running_of (some r) id h = (r, refl, ground arith, ground arith)
