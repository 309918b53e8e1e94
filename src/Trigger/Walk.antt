-- ===== src/Trigger/Walk.antt =====
-- The small steps that the events of `src/app/settled-auto-trigger.ts` are made of.
use pi_smart_compact.Base.{
  ℕ, ◌≡◌, List, [], ◌∷◌, String, Bool, true, Option, none, some, lookup, String_discrete,
  ℕ_discrete, Bool-cases, inl, inr, All,
}
use pi_smart_compact.Trigger.{
  Request, Report, no_callback, apply_failed, SettledAutoTrigger, note_compaction, clear, is_token,
  finish, report, recover, watch_request, Callback, completed, failed, call_back, CompactResult,
  threw, returned, CompactCall, set_recovery, call_all, conclude, HostState, admits, opened,
  request, Event, requested, called_back, timed_out, noted, cleared, after, run,
}

pub All-of {ℓ κ} : {A : Type ℓ} {P : A → Type κ} → ((a : A) → P a) → (items : List A) → All P items
All-of f [] = tt
All-of f (a ∷ items) = (f a, All-of f items)

-- The small steps keep `P`, a `clear` where the event is allowed.
pub record Walk (P : SettledAutoTrigger → Type 0) (Allowed : Event → Type 0) : Type 0 where
  pub finishes : (now : ℕ) (s : SettledAutoTrigger) (t : ℕ) → P s → P (finish now s t)
  pub reports_of : (s : SettledAutoTrigger) (r : Report) → P s → P (report s r)
  pub recovers : (s : SettledAutoTrigger) (t : ℕ) (b : Bool) → P s → P (recover s t b)
  pub sets_recovery :
      (s : SettledAutoTrigger) (t : ℕ) (b : Bool)
      → P s
      → P (set_recovery s t b (lookup ℕ_discrete t s.requests))
  pub opens :
      (cooldown_ms : ℕ) (s : SettledAutoTrigger) (v : HostState)
      → admits cooldown_ms s v ≡ true
      → P s
      → P (opened s v.view.session_id)
  pub notes :
      (now : ℕ) (s : SettledAutoTrigger) (is_unresolved : Bool) (id : String)
      → P s
      → P (note_compaction now s is_unresolved id)
  pub clears : (s : SettledAutoTrigger) (id : String) → Allowed (cleared id) → P s → P (clear s id)

module _ {P : SettledAutoTrigger → Type 0} {Allowed : Event → Type 0} (w : Walk P Allowed) where
  watch_request_keeps :
      (now : ℕ) (host_busy : Bool) (s : SettledAutoTrigger) (t : ℕ) (o : Option Request)
      → P s
      → P (watch_request now host_busy s t o)
  unfolding watch_request
  watch_request_keeps now host_busy s t none h = h
  watch_request_keeps now host_busy s t (some r) h = elim (Bool-cases r.finished) [
    | inl over ↦ rw over h
    | inr runs ↦ elim (Bool-cases (is_token (lookup String_discrete r.session_id s.active) t)) [
      | inr other ↦ rw (runs, other) (w.finishes now s t h)
      | inl mine ↦
          rw (runs, mine)
            (w.finishes now _ t
              (w.recovers _ t r.can_recover (w.reports_of s (no_callback host_busy) h)))
    ]
  ]

  call_back_keeps :
      (now : ℕ) (s : SettledAutoTrigger) (t : ℕ) (c : Callback) → P s → P (call_back now s t c)
  unfolding call_back
  call_back_keeps now s t completed h = w.finishes now s t h
  call_back_keeps now s t failed h = w.finishes now _ t (w.reports_of s apply_failed h)

  call_all_keeps :
      (now : ℕ) (s : SettledAutoTrigger) (t : ℕ) (cs : List Callback)
      → P s
      → P (call_all now s t cs)
  call_all_keeps now s t [] h = h
  call_all_keeps now s t (c ∷ cs) h =
      call_all_keeps now (call_back now s t c) t cs (call_back_keeps now s t c h)

  conclude_keeps :
      (now : ℕ) (s : SettledAutoTrigger) (t : ℕ) (result : CompactResult)
      → P s
      → P (conclude now s t result)
  conclude_keeps now s t threw h = w.finishes now _ t (w.reports_of s apply_failed h)
  conclude_keeps now s t (returned b) h = w.sets_recovery s t b h

  request_keeps :
      (cooldown_ms : ℕ) (s : SettledAutoTrigger) (v : HostState) (call : CompactCall)
      → P s
      → P (request cooldown_ms s v call)
  unfolding request
  request_keeps cooldown_ms s v call h = elim (Bool-cases (admits cooldown_ms s v)) [
    | inr shut ↦ rw shut h
    | inl admitted ↦ rw admitted (
        conclude_keeps _ _ s.next_token call.result
          (call_all_keeps _ _ s.next_token call.callbacks (w.opens cooldown_ms s v admitted h)))
  ]

  pub after_keeps :
      (cooldown_ms : ℕ) (s : SettledAutoTrigger) (e : Event)
      → Allowed e
      → P s
      → P (after cooldown_ms s e)
  unfolding after
  after_keeps c s (requested v call) a h = request_keeps c s v call h
  after_keeps c s (called_back now t callback) a h = call_back_keeps now s t callback h
  after_keeps c s (timed_out now host_busy t) a h = watch_request_keeps now host_busy s t _ h
  after_keeps c s (noted now is_unresolved id) a h = w.notes now s is_unresolved id h
  after_keeps c s (cleared id) a h = w.clears s id a h

  pub run_keeps :
      (cooldown_ms : ℕ) (s : SettledAutoTrigger) (events : List Event)
      → All Allowed events
      → P s
      → P (run cooldown_ms s events)
  unfolding run
  run_keeps c s [] a h = h
  run_keeps c s (e ∷ events) a h = run_keeps c (after c s e) events a.1 (after_keeps c s e a.0 h)
