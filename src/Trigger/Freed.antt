-- ===== src/Trigger/Freed.antt =====
-- The requests of `src/app/settled-auto-trigger.ts` whose callback or timer has fired.
use pi_smart_compact.Base.{
  ℕ, ◌≡◌, ◌≢◌, ◌<◌, refl, List, String, Bool, true, false, Option, none, some, is_some, arith, ◌==◌,
  lookup, String_discrete, ℕ_discrete, Bool-cases, inl, inr,
}
use pi_smart_compact.OrderedMap.Laws.{lookup-set}
use pi_smart_compact.Trigger.{
  Request, SettledAutoTrigger, create_settled_auto_trigger, put_request, is_token, release_slot,
  finish_request, report, recover, watch_request, Callback, completed, failed, call_back,
  set_recovery, opened, note_compaction, Event, called_back, timed_out, after, run, no_callback,
  apply_failed, requested, noted, cleared, clear,
}
use pi_smart_compact.Trigger.Walk.{Walk, after_keeps, run_keeps, All-of}
use pi_smart_compact.Trigger.Sound.{IsSound, walk-IsSound, run-IsSound, kept_at, is_kept}

abbrev pub is_finished : Option Request → Bool
is_finished none = false
is_finished (some r) = r.finished

-- The promise of the token's request is resolved.
abbrev pub is_done : SettledAutoTrigger → ℕ → Bool
is_done s t = is_finished (lookup ℕ_discrete t s.requests)

pub release_slot-requests :
    (now : ℕ) (s : SettledAutoTrigger) (t : ℕ) (id : String)
    → (release_slot now s t id).requests ≡ s.requests
unfolding release_slot
release_slot-requests now s t id = ground arith

finish_request-done :
    (now : ℕ) (s : SettledAutoTrigger) (t u : ℕ) (o : Option Request)
    → lookup ℕ_discrete t s.requests ≡ o
    → is_done s u ≡ true
    → is_done (finish_request now s t o) u ≡ true
unfolding finish_request
finish_request-done now s t u none e h = h
finish_request-done now s t u (some r) e h = elim (Bool-cases r.finished) [
  | inl over ↦ rw over h
  | inr runs ↦
      rw
        (
          runs,
          release_slot-requests now (put_request s t (record r { finished = true })) t r.session_id,
          lookup-set ℕ_discrete s.requests u t (record r { finished = true }),
        )
        (ground (arith, h))
]

finish_request-finished :
    (now : ℕ) (s : SettledAutoTrigger) (t : ℕ) (o : Option Request)
    → lookup ℕ_discrete t s.requests ≡ o
    → is_some o ≡ true
    → is_done (finish_request now s t o) t ≡ true
unfolding finish_request
finish_request-finished now s t none e h = absurd (ground arith)
finish_request-finished now s t (some r) e h = elim (Bool-cases r.finished) [
  | inl over ↦ rw over (rw e over)
  | inr runs ↦
      rw
        (
          runs,
          release_slot-requests now (put_request s t (record r { finished = true })) t r.session_id,
          lookup-set ℕ_discrete s.requests t t (record r { finished = true }),
        )
        (ground arith)
]

pub set_recovery-done :
    (s : SettledAutoTrigger) (t u : ℕ) (b : Bool) (o : Option Request)
    → lookup ℕ_discrete t s.requests ≡ o
    → is_done (set_recovery s t b o) u ≡ is_done s u
set_recovery-done s t u b none e = refl
set_recovery-done s t u b (some r) e =
    rw (lookup-set ℕ_discrete s.requests u t (record r { can_recover = b })) (ground (arith, e))

pub recover-requests :
    (s : SettledAutoTrigger) (t : ℕ) (b : Bool) → (recover s t b).requests ≡ s.requests
recover-requests s t false = refl
recover-requests s t true = refl

pub recover-done :
    (s : SettledAutoTrigger) (t u : ℕ) (b : Bool) → is_done (recover s t b) u ≡ is_done s u
recover-done s t u false = refl
recover-done s t u true = refl

note_compaction-done :
    (now : ℕ) (s : SettledAutoTrigger) (is_unresolved : Bool) (id : String) (u : ℕ)
    → is_done (note_compaction now s is_unresolved id) u ≡ is_done s u
unfolding note_compaction
note_compaction-done now s true id u = refl
note_compaction-done now s false id u = refl

opened-done :
    (s : SettledAutoTrigger) (id : String) (u : ℕ)
    → IsSound s
    → is_done s u ≡ true
    → is_done (opened s id) u ≡ true
opened-done s id u h d =
    let fresh : is_some (lookup ℕ_discrete s.next_token s.requests) ≡ false =
      ground (arith, h.issued s.next_token) in
    rw
      (lookup-set ℕ_discrete s.requests u s.next_token
        (record { session_id = id; finished = false; can_recover = false }))
      (ground (arith, fresh, d))

abbrev IsOver : ℕ → SettledAutoTrigger → Type 0
IsOver t s = IsSound s × (is_done s t ≡ true)

walk-IsOver : (t : ℕ) → Walk (λ s. IsOver t s) (λ e. Unit)
unfolding clear
walk-IsOver t =
    let w = walk-IsSound in
    record {
      finishes = λ now s u h. (w.finishes now s u h.0, finish_request-done now s u t _ refl h.1);
      reports_of = λ s r h. (w.reports_of s r h.0, h.1);
      recovers = λ s u b h. (w.recovers s u b h.0, rw (recover-done s u t b) h.1);
      sets_recovery =
          λ s u b h. (w.sets_recovery s u b h.0, rw (set_recovery-done s u t b _ refl) h.1);
      opens = λ c s v a h. (w.opens c s v a h.0, opened-done s v.view.session_id t h.0 h.1);
      notes = λ now s r id h. (w.notes now s r id h.0, rw (note_compaction-done now s r id t) h.1);
      clears = λ s id a h. (w.clears s id a h.0, h.1);
    }

-- The event is a callback for the token's request, or its timer.
abbrev pub ends : Event → ℕ → Bool
ends (called_back now u c) t = u == t
ends (timed_out now host_busy u) t = u == t
ends _ t = false

watch_request-finished :
    (now : ℕ) (host_busy : Bool) (s : SettledAutoTrigger) (t : ℕ) (o : Option Request)
    → lookup ℕ_discrete t s.requests ≡ o
    → is_some o ≡ true
    → is_done (watch_request now host_busy s t o) t ≡ true
unfolding watch_request
watch_request-finished now host_busy s t none e h = absurd (ground arith)
watch_request-finished now host_busy s t (some r) e h = elim (Bool-cases r.finished) [
  | inl over ↦ rw over (rw e over)
  | inr runs ↦ elim (Bool-cases (is_token (lookup String_discrete r.session_id s.active) t)) [
    | inr other ↦ rw (runs, other) (finish_request-finished now s t _ refl (rw e h))
    | inl mine ↦
        let reported = report s (no_callback host_busy) in
        rw (runs, mine)
          (finish_request-finished now (recover reported t r.can_recover) t _ refl
            (rw (recover-requests reported t r.can_recover, e) h))
  ]
]

call_back-finished :
    (now : ℕ) (s : SettledAutoTrigger) (t : ℕ) (c : Callback)
    → is_some (lookup ℕ_discrete t s.requests) ≡ true
    → is_done (call_back now s t c) t ≡ true
unfolding call_back
call_back-finished now s t completed h = finish_request-finished now s t _ refl h
call_back-finished now s t failed h = finish_request-finished now (report s apply_failed) t _ refl h

after-finished :
    (cooldown_ms : ℕ) (s : SettledAutoTrigger) (e : Event) (t : ℕ)
    → ends e t ≡ true
    → is_some (lookup ℕ_discrete t s.requests) ≡ true
    → is_done (after cooldown_ms s e) t ≡ true
unfolding after
after-finished c s (requested v call) t i h = absurd (ground arith)
after-finished c s (called_back now u callback) t i h =
    let same : u ≡ t = ground arith in rw same (call_back-finished now s t callback h)
after-finished c s (timed_out now host_busy u) t i h =
    let same : u ≡ t = ground arith in rw same (watch_request-finished now host_busy s t _ refl h)
after-finished c s (noted now is_unresolved id) t i h = absurd (ground arith)
after-finished c s (cleared id) t i h = absurd (ground arith)

holds_no_slot :
    (s : SettledAutoTrigger) (t : ℕ) (id : String)
    → IsOver t s
    → lookup String_discrete id s.active ≢ some t
holds_no_slot s t id h e =
    let kept : is_kept s id (some t) ≡ true = kept_at s id (some t) h.0 e in
    ground (arith, kept, h.1)

-- However events come, a request whose callback or timer has fired is resolved, and no session's
-- slot is ever its own again: a host that never answers cannot pin a slot past the timer.
pub run-freed :
    (cooldown_ms : ℕ) (before : List Event) (e : Event) (rest : List Event) (t : ℕ)
    → ends e t ≡ true
    → t < (run cooldown_ms create_settled_auto_trigger before).next_token
    → let s =
        run cooldown_ms
          (after cooldown_ms (run cooldown_ms create_settled_auto_trigger before) e)
          rest in
      (is_done s t ≡ true) × ((id : String) → lookup String_discrete id s.active ≢ some t)
run-freed c before e rest t ending issued =
    let sound = run-IsSound c before in
    let s = run c create_settled_auto_trigger before in
    let over = run_keeps (walk-IsOver t) c (after c s e) rest (All-of (λ e. tt) rest) (
      after_keeps walk-IsSound c s e tt sound,
      after-finished c s e t ending (ground (arith, sound.issued t)),
    ) in
    (over.1, λ id. holds_no_slot _ t id over)
