-- ===== src/Trigger/Single.antt =====
-- The requests of a session in `src/app/settled-auto-trigger.ts` that are not resolved.
use pi_smart_compact.Base.{
  ℕ, ◌≡◌, refl, List, String, Bool, true, false, ◌||◌, Option, none, some, arith, lookup,
  String_discrete, ℕ_discrete, Bool-cases, inl, inr, if_pos, if_neg, All, sym, subst,
}
use pi_smart_compact.OrderedMap.Laws.{lookup-set, lookup-delete_ne}
use pi_smart_compact.Trigger.{
  Request, SettledAutoTrigger, create_settled_auto_trigger, put_request, is_token, release_slot,
  finish_request, report, recover, set_recovery, opened, note_compaction, Event, cleared, run,
  HostState, admits,
}
use pi_smart_compact.Trigger.Walk.{Walk, run_keeps}
use pi_smart_compact.Trigger.Freed.{release_slot-requests}
use pi_smart_compact.Trigger.Sound.{IsSound, walk-IsSound, create-IsSound}

abbrev pub is_tight : SettledAutoTrigger → ℕ → Option Request → Bool
is_tight s t none = true
is_tight s t (some r) = r.finished || is_token (lookup String_discrete r.session_id s.active) t

-- A request that runs holds its session's slot.
abbrev pub IsTight : SettledAutoTrigger → Type 0
IsTight s = IsSound s × ((t : ℕ) → is_tight s t (lookup ℕ_discrete t s.requests) ≡ true)

-- The event is no `clear`.
abbrev pub IsNotClear : Event → Type 0
IsNotClear (cleared id) = ⊥
IsNotClear _ = Unit

release_slot-others :
    (now : ℕ) (s : SettledAutoTrigger) (t u : ℕ) (id k : String)
    → (u ≡ t → ⊥)
    → is_token (lookup String_discrete k s.active) u ≡ true
    → is_token (lookup String_discrete k (release_slot now s t id).active) u ≡ true
unfolding release_slot
release_slot-others now s t u id k ne h =
    elim (Bool-cases (is_token (lookup String_discrete id s.active) t)) [
      | inr not_mine ↦ rw not_mine h
      | inl mine ↦ elim (String_discrete k id) [
        | yes p ↦ absurd (
            one_token (lookup String_discrete id s.active) mine
              (subst (λ x. is_token (lookup String_discrete x s.active) u ≡ true) p h))
        | no p ↦ rw (mine, lookup-delete_ne String_discrete s.active k id p) h
      ]
    ]
  where
    one_token : (o : Option ℕ) → is_token o t ≡ true → is_token o u ≡ true → ⊥
    one_token none a b = ground arith
    one_token (some v) a b = ne (ground arith)

put_finished-tight :
    (now : ℕ) (s : SettledAutoTrigger) (t : ℕ) (r : Request) (u : ℕ) (o : Option Request)
    → (u ≡ t → ⊥)
    → is_tight s u o ≡ true
    → is_tight
        (release_slot now (put_request s t (record r { finished = true })) t r.session_id)
        u
        o
      ≡ true
put_finished-tight now s t r u none ne h = refl
put_finished-tight now s t r u (some q) ne h = elim (Bool-cases q.finished) [
  | inl over ↦ rw over refl
  | inr runs ↦ rw runs (
      release_slot-others now (put_request s t (record r { finished = true })) t u r.session_id
        q.session_id ne (rw runs at h))
]

same_active :
    (s q : SettledAutoTrigger) (u : ℕ) (o : Option Request)
    → q.active ≡ s.active
    → is_tight s u o ≡ true
    → is_tight q u o ≡ true
same_active s q u none e h = refl
same_active s q u (some r) e h = rw e h

finish_request-tight :
    (now : ℕ) (s : SettledAutoTrigger) (t : ℕ) (o : Option Request)
    → lookup ℕ_discrete t s.requests ≡ o
    → IsTight s
    → (u : ℕ)
    → is_tight
        (finish_request now s t o)
        u
        (lookup ℕ_discrete u (finish_request now s t o).requests)
      ≡ true
unfolding finish_request
finish_request-tight now s t none e h u = h.1 u
finish_request-tight now s t (some r) e h u = elim (Bool-cases r.finished) [
  | inl over ↦ rw over (h.1 u)
  | inr runs ↦ elim (ℕ_discrete u t) [
    | yes p ↦
        rw
          (
            runs,
            release_slot-requests now (put_request s t (record r { finished = true })) t
                r.session_id,
            lookup-set ℕ_discrete s.requests u t (record r { finished = true }),
            if_pos _ p,
          )
          refl
    | no p ↦
        rw
          (
            runs,
            release_slot-requests now (put_request s t (record r { finished = true })) t
                r.session_id,
            lookup-set ℕ_discrete s.requests u t (record r { finished = true }),
            if_neg _ p,
          )
          (put_finished-tight now s t r u _ p (h.1 u))
  ]
]

set_recovery-tight :
    (s : SettledAutoTrigger) (t : ℕ) (b : Bool) (o : Option Request)
    → lookup ℕ_discrete t s.requests ≡ o
    → IsTight s
    → (u : ℕ)
    → is_tight (set_recovery s t b o) u (lookup ℕ_discrete u (set_recovery s t b o).requests) ≡ true
set_recovery-tight s t b none e h u = h.1 u
set_recovery-tight s t b (some r) e h u =
    let tight_at : (x : Option Request)
        → lookup ℕ_discrete t s.requests ≡ x
        → is_tight s t x ≡ true =
      λ x q. subst (λ x. is_tight s t x ≡ true) q (h.1 t) in
    elim (ℕ_discrete u t) [
      | yes p ↦
          rw (lookup-set ℕ_discrete s.requests u t (record r { can_recover = b }), if_pos _ p, p)
            (tight_at (some r) e)
      | no p ↦
          rw (lookup-set ℕ_discrete s.requests u t (record r { can_recover = b }), if_neg _ p)
            (same_active s (set_recovery s t b (some r)) u _ refl (h.1 u))
    ]

note_compaction-tight :
    (now : ℕ) (s : SettledAutoTrigger) (is_unresolved : Bool) (id : String)
    → IsTight s
    → (u : ℕ)
    → is_tight
        (note_compaction now s is_unresolved id)
        u
        (lookup ℕ_discrete u (note_compaction now s is_unresolved id).requests)
      ≡ true
unfolding note_compaction
note_compaction-tight now s true id h u = h.1 u
note_compaction-tight now s false id h u =
    same_active s (note_compaction now s false id) u _ refl (h.1 u)

recover-tight :
    (s : SettledAutoTrigger) (t : ℕ) (b : Bool)
    → IsTight s
    → (u : ℕ) → is_tight (recover s t b) u (lookup ℕ_discrete u (recover s t b).requests) ≡ true
recover-tight s t false h u = h.1 u
recover-tight s t true h u = same_active s (recover s t true) u _ refl (h.1 u)

abbrev fresh_request : String → Request
fresh_request id = record { session_id = id; finished = false; can_recover = false }

opened_other-tight :
    (s : SettledAutoTrigger) (id : String) (u : ℕ) (o : Option Request)
    → lookup String_discrete id s.active ≡ none
    → is_tight s u o ≡ true
    → is_tight (opened s id) u o ≡ true
opened_other-tight s id u none free h = refl
opened_other-tight s id u (some r) free h = elim (String_discrete r.session_id id) [
  | yes p ↦
      let over : (r.finished || is_token (lookup String_discrete id s.active) u) ≡ true =
        subst (λ x. (r.finished || is_token (lookup String_discrete x s.active) u) ≡ true) p h in
      let done : r.finished ≡ true = ground (arith, over, free) in rw done refl
  | no p ↦ rw (lookup-set String_discrete s.active r.session_id id s.next_token, if_neg _ p) h
]

opened-tight :
    (s : SettledAutoTrigger) (id : String)
    → lookup String_discrete id s.active ≡ none
    → IsTight s
    → (u : ℕ) → is_tight (opened s id) u (lookup ℕ_discrete u (opened s id).requests) ≡ true
opened-tight s id free h u = elim (ℕ_discrete u s.next_token) [
  | yes p ↦
      rw
        (
          lookup-set ℕ_discrete s.requests u s.next_token (fresh_request id),
          if_pos _ p,
          lookup-set String_discrete s.active id id s.next_token,
          p,
        )
        (ground arith)
  | no p ↦
      rw (lookup-set ℕ_discrete s.requests u s.next_token (fresh_request id), if_neg _ p)
        (opened_other-tight s id u _ free (h.1 u))
]

admits-free :
    (cooldown_ms : ℕ) (s : SettledAutoTrigger) (v : HostState)
    → admits cooldown_ms s v ≡ true
    → lookup String_discrete v.view.session_id s.active ≡ none
unfolding admits
admits-free cooldown_ms s v h = ground arith

walk-IsTight : Walk (λ s. IsTight s) IsNotClear
walk-IsTight =
    let w = walk-IsSound in
    record {
      finishes = λ now s t h. (w.finishes now s t h.0, finish_request-tight now s t _ refl h);
      reports_of =
          λ s r h. (w.reports_of s r h.0, λ u. same_active s (report s r) u _ refl (h.1 u));
      recovers = λ s t b h. (w.recovers s t b h.0, recover-tight s t b h);
      sets_recovery = λ s t b h. (w.sets_recovery s t b h.0, set_recovery-tight s t b _ refl h);
      opens = λ c s v a h.
          (w.opens c s v a h.0, opened-tight s v.view.session_id (admits-free c s v a) h);
      notes = λ now s r id h. (w.notes now s r id h.0, note_compaction-tight now s r id h);
      clears = λ s id a h. absurd a;
    }

create-IsTight : IsTight create_settled_auto_trigger
unfolding create_settled_auto_trigger lookup
create-IsTight = (create-IsSound, λ t. refl)

-- Along every sequence of events without a `clear`, two requests of one session that are both not
-- resolved are the same request.
pub run-one_at_a_time :
    (cooldown_ms : ℕ) (events : List Event)
    → All IsNotClear events
    → let s = run cooldown_ms create_settled_auto_trigger events in
      (t u : ℕ) (r q : Request)
      → lookup ℕ_discrete t s.requests ≡ some r
      → lookup ℕ_discrete u s.requests ≡ some q
      → r.finished ≡ false
      → q.finished ≡ false
      → r.session_id ≡ q.session_id
      → t ≡ u
run-one_at_a_time c events quiet t u r q at_t at_u runs_t runs_u same =
    let s = run c create_settled_auto_trigger events in
    let h = run_keeps walk-IsTight c create_settled_auto_trigger events quiet create-IsTight in
    let tight_t : is_tight s t (some r) ≡ true = subst (λ x. is_tight s t x ≡ true) at_t (h.1 t) in
    let tight_u : is_tight s u (some q) ≡ true = subst (λ x. is_tight s u x ≡ true) at_u (h.1 u) in
    one_holder (lookup String_discrete r.session_id s.active) (ground (arith, tight_t, runs_t)) (
      subst (λ x. is_token (lookup String_discrete x s.active) u ≡ true) (sym same)
        (ground (arith, tight_u, runs_u)))
  where
    one_holder : (o : Option ℕ) → is_token o t ≡ true → is_token o u ≡ true → t ≡ u
    one_holder none a b = ground arith
    one_holder (some v) a b = ground arith
