-- ===== src/Trigger/Sound.antt =====
-- The slots of `src/app/settled-auto-trigger.ts` and the requests that hold them.
use pi_smart_compact.Base.{
  ℕ, ◌≡◌, refl, List, String, Bool, true, false, not, ◌&&◌, Option, none, some, is_some, arith, ltb,
  lookup, String_discrete, ℕ_discrete, Bool-cases, inl, inr, subst, if_pos, if_neg,
}
use pi_smart_compact.OrderedMap.{set, delete}
use pi_smart_compact.OrderedMap.Laws.{
  IsDistinct, lookup-set, lookup-delete_ne, lookup-delete_self, delete-IsDistinct, set-IsDistinct,
}
use pi_smart_compact.Trigger.Walk.{Walk, run_keeps, All-of}
use pi_smart_compact.OpenLoops.{is_text}
use pi_smart_compact.Trigger.{
  Request, Report, SettledAutoTrigger, create_settled_auto_trigger, note_compaction, clear,
  put_request, is_token, release_slot, finish_request, finish, report, recover, set_recovery,
  opened, Event, run,
}

abbrev pub is_running : Option Request → String → Bool
is_running none id = false
is_running (some r) id = is_text r.session_id id && not r.finished

abbrev pub is_kept : SettledAutoTrigger → String → Option ℕ → Bool
is_kept s id none = true
is_kept s id (some t) = is_running (lookup ℕ_discrete t s.requests) id

pub record IsSound (s : SettledAutoTrigger) : Type 0 where
  pub distinct : IsDistinct String_discrete s.active
  pub kept : (id : String) → is_kept s id (lookup String_discrete id s.active) ≡ true
  pub issued : (t : ℕ) → is_some (lookup ℕ_discrete t s.requests) ≡ ltb t s.next_token

pub create-IsSound : IsSound create_settled_auto_trigger
unfolding create_settled_auto_trigger lookup
create-IsSound = record { distinct = tt; kept = λ id. refl; issued = λ t. ground arith }

is_kept-delete :
    (s : SettledAutoTrigger) (id k : String)
    → IsSound s
    → is_kept s k (lookup String_discrete k (delete String_discrete s.active id)) ≡ true
is_kept-delete s id k h = elim (String_discrete k id) [
  | yes p ↦ ground (arith, lookup-delete_self String_discrete s.active k h.distinct)
  | no p ↦ rw (lookup-delete_ne String_discrete s.active k id p) (h.kept k)
]

pub clear-IsSound : (s : SettledAutoTrigger) (id : String) → IsSound s → IsSound (clear s id)
unfolding clear
clear-IsSound s id h = record {
  distinct = delete-IsDistinct String_discrete s.active id h.distinct;
  kept = λ k. is_kept-delete s id k h;
  issued = h.issued;
}

pub kept_at :
    (s : SettledAutoTrigger) (k : String) (o : Option ℕ)
    → IsSound s
    → lookup String_discrete k s.active ≡ o
    → is_kept s k o ≡ true
kept_at s k o h e = subst (λ x. is_kept s k x ≡ true) e (h.kept k)

module _ (s : SettledAutoTrigger) (h : IsSound s) (now t : ℕ) (r : Request)
    (at : lookup ℕ_discrete t s.requests ≡ some r) where
  issued-put :
      (q : Request) (u : ℕ)
      → is_some (lookup ℕ_discrete u (set ℕ_discrete s.requests t q)) ≡ ltb u s.next_token
  issued-put q u = rw (lookup-set ℕ_discrete s.requests u t q) (ground (arith, h.issued u, at))

  is_kept-put :
      (q : Request) (k : String) (o : Option ℕ)
      → lookup String_discrete k s.active ≡ o
      → (o ≡ some t → is_running (some q) k ≡ true)
      → is_kept (put_request s t q) k o ≡ true
  is_kept-put q k none e f = refl
  is_kept-put q k (some u) e f =
      let kept : is_kept s k (some u) ≡ true = kept_at s k (some u) h e in
      rw (lookup-set ℕ_discrete s.requests u t q) (ground (arith, kept, f))

  put_recovery-IsSound : (b : Bool) → IsSound (put_request s t (record r { can_recover = b }))
  put_recovery-IsSound b = record {
    distinct = h.distinct;
    kept = λ k. is_kept-put _ k _ refl λ e.
        let kept : is_kept s k (some t) ≡ true = kept_at s k (some t) h e in
        ground (arith, kept, at);
    issued = issued-put _;
  }

  release_slot-IsSound :
      IsSound (release_slot now (put_request s t (record r { finished = true })) t r.session_id)
  unfolding release_slot
  release_slot-IsSound =
      elim (Bool-cases (is_token (lookup String_discrete r.session_id s.active) t)) [
        | inl mine ↦ rw mine record {
          distinct = delete-IsDistinct String_discrete s.active r.session_id h.distinct;
          kept = λ k. elim (String_discrete k r.session_id) [
            | yes p ↦ ground (arith, lookup-delete_self String_discrete s.active k h.distinct)
            | no p ↦ rw (lookup-delete_ne String_discrete s.active k r.session_id p) (
                is_kept-put _ k _ refl λ e.
                  let kept : is_kept s k (some t) ≡ true = kept_at s k (some t) h e in
                  ground (arith, kept, at, p))
          ];
          issued = issued-put _;
        }
        | inr other ↦ rw other record {
          distinct = h.distinct;
          kept = λ k. is_kept-put _ k _ refl λ e.
              let kept : is_kept s k (some t) ≡ true = kept_at s k (some t) h e in
              ground (arith, kept, at, other, e);
          issued = issued-put _;
        }
      ]

finish_request-IsSound :
    (now : ℕ) (s : SettledAutoTrigger) (t : ℕ) (o : Option Request)
    → lookup ℕ_discrete t s.requests ≡ o
    → IsSound s
    → IsSound (finish_request now s t o)
unfolding finish_request
finish_request-IsSound now s t none e h = h
finish_request-IsSound now s t (some r) e h = elim (Bool-cases r.finished) [
  | inl over ↦ rw over h
  | inr runs ↦ rw runs (release_slot-IsSound s h now t r e)
]

pub finish-IsSound :
    (now : ℕ) (s : SettledAutoTrigger) (t : ℕ) → IsSound s → IsSound (finish now s t)
finish-IsSound now s t h = finish_request-IsSound now s t _ refl h

pub report-IsSound : (s : SettledAutoTrigger) (r : Report) → IsSound s → IsSound (report s r)
report-IsSound s r h = record { distinct = h.distinct; kept = h.kept; issued = h.issued }

recover-IsSound : (s : SettledAutoTrigger) (t : ℕ) (b : Bool) → IsSound s → IsSound (recover s t b)
recover-IsSound s t false h = h
recover-IsSound s t true h = record { distinct = h.distinct; kept = h.kept; issued = h.issued }

set_recovery-IsSound :
    (s : SettledAutoTrigger) (t : ℕ) (b : Bool) (o : Option Request)
    → lookup ℕ_discrete t s.requests ≡ o
    → IsSound s
    → IsSound (set_recovery s t b o)
set_recovery-IsSound s t b none e h = h
set_recovery-IsSound s t b (some r) e h = put_recovery-IsSound s h 0 t r e b

is_kept-opened :
    (s : SettledAutoTrigger) (id k : String) (o : Option ℕ)
    → IsSound s
    → lookup String_discrete k s.active ≡ o
    → is_kept (opened s id) k o ≡ true
is_kept-opened s id k none h e = refl
is_kept-opened s id k (some t) h e =
    let kept : is_kept s k (some t) ≡ true = kept_at s k (some t) h e in
    let fresh : is_some (lookup ℕ_discrete s.next_token s.requests) ≡ false =
      ground (arith, h.issued s.next_token) in
    rw
      (lookup-set ℕ_discrete s.requests t s.next_token
        (record { session_id = id; finished = false; can_recover = false }))
      (ground (arith, kept, fresh))

opened-IsSound : (s : SettledAutoTrigger) (id : String) → IsSound s → IsSound (opened s id)
opened-IsSound s id h = record {
  distinct = set-IsDistinct String_discrete s.active id s.next_token h.distinct;
  kept = λ k. elim (String_discrete k id) [
    | yes p ↦
        rw
          (
            lookup-set String_discrete s.active k id s.next_token,
            if_pos _ p,
            lookup-set ℕ_discrete s.requests s.next_token s.next_token
                (record { session_id = id; finished = false; can_recover = false }),
          )
          (ground arith)
    | no p ↦
        rw (lookup-set String_discrete s.active k id s.next_token, if_neg _ p)
          (is_kept-opened s id k _ h refl)
  ];
  issued = λ u.
      rw
        (lookup-set ℕ_discrete s.requests u s.next_token
          (record { session_id = id; finished = false; can_recover = false }))
        (ground (arith, h.issued u));
}

note_compaction-IsSound :
    (now : ℕ) (s : SettledAutoTrigger) (is_unresolved : Bool) (id : String)
    → IsSound s
    → IsSound (note_compaction now s is_unresolved id)
unfolding note_compaction
note_compaction-IsSound now s true id h = h
note_compaction-IsSound now s false id h = record {
  distinct = h.distinct;
  kept = h.kept;
  issued = h.issued;
}

pub walk-IsSound : Walk (λ s. IsSound s) (λ e. Unit)
walk-IsSound = record {
  finishes = λ now s t h. finish-IsSound now s t h;
  reports_of = λ s r h. report-IsSound s r h;
  recovers = λ s t b h. recover-IsSound s t b h;
  sets_recovery = λ s t b h. set_recovery-IsSound s t b _ refl h;
  opens = λ c s v a h. opened-IsSound s v.view.session_id h;
  notes = λ now s u id h. note_compaction-IsSound now s u id h;
  clears = λ s id a h. clear-IsSound s id h;
}

pub run-IsSound :
    (cooldown_ms : ℕ) (events : List Event)
    → IsSound (run cooldown_ms create_settled_auto_trigger events)
run-IsSound c events = run_keeps walk-IsSound c _ events (All-of (λ e. tt) events) create-IsSound
