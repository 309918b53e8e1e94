-- ===== src/Preparation/Spaced.antt =====
-- The time between two attempts to prepare, over every order of calls and promises.
use pi_smart_compact.Base.{
  ℕ, suc, ◌⊎◌, ◌-◌, ◌≤◌, ◌≡◌, ◌≢◌, refl, List, [], ◌∷◌, String, true, false, Option, none, some,
  arith, if◌then◌else◌, Option-cases, inl, inr, ◌∙◌, ap, ◌==◌,
}
use pi_smart_compact.Preparation.{
  DiscardReason, config, cancelled, superseded, MetricsSnapshot, Prepared, Task,
  BackgroundPreparation, create, put_task, metrics_of, record_discard, write_discard, cancel_task,
  cancel, current_task, task_at, stale,
}
use pi_smart_compact.Preparation.Admission.{
  IsInWindow, is_in_window-IsInWindow, may_start-parts, start-cases, drop_invalid-next,
}
use pi_smart_compact.Preparation.Window.{View, enabled, invalidation_reason}
use pi_smart_compact.Preparation.Calls.{
  cooldown_ms, is_recent, is_in_window, cancel_for, drop_invalid, observe, settled_with,
  settle_task, settle, fail, begin, hand_off, take_ready, take_pending, take_task, take, refusal,
  note_handoff_unused, note_compaction, reason_or, Event, observed, began, finished, failed, taken,
  was_cancelled, unused, compacted, after, run,
}

record_discard-attempt :
    (now : ℕ) (s : BackgroundPreparation) (i : ℕ) (task : Task) (reason : DiscardReason)
    (m : Option (String × MetricsSnapshot))
    → (record_discard now s i task reason m).last_attempt ≡ s.last_attempt
unfolding record_discard
record_discard-attempt now s i task reason none = refl
record_discard-attempt now s i task reason (some m) = refl

write_discard-attempt :
    (now : ℕ) (s : BackgroundPreparation) (i : ℕ) (task : Task) (reason : DiscardReason)
    → (write_discard now s i task reason).last_attempt ≡ s.last_attempt
unfolding write_discard
write_discard-attempt now s i task reason =
    record_discard-attempt now s i task reason (metrics_of task.pending)

cancel_task-attempt :
    (now : ℕ) (s : BackgroundPreparation) (reason : DiscardReason) (o : Option (ℕ × Task))
    → (cancel_task now s reason o).last_attempt ≡ s.last_attempt
unfolding cancel_task put_task
cancel_task-attempt now s reason none = refl
cancel_task-attempt now s reason (some (i, old)) =
    let old' = record old { discard_reason = some reason; aborted = true } in
    write_discard-attempt now (put_task (record s { current = none }) i old') i old' reason

cancel-attempt :
    (now : ℕ) (s : BackgroundPreparation) (reason : DiscardReason)
    → (cancel now s reason).last_attempt ≡ s.last_attempt
unfolding cancel
cancel-attempt now s reason = cancel_task-attempt now s reason (current_task s)

drop_for-attempt :
    (now : ℕ) (s : BackgroundPreparation) (o : Option DiscardReason)
    → (cancel_for now s o).last_attempt ≡ s.last_attempt
drop_for-attempt now s none = refl
drop_for-attempt now s (some reason) = cancel-attempt now s reason

drop_invalid-attempt :
    (s : BackgroundPreparation) (v : View) → (drop_invalid s v).last_attempt ≡ s.last_attempt
unfolding drop_invalid
drop_invalid-attempt s v = elim (Option-cases (current_task s)) [
  | inl e ↦ rw (e, drop_invalid) refl
  | inr ((i, task), e) ↦
      rw (e, drop_invalid) (drop_for-attempt v.now s (invalidation_reason task v))
]

settle_task-attempt :
    (now : ℕ) (s : BackgroundPreparation) (i : ℕ) (task : Task) (result : Option Prepared)
    → (settle_task now s i task result).last_attempt ≡ s.last_attempt
unfolding settle_task put_task
settle_task-attempt now s i task result =
    let done = settled_with now task result in
    ground (
      arith,
      write_discard-attempt now (put_task s i done) i done
          (reason_or task.discard_reason superseded),
      cancel-attempt now (put_task s i done) cancelled,
    )

settle-attempt :
    (now : ℕ) (s : BackgroundPreparation) (i : ℕ) (result : Option Prepared)
    → (settle now s i result).last_attempt ≡ s.last_attempt
unfolding settle
settle-attempt now s i result = elim (Option-cases (task_at s i)) [
  | inl e ↦ rw (e, settle) refl
  | inr (task, e) ↦ rw (e, settle) (ground (arith, settle_task-attempt now s i task result))
]

fail-attempt :
    (now : ℕ) (s : BackgroundPreparation) (i : ℕ) → (fail now s i).last_attempt ≡ s.last_attempt
unfolding fail put_task
fail-attempt now s i = elim (Option-cases (task_at s i)) [
  | inl e ↦ rw (e, fail) refl
  | inr (task, e) ↦
      rw (e, fail)
        (ground
          (arith, cancel-attempt now (put_task s i (record task { settled = true })) cancelled))
]

begin-attempt :
    (s : BackgroundPreparation) (v : View) (i : ℕ) → (begin s v i).last_attempt ≡ s.last_attempt
unfolding begin
begin-attempt s v i = elim (Option-cases (task_at s i)) [
  | inl e ↦ rw (e, begin) refl
  | inr (task, e) ↦
      rw (e, begin)
        (ground (
          arith,
          settle-attempt v.now s i none,
          settle-attempt v.now (cancel v.now s config) i none,
          cancel-attempt v.now s config,
        ))
]

hand_off-attempt :
    (now : ℕ) (s : BackgroundPreparation) (i : ℕ) (task : Task) (run_id : String)
    (o : Option Prepared)
    → (hand_off now s i task run_id o).0.last_attempt ≡ s.last_attempt
unfolding hand_off
hand_off-attempt now s i task run_id none = write_discard-attempt now _ i task stale
hand_off-attempt now s i task run_id (some revalidated) = refl

take_ready-attempt :
    (s : BackgroundPreparation) (v : View) (i : ℕ) (task : Task) (pending : Prepared)
    (o : Option DiscardReason)
    → (take_ready s v i task pending o).0.last_attempt ≡ s.last_attempt
unfolding take_ready
take_ready-attempt s v i task pending (some reason) = cancel-attempt v.now s reason
take_ready-attempt s v i task pending none = hand_off-attempt v.now s i task pending.run_id _

take_pending-attempt :
    (s : BackgroundPreparation) (v : View) (i : ℕ) (task : Task) (o : Option Prepared)
    → (take_pending s v i task o).0.last_attempt ≡ s.last_attempt
unfolding take_pending
take_pending-attempt s v i task none = cancel-attempt v.now s cancelled
take_pending-attempt s v i task (some pending) =
    take_ready-attempt s v i task pending (refusal task pending v)

take_task-attempt :
    (s : BackgroundPreparation) (v : View) (o : Option (ℕ × Task))
    → (take_task s v o).0.last_attempt ≡ s.last_attempt
unfolding take_task
take_task-attempt s v none = refl
take_task-attempt s v (some (i, task)) = take_pending-attempt s v i task task.pending

unused-attempt :
    (now : ℕ) (s : BackgroundPreparation) (run_id : String) (reason : DiscardReason)
    → (note_handoff_unused now s run_id reason).last_attempt ≡ s.last_attempt
unfolding note_handoff_unused
unused-attempt now s run_id reason = elim (Option-cases s.handed_off) [
  | inl e ↦ rw (e, note_handoff_unused) refl
  | inr ((was, i), e) ↦
      rw (e, note_handoff_unused)
        (elim (Option-cases (task_at s i)) [
          | inl f ↦ ground (arith, f)
          | inr (task, f) ↦
              ground
                (arith, f, write_discard-attempt now (record s { handed_off = none }) i task reason)
        ])
]

-- An observation starts no task and leaves the last attempt, or it starts one and is it.
observe-attempt :
    (s : BackgroundPreparation) (v : View)
    → (((observe s v).next_task ≡ s.next_task) × ((observe s v).last_attempt ≡ s.last_attempt))
      ⊎ (((observe s v).next_task ≡ suc s.next_task)
          × ((observe s v).last_attempt ≡ some (v.session_id, v.now))
          × ((observe s v).current ≡ some s.next_task)
          × (is_recent s.last_attempt v ≡ false)
          × (is_in_window v ≡ true)
          × (enabled v.config ≡ true))
unfolding observe
observe-attempt s v =
    let s' = drop_invalid s v in
    let next = drop_invalid-next s v in
    let same = drop_invalid-attempt s v in
    elim (start-cases s' v) [
      | inl (kept, still) ↦ inl (kept ∙ next, still ∙ same)
      | inr (more, mine, tried, may) ↦
          let (free, on, late, within) = may_start-parts s' v may in
          inr (more ∙ ap suc next, tried, mine ∙ ap some next, rw same at late, within, on)
    ]

-- The last attempt after an event, of the one before: a compaction, or an observation that starts a
-- task.
abbrev tried : BackgroundPreparation → Event → Option (String × ℕ) → Option (String × ℕ)
tried s (observed v) w =
    if (observe s v).next_task == s.next_task then w else some (v.session_id, v.now)
tried s (compacted now session_id) w = some (session_id, now)
tried s _ w = w

abbrev pub last_try : BackgroundPreparation → List Event → Option (String × ℕ) → Option (String × ℕ)
last_try s [] w = w
last_try s (e ∷ events) w = last_try (after s e) events (tried s e w)

after-tried :
    (s : BackgroundPreparation) (e : Event) → (after s e).last_attempt ≡ tried s e s.last_attempt
unfolding after take note_compaction
after-tried s (observed v) = elim (observe-attempt s v) [
  | inl (next, same) ↦ ground (arith, next, same)
  | inr (next, mine, current, late, within, on) ↦ ground (arith, next, mine)
]
after-tried s (began v i) = begin-attempt s v i
after-tried s (finished now i result) = settle-attempt now s i result
after-tried s (failed now i) = fail-attempt now s i
after-tried s (taken v) = take_task-attempt s v (current_task s)
after-tried s (was_cancelled now reason) = cancel-attempt now s reason
after-tried s (unused now run_id reason) = unused-attempt now s run_id reason
after-tried s (compacted now session_id) = refl

run-tried :
    (s : BackgroundPreparation) (events : List Event)
    → (run s events).last_attempt ≡ last_try s events s.last_attempt
unfolding run
run-tried s [] = refl
run-tried s (e ∷ events) =
    run-tried (after s e) events ∙ ap (λ w. last_try (after s e) events w) (after-tried s e)

create-tried : create.last_attempt ≡ none
unfolding create
create-tried = refl

-- After any calls and promises, where the last attempt (an observation that started a task, or a
-- compaction) was the session's, an observation of the session starts a task only if the cooldown
-- has passed since; the new task is then current, and the tokens in use are at least the start and
-- below the gate.
pub run-spaced :
    (events : List Event) (v : View) (at : ℕ)
    → last_try create events none ≡ some (v.session_id, at)
    → (observe (run create events) v).next_task ≢ (run create events).next_task
    → (cooldown_ms ≤ v.now - at)
      × ((observe (run create events) v).current ≡ some (run create events).next_task)
      × IsInWindow v
run-spaced events v at last starts =
    let s = run create events in
    let known : s.last_attempt ≡ some (v.session_id, at) =
      run-tried create events ∙ ap (λ w. last_try create events w) create-tried ∙ last in
    elim (observe-attempt s v) [
      | inl (next, same) ↦ absurd (starts next)
      | inr (next, mine, current, late, within, on) ↦
          (ground (arith, known, late), current, is_in_window-IsInWindow v within)
    ]
