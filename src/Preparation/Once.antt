-- ===== src/Preparation/Once.antt =====
-- The cost of a prepared summary is recorded once.
use pi_smart_compact.Base.{
  ℕ, ◌+◌, ◌≤◌, ◌≡◌, refl, List, [], ◌∷◌, String, true, false, ◌||◌, not, Option, none, some, arith,
  is_some, lookup, ℕ_discrete, ap, Option-cases, Bool-cases, inl, inr,
}
use pi_smart_compact.OrderedMap.Laws.{lookup-set}
use pi_smart_compact.OpenLoops.{is_text}
use pi_smart_compact.Preparation.{
  DiscardReason, config, superseded, cancelled, Prepared, Task, BackgroundPreparation, create,
  task_at, put_task, metrics_of, write_discard, cancel, current_task,
}
use pi_smart_compact.Preparation.Window.{View, invalidation_reason}
use pi_smart_compact.Preparation.Calls.{
  is_id, settled_with, new_task, last_id, may_start, cancel_for, refusal, take_ready, take_pending,
  take_task, reason_or, settle_task, drop_invalid, start, observe, settle, fail, begin, take,
  note_handoff_unused, supersede, note_compaction, Event, observed, began, finished, failed, taken,
  was_cancelled, unused, compacted, after, run,
}
use pi_smart_compact.Preparation.Weight.{
  one_if, count, is_handed, once, IsOnce, record_discard-fields, current_task-some, cancel-IsOnce,
  hand_off-IsOnce,
}

module _ (s : BackgroundPreparation) (i : ℕ) (task : Task) (current : s.current ≡ some i)
    (at : task_at s i ≡ some task) where
  take_pending-IsOnce :
      (v : View) (o : Option Prepared) (k : ℕ)
      → task.pending ≡ o
      → IsOnce s k
      → IsOnce (take_pending s v i task o).0 k
  unfolding take_pending take_ready
  take_pending-IsOnce v none k p h = cancel-IsOnce v.now s cancelled k h
  take_pending-IsOnce v (some pending) k p h = elim (Option-cases (refusal task pending v)) [
    | inl f ↦ rw f (
        hand_off-IsOnce s i task current at v.now pending.run_id (v.revalidate pending) k
          (ap is_some p) h)
    | inr (reason, f) ↦ rw f (cancel-IsOnce v.now s reason k h)
  ]

cancel_for-IsOnce :
    (now : ℕ) (s : BackgroundPreparation) (o : Option DiscardReason) (k : ℕ)
    → IsOnce s k
    → IsOnce (cancel_for now s o) k
cancel_for-IsOnce now s none k h = h
cancel_for-IsOnce now s (some reason) k h = cancel-IsOnce now s reason k h

drop_invalid-IsOnce :
    (s : BackgroundPreparation) (v : View) (k : ℕ) → IsOnce s k → IsOnce (drop_invalid s v) k
unfolding drop_invalid
drop_invalid-IsOnce s v k h = elim (Option-cases (current_task s)) [
  | inl e ↦ rw (e, drop_invalid) h
  | inr ((i, task), e) ↦
      rw (e, drop_invalid) (cancel_for-IsOnce v.now s (invalidation_reason task v) k h)
]

supersede-IsOnce :
    (now : ℕ) (s : BackgroundPreparation) (id : String) (k : ℕ)
    → IsOnce s k
    → IsOnce (supersede now s id) k
unfolding supersede
supersede-IsOnce now s id k h = elim (Option-cases (current_task s)) [
  | inl e ↦ rw (e, supersede) h
  | inr ((i, task), e) ↦ elim (Bool-cases (is_text task.session_id id)) [
    | inl same ↦ rw (e, same, supersede) (cancel-IsOnce now s superseded k h)
    | inr other ↦ rw (e, other, supersede) h
  ]
]

start-IsOnce : (s : BackgroundPreparation) (v : View) (k : ℕ) → IsOnce s k → IsOnce (start s v) k
unfolding start put_task may_start IsOnce once
start-IsOnce s v k h = elim (Bool-cases (may_start s v)) [
  | inr closed ↦ rw closed h
  | inl opened ↦ elim (Option-cases (last_id none v.branch)) [
    | inl e ↦ rw (opened, e) h
    | inr (origin_id, e) ↦ elim (Bool-cases (is_text origin_id "")) [
      | inl empty ↦ rw (opened, e, empty) h
      | inr named ↦
          rw (opened, e, named, lookup-set ℕ_discrete s.tasks k s.next_task (new_task v origin_id))
            (ground (arith, h))
    ]
  ]
]

take_task-IsOnce :
    (s : BackgroundPreparation) (v : View) (o : Option (ℕ × Task)) (k : ℕ)
    → current_task s ≡ o
    → IsOnce s k
    → IsOnce (take_task s v o).0 k
unfolding take_task
take_task-IsOnce s v none k e h = h
take_task-IsOnce s v (some (i, task)) k e h =
    let (current, at) = current_task-some s i task e in
    take_pending-IsOnce s i task current at v task.pending k refl h

note_handoff_unused-IsOnce :
    (now : ℕ) (s : BackgroundPreparation) (run_id : String) (reason : DiscardReason) (k : ℕ)
    → IsOnce s k
    → IsOnce (note_handoff_unused now s run_id reason) k
unfolding note_handoff_unused write_discard IsOnce once
note_handoff_unused-IsOnce now s run_id reason k h = elim (Option-cases s.handed_off) [
  | inl e ↦ rw (e, note_handoff_unused) h
  | inr ((handed_run, i), e) ↦ elim (Bool-cases (is_text handed_run run_id)) [
    | inr other ↦ rw (e, other, note_handoff_unused) h
    | inl same ↦ elim (Option-cases (task_at s i)) [
      | inl f ↦ rw (e, same, f, note_handoff_unused) (ground (arith, h, e, f))
      | inr (task, f) ↦
          let w =
            record_discard-fields now (record s { handed_off = none }) i task reason
              (metrics_of task.pending) k in
          rw (e, same, f, note_handoff_unused, w.0, w.1, w.2, w.3, w.4) (ground (arith, h, e, f))
    ]
  ]
]

-- A task that is settled now.
module _ (now : ℕ) (s : BackgroundPreparation) (i : ℕ) (task : Task) (at : task_at s i ≡ some task)
    (flying : task.settled ≡ false) where
  keep-IsOnce :
      (result : Option Prepared) (k : ℕ)
      → (not (is_id s.current i) || task.aborted) ≡ false
      → IsOnce s k
      → IsOnce (put_task s i (settled_with now task result)) k
  unfolding put_task IsOnce once
  keep-IsOnce none k live h =
      rw (lookup-set ℕ_discrete s.tasks k i (settled_with now task none))
        (ground (arith, h, at, flying, live))
  keep-IsOnce (some pending) k live h =
      rw (lookup-set ℕ_discrete s.tasks k i (settled_with now task (some pending)))
        (ground (arith, h, at, flying, live))

  late-IsOnce :
      (result : Option Prepared) (reason : DiscardReason) (k : ℕ)
      → (not (is_id s.current i) || task.aborted) ≡ true
      → IsOnce s k
      → IsOnce
          (write_discard now
            (put_task s i (settled_with now task result))
            i
            (settled_with now task result)
            reason)
          k
  unfolding put_task write_discard IsOnce once
  late-IsOnce none reason k late h =
      let done = settled_with now task none in
      let w =
        record_discard-fields now (put_task s i done) i done reason (metrics_of task.pending) k in
      rw (w.0, w.1, w.2, w.3, w.4, lookup-set ℕ_discrete s.tasks k i done)
        (ground (arith, h, at, flying, late))
  late-IsOnce (some pending) reason k late h =
      let done = settled_with now task (some pending) in
      let w =
        record_discard-fields now (put_task s i done) i done reason (metrics_of (some pending)) k in
      rw (w.0, w.1, w.2, w.3, w.4, lookup-set ℕ_discrete s.tasks k i done)
        (ground (arith, h, at, flying, late))

  settle_task-IsOnce :
      (result : Option Prepared) (k : ℕ) → IsOnce s k → IsOnce (settle_task now s i task result) k
  unfolding settle_task
  settle_task-IsOnce result k h = elim (Bool-cases (not (is_id s.current i) || task.aborted)) [
    | inl late ↦
        rw (late, settle_task)
          (late-IsOnce result (reason_or task.discard_reason superseded) k late h)
    | inr live ↦ elim (Bool-cases (is_some result)) [
      | inl found ↦ rw (live, found, settle_task) (keep-IsOnce result k live h)
      | inr missing ↦
          rw (live, missing, settle_task)
            (cancel-IsOnce now (put_task s i (settled_with now task result)) cancelled k
              (keep-IsOnce result k live h))
    ]
  ]

  fail_task-IsOnce : (k : ℕ) → IsOnce s k → IsOnce (put_task s i (record task { settled = true })) k
  unfolding put_task IsOnce once
  fail_task-IsOnce k h =
      rw (lookup-set ℕ_discrete s.tasks k i (record task { settled = true }))
        (ground (arith, h, at, flying))

settle-IsOnce :
    (now : ℕ) (s : BackgroundPreparation) (i : ℕ) (result : Option Prepared) (k : ℕ)
    → IsOnce s k
    → IsOnce (settle now s i result) k
unfolding settle
settle-IsOnce now s i result k h = elim (Option-cases (task_at s i)) [
  | inl e ↦ rw (e, settle) h
  | inr (task, e) ↦ elim (Bool-cases task.settled) [
    | inl settled ↦ rw (e, settled, settle) h
    | inr flying ↦ rw (e, flying, settle) (settle_task-IsOnce now s i task e flying result k h)
  ]
]

fail-IsOnce :
    (now : ℕ) (s : BackgroundPreparation) (i : ℕ) (k : ℕ) → IsOnce s k → IsOnce (fail now s i) k
unfolding fail
fail-IsOnce now s i k h = elim (Option-cases (task_at s i)) [
  | inl e ↦ rw (e, fail) h
  | inr (task, e) ↦ elim (Bool-cases task.settled) [
    | inl settled ↦ rw (e, settled, fail) h
    | inr flying ↦
        let v = fail_task-IsOnce now s i task e flying k h in
        elim (Bool-cases (is_id s.current i)) [
          | inl mine ↦
              rw (e, flying, mine, fail)
                (cancel-IsOnce now (put_task s i (record task { settled = true })) cancelled k v)
          | inr other ↦ rw (e, flying, other, fail) v
        ]
  ]
]

begin-IsOnce :
    (s : BackgroundPreparation) (v : View) (i : ℕ) (k : ℕ) → IsOnce s k → IsOnce (begin s v i) k
unfolding begin
begin-IsOnce s v i k h = elim (Option-cases (task_at s i)) [
  | inl e ↦ rw (e, begin) h
  | inr (task, e) ↦ elim (Bool-cases (not (is_id s.current i) || task.aborted)) [
    | inl gone ↦ rw (e, gone, begin) (settle-IsOnce v.now s i none k h)
    | inr mine ↦ elim (Bool-cases (is_some (invalidation_reason task v))) [
      | inl invalid ↦
          rw (e, mine, invalid, begin)
            (settle-IsOnce v.now (cancel v.now s config) i none k
              (cancel-IsOnce v.now s config k h))
      | inr valid ↦ rw (e, mine, valid, begin) h
    ]
  ]
]

after-IsOnce : (s : BackgroundPreparation) (e : Event) (k : ℕ) → IsOnce s k → IsOnce (after s e) k
unfolding after observe take note_compaction IsOnce
after-IsOnce s (observed v) k h = start-IsOnce (drop_invalid s v) v k (drop_invalid-IsOnce s v k h)
after-IsOnce s (began v i) k h = begin-IsOnce s v i k h
after-IsOnce s (finished now i result) k h = settle-IsOnce now s i result k h
after-IsOnce s (failed now i) k h = fail-IsOnce now s i k h
after-IsOnce s (taken v) k h = take_task-IsOnce s v (current_task s) k refl h
after-IsOnce s (was_cancelled now reason) k h = cancel-IsOnce now s reason k h
after-IsOnce s (unused now run_id reason) k h = note_handoff_unused-IsOnce now s run_id reason k h
after-IsOnce s (compacted now session_id) k h = supersede-IsOnce now s session_id k h

run-IsOnce :
    (s : BackgroundPreparation) (events : List Event) (k : ℕ) → IsOnce s k → IsOnce (run s events) k
unfolding run
run-IsOnce s [] k h = h
run-IsOnce s (e ∷ events) k h = run-IsOnce (after s e) events k (after-IsOnce s e k h)

create-IsOnce : (k : ℕ) → IsOnce create k
unfolding IsOnce once create lookup
create-IsOnce k = ground arith

-- Along every sequence of calls and promises the cost of a preparation is recorded at most once,
-- and not at all while it is current or handed off.
pub run-records_once :
    (events : List Event) (k : ℕ)
    → count k (run create events).discards
        + one_if (is_id (run create events).current k)
        + one_if (is_handed (run create events).handed_off k)
      ≤ 1
unfolding IsOnce once create lookup
run-records_once events k =
    let h = run-IsOnce create events k (create-IsOnce k) in ground (arith, h)

module _ (now : ℕ) (s : BackgroundPreparation) (i : ℕ) (task : Task) where
  settle_once-records :
      (pending : Prepared)
      → IsOnce s i
      → task_at s i ≡ some task
      → task.settled ≡ false
      → is_some pending.metrics_snapshot ≡ true
      → count i (settle now s i (some pending)).discards
          + one_if (is_id (settle now s i (some pending)).current i)
        ≡ 1
  unfolding settle settle_task put_task write_discard IsOnce once
  settle_once-records pending h at flying costed =
      let done = settled_with now task (some pending) in
      let reason = reason_or task.discard_reason superseded in
      let w =
        record_discard-fields now (put_task s i done) i done reason (metrics_of (some pending)) i in
      elim (Bool-cases (not (is_id s.current i) || task.aborted)) [
        | inl late ↦
            rw (settle, at, flying, settle_task, late, w.1, w.4)
              (ground (arith, h, at, flying, late, costed))
        | inr live ↦
            rw (settle, at, flying, settle_task, live) (ground (arith, h, at, flying, live))
      ]

-- After any sequence of calls and promises, a summary with metrics that comes for a task that is
-- not settled leaves the task current or its cost recorded, one of the two and once: no cost is
-- lost.
pub settle-records :
    (events : List Event) (now : ℕ) (i : ℕ) (task : Task) (pending : Prepared)
    → task_at (run create events) i ≡ some task
    → task.settled ≡ false
    → is_some pending.metrics_snapshot ≡ true
    → count i (settle now (run create events) i (some pending)).discards
        + one_if (is_id (settle now (run create events) i (some pending)).current i)
      ≡ 1
settle-records events now i task pending =
    settle_once-records now (run create events) i task pending
      (run-IsOnce create events i (create-IsOnce i))
