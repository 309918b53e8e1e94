-- ===== src/Preparation/Calls.antt =====
-- The calls of the preparation, and its promises.
use pi_smart_compact.Base.{
  ℕ, suc, ◌-◌, ◌*◌, List, [], ◌∷◌, String, Bool, true, false, ◌&&◌, ◌||◌, not, Option, none, some,
  ltb, leb, if◌then◌else◌, ◌==◌, is_some,
}
use pi_smart_compact.OpenLoops.{is_text}
use pi_smart_compact.Preparation.{
  DiscardReason, config, superseded, cancelled, branch, stale, Prepared, Task,
  BackgroundPreparation, task_at, put_task, preparation_metrics, write_discard, cancel,
  current_task,
}
use pi_smart_compact.Preparation.Window.{
  BranchEntry, View, enabled, preparation_window, invalidation_reason,
}

-- The cooldown, in milliseconds.
abbrev pub cooldown_ms : ℕ
cooldown_ms = 600000

abbrev pub is_recent : Option (String × ℕ) → View → Bool
is_recent none v = false
is_recent (some (session_id, at)) v =
    is_text session_id v.session_id && ltb (v.now - at) cooldown_ms

abbrev pub last_id : Option String → List BranchEntry → Option String
last_id found [] = found
last_id found (e ∷ entries) = last_id (some e.id) entries

-- The tokens are in the window of preparation.
unfoldable pub is_in_window : View → Bool
unfolding preparation_window
is_in_window v = elim v.tokens [
  | none ↦ false
  | some tokens ↦ elim v.window [
    | none ↦ false
    | some window ↦
        let gates = preparation_window v.config window in
        ltb 0 window
        && leb gates.start_hundredths (tokens * 100)
        && ltb (tokens * 100) gates.apply_hundredths
  ]
]

-- The `return` lines before the snapshot.
unfoldable pub may_start : BackgroundPreparation → View → Bool
unfolding is_in_window
may_start s v =
    not (is_some s.current)
    && enabled v.config
    && v.has_model
    && not v.is_unresolved
    && not (is_recent s.last_attempt v)
    && is_in_window v

abbrev pub new_task : View → String → Task
new_task v origin_id = record {
  session_id = v.session_id;
  origin_id = origin_id;
  signature = v.signature;
  aborted = false;
  created_at = v.now;
  ready_at = none;
  pending = none;
  discard_reason = none;
  settled = false;
}

-- `if (reason) cancel(reason)`
abbrev pub cancel_for :
    (now : ℕ) → BackgroundPreparation → Option DiscardReason → BackgroundPreparation
cancel_for now s none = s
cancel_for now s (some reason) = cancel now s reason

unfoldable pub drop_invalid : BackgroundPreparation → View → BackgroundPreparation
unfolding cancel invalidation_reason
drop_invalid s v = elim (current_task s) [
  | none ↦ s
  | some (i, task) ↦ cancel_for v.now s (invalidation_reason task v)
]

unfoldable pub start : BackgroundPreparation → View → BackgroundPreparation
unfolding may_start put_task
start s v =
    if may_start s v
    then elim (last_id none v.branch) [
      | none ↦ s
      | some origin_id ↦
          if is_text origin_id ""
          then s
          else record (put_task s s.next_task (new_task v origin_id)) {
            next_task = suc s.next_task;
            current = some s.next_task;
            last_attempt = some (v.session_id, v.now);
          }
    ]
    else s

unfoldable pub observe : BackgroundPreparation → View → BackgroundPreparation
unfolding drop_invalid start
observe s v = start (drop_invalid s v) v

-- `current === task`
abbrev pub is_id : Option ℕ → ℕ → Bool
is_id none i = false
is_id (some j) i = j == i

abbrev pub reason_or : Option DiscardReason → DiscardReason → DiscardReason
reason_or none reason = reason
reason_or (some reason) other = reason

abbrev pub settled_with : (now : ℕ) → Task → Option Prepared → Task
settled_with now task none = record task { settled = true }
settled_with now task (some pending) = record task {
  settled = true;
  pending = some pending;
  ready_at = some now;
}

-- A result that comes for the current task; one that comes late is recorded as discarded.
unfoldable pub settle_task :
    (now : ℕ) → BackgroundPreparation → ℕ → Task → Option Prepared → BackgroundPreparation
unfolding put_task write_discard cancel
settle_task now s i task result =
    let done = settled_with now task result in
    let s' = put_task s i done in
    if not (is_id s.current i) || task.aborted
    then write_discard now s' i done (reason_or task.discard_reason superseded)
    else if is_some result
    then s'
    else cancel now s' cancelled

-- The result of `prepare`: a summary, or nothing. A promise settles once.
unfoldable pub settle :
    (now : ℕ) → BackgroundPreparation → ℕ → Option Prepared → BackgroundPreparation
unfolding settle_task
settle now s i result = elim (task_at s i) [
  | none ↦ s
  | some task ↦ if task.settled then s else settle_task now s i task result
]

-- The rejection of `prepare`.
unfoldable pub fail : (now : ℕ) → BackgroundPreparation → ℕ → BackgroundPreparation
unfolding put_task cancel
fail now s i = elim (task_at s i) [
  | none ↦ s
  | some task ↦
      if task.settled
      then s
      else let s' = put_task s i (record task { settled = true }) in
        if is_id s.current i then cancel now s' cancelled else s'
]

-- The first `then`: a task that was cancelled or no longer matches is not prepared.
unfoldable pub begin : BackgroundPreparation → View → ℕ → BackgroundPreparation
unfolding settle cancel invalidation_reason
begin s v i = elim (task_at s i) [
  | none ↦ s
  | some task ↦
      if not (is_id s.current i) || task.aborted
      then settle v.now s i none
      else if is_some (invalidation_reason task v)
      then settle v.now (cancel v.now s config) i none
      else s
]

unfoldable pub with_metrics : (now : ℕ) → Task → Prepared → Prepared
unfolding preparation_metrics
with_metrics now task pending = elim pending.metrics_snapshot [
  | none ↦ pending
  | some snapshot ↦ record pending {
    metrics_snapshot = some (preparation_metrics now task snapshot);
  }
]

-- From the last gate of `take` on: the task is current no more.
unfoldable pub hand_off :
    (now : ℕ)
    → BackgroundPreparation
    → ℕ
    → Task
    → (run_id : String) → Option Prepared
    → BackgroundPreparation × Option Prepared
unfolding write_discard with_metrics
hand_off now s i task run_id none =
    (write_discard now (record s { current = none; handed_off = none }) i task stale, none)
hand_off now s i task run_id (some revalidated) = (
  record s { current = none; handed_off = some (run_id, i) },
  some (with_metrics now task revalidated),
)

-- What keeps a ready task from being handed off.
unfoldable pub refusal : Task → Prepared → View → Option DiscardReason
unfolding invalidation_reason
refusal task pending v = elim (invalidation_reason task v) [
  | some reason ↦ some reason
  | none ↦ if v.matches_branch pending then none else some branch
]

unfoldable pub take_ready :
    BackgroundPreparation
    → View
    → ℕ
    → Task
    → Prepared
    → Option DiscardReason
    → BackgroundPreparation × Option Prepared
unfolding cancel hand_off
take_ready s v i task pending (some reason) = (cancel v.now s reason, none)
take_ready s v i task pending none = hand_off v.now s i task pending.run_id (v.revalidate pending)

unfoldable pub take_pending :
    BackgroundPreparation
    → View
    → ℕ
    → Task
    → Option Prepared
    → BackgroundPreparation × Option Prepared
unfolding cancel take_ready refusal
take_pending s v i task none = (cancel v.now s cancelled, none)
take_pending s v i task (some pending) = take_ready s v i task pending (refusal task pending v)

unfoldable pub take_task :
    BackgroundPreparation → View → Option (ℕ × Task) → BackgroundPreparation × Option Prepared
unfolding take_pending
take_task s v none = (s, none)
take_task s v (some (i, task)) = take_pending s v i task task.pending

unfoldable pub take : BackgroundPreparation → View → BackgroundPreparation × Option Prepared
unfolding take_task
take s v = take_task s v (current_task s)

unfoldable pub note_handoff_unused :
    (now : ℕ) → BackgroundPreparation → String → DiscardReason → BackgroundPreparation
unfolding write_discard
note_handoff_unused now s run_id reason = elim s.handed_off [
  | none ↦ s
  | some (taken, i) ↦
      if is_text taken run_id
      then elim (task_at s i) [
        | none ↦ record s { handed_off = none }
        | some task ↦ write_discard now (record s { handed_off = none }) i task reason
      ]
      else s
]

unfoldable pub supersede : (now : ℕ) → BackgroundPreparation → String → BackgroundPreparation
unfolding cancel
supersede now s session_id = elim (current_task s) [
  | none ↦ s
  | some (i, task) ↦ if is_text task.session_id session_id then cancel now s superseded else s
]

unfoldable pub note_compaction : (now : ℕ) → BackgroundPreparation → String → BackgroundPreparation
unfolding supersede
note_compaction now s session_id = record (supersede now s session_id) {
  last_attempt = some (session_id, now);
}

pub data Status : Type 0 where
  idle preparing ready : Status

unfoldable pub status : BackgroundPreparation → String → Status
status s session_id = elim (current_task s) [
  | none ↦ idle
  | some (i, task) ↦
      if not (is_text task.session_id session_id)
      then idle
      else if is_some task.pending
      then ready
      else preparing
]

-- One call, or one promise that runs.
pub data Event : Type 0 where
  observed : View → Event
  began : View → ℕ → Event
  finished : (now : ℕ) → ℕ → Option Prepared → Event
  failed : (now : ℕ) → ℕ → Event
  taken : View → Event
  was_cancelled : (now : ℕ) → DiscardReason → Event
  unused : (now : ℕ) → String → DiscardReason → Event
  compacted : (now : ℕ) → String → Event

unfoldable pub after : BackgroundPreparation → Event → BackgroundPreparation
unfolding observe begin settle fail take cancel note_handoff_unused note_compaction
after s (observed v) = observe s v
after s (began v i) = begin s v i
after s (finished now i result) = settle now s i result
after s (failed now i) = fail now s i
after s (taken v) = (take s v).0
after s (was_cancelled now reason) = cancel now s reason
after s (unused now run_id reason) = note_handoff_unused now s run_id reason
after s (compacted now session_id) = note_compaction now s session_id

unfoldable pub run : BackgroundPreparation → List Event → BackgroundPreparation
unfolding after
run s [] = s
run s (e ∷ events) = run (after s e) events
