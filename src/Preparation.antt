-- ===== src/Preparation.antt =====
-- `src/app/background-preparation.ts`: one summary prepared ahead of its use. A task is an object
-- that promises refer to, so tasks are in a store and `current` and `handed_off` hold a task's
-- number. The discard recorder is the log `discards`. A promise that runs is an event of its own:
-- `begin` is the first `then`, `settle` the one that takes the result of `prepare`.
pub mod Window
pub mod Calls
pub mod Weight
pub mod Once
pub mod Admission
pub mod Spaced
use pi_smart_compact.Base.{
  ℕ, ◌-◌, List, [], ◌∷◌, ◌++◌, String, Bool, true, false, ◌&&◌, ◌||◌, not, Option, none, some, ltb,
  if◌then◌else◌, lookup, ℕ_discrete, ◌==◌,
}
use pi_smart_compact.OrderedMap.{OrderedMap, set}
use pi_smart_compact.OpenLoops.{is_text, first_some}

-- `PreparationDiscardReason`
pub data DiscardReason : Type 0 where
  ttl branch config session superseded cancelled stale : DiscardReason

-- `MetricsSnapshot`: what a run cost, and the two latencies that a preparation adds.
pub record MetricsSnapshot : Type 0 where
  pub cost : ℕ
  pub ready_ms : Option ℕ
  pub wait_ms : Option ℕ

-- `PendingCompaction`, the fields that this module reads.
pub record Prepared : Type 0 where
  pub run_id : String
  pub session_id : String
  pub metrics_snapshot : Option MetricsSnapshot

-- `Preparation`; `settled` is the state of its promise.
pub record Task : Type 0 where
  pub session_id : String
  pub origin_id : String
  pub signature : String
  pub aborted : Bool
  pub created_at : ℕ
  pub ready_at : Option ℕ
  pub pending : Option Prepared
  pub discard_reason : Option DiscardReason
  pub settled : Bool

-- A call of `discard`, and the task that it is for.
pub record Discard : Type 0 where
  pub task : ℕ
  pub session_id : String
  pub snapshot : MetricsSnapshot
  pub reason : DiscardReason

pub record BackgroundPreparation : Type 0 where
  pub tasks : OrderedMap ℕ Task
  pub next_task : ℕ
  pub current : Option ℕ
  pub last_attempt : Option (String × ℕ)
  pub handed_off : Option (String × ℕ)
  pub discards : List Discard

unfoldable pub create : BackgroundPreparation
create = record {
  tasks = [];
  next_task = 0;
  current = none;
  last_attempt = none;
  handed_off = none;
  discards = [];
}

abbrev pub task_at : BackgroundPreparation → ℕ → Option Task
task_at s i = lookup ℕ_discrete i s.tasks

unfoldable pub put_task : BackgroundPreparation → ℕ → Task → BackgroundPreparation
put_task s i task = record s { tasks = set ℕ_discrete s.tasks i task }

abbrev waited : (now : ℕ) → Option ℕ → Option ℕ
waited now none = none
waited now (some ready_at) = some (now - ready_at)

abbrev prepared_in : (created_at : ℕ) → Option ℕ → Option ℕ
prepared_in created_at none = none
prepared_in created_at (some ready_at) = some (ready_at - created_at)

-- A snapshot keeps its own latencies where the task has none to add.
unfoldable pub preparation_metrics : (now : ℕ) → Task → MetricsSnapshot → MetricsSnapshot
preparation_metrics now task snapshot = record snapshot {
  ready_ms = first_some (prepared_in task.created_at task.ready_at) snapshot.ready_ms;
  wait_ms = first_some (waited now task.ready_at) snapshot.wait_ms;
}

abbrev pub metrics_of : Option Prepared → Option (String × MetricsSnapshot)
metrics_of none = none
metrics_of (some pending) = elim pending.metrics_snapshot [
  | none ↦ none
  | some snapshot ↦ some (pending.session_id, snapshot)
]

-- The call of the recorder, where there is a snapshot.
unfoldable pub record_discard :
    (now : ℕ)
    → BackgroundPreparation
    → ℕ
    → Task
    → DiscardReason
    → Option (String × MetricsSnapshot)
    → BackgroundPreparation
unfolding preparation_metrics
record_discard now s i task reason none = s
record_discard now s i task reason (some (session_id, snapshot)) = record s {
  discards =
      s.discards
      ++ record {
        task = i;
        session_id = session_id;
        snapshot = preparation_metrics now task snapshot;
        reason = reason;
      }
        ∷ [];
}

-- Without a ready summary the run's own metrics carry its cost.
unfoldable pub write_discard :
    (now : ℕ) → BackgroundPreparation → ℕ → Task → DiscardReason → BackgroundPreparation
unfolding record_discard
write_discard now s i task reason = record_discard now s i task reason (metrics_of task.pending)

-- `current`, as the object that it is, with its number.
abbrev pub current_task : BackgroundPreparation → Option (ℕ × Task)
current_task s = elim s.current [
  | none ↦ none
  | some i ↦ elim (task_at s i) [ none ↦ none | some task ↦ some (i, task) ]
]

unfoldable pub cancel_task :
    (now : ℕ) → BackgroundPreparation → DiscardReason → Option (ℕ × Task) → BackgroundPreparation
unfolding put_task write_discard
cancel_task now s reason none = s
cancel_task now s reason (some (i, old)) =
    let old' = record old { discard_reason = some reason; aborted = true } in
    write_discard now (put_task (record s { current = none }) i old') i old' reason

unfoldable pub cancel : (now : ℕ) → BackgroundPreparation → DiscardReason → BackgroundPreparation
unfolding cancel_task
cancel now s reason = cancel_task now s reason (current_task s)
