-- ===== src/Preparation/Weight.antt =====
-- How often a cost is recorded, and what a cancel and the last gate of `take` do to that.
use pi_smart_compact.Base.{
  ℕ, ◌+◌, ◌≡◌, refl, List, [], ◌∷◌, ◌++◌, String, Bool, true, false, ◌&&◌, ◌||◌, not, Option, none,
  some, arith, ◌==◌, is_some, leb, ltb, ℕ_discrete, Option-cases, inl, inr,
}
use pi_smart_compact.OrderedMap.Laws.{lookup-set}
use pi_smart_compact.Preparation.{
  DiscardReason, stale, Prepared, Task, Discard, BackgroundPreparation, task_at, put_task,
  MetricsSnapshot, metrics_of, preparation_metrics, record_discard, write_discard, cancel_task,
  cancel, current_task,
}
use pi_smart_compact.Preparation.Calls.{is_id, hand_off}

abbrev pub one_if : Bool → ℕ
one_if true = 1
one_if false = 0

-- How often a task's cost is recorded.
abbrev pub count : ℕ → List Discard → ℕ
count i [] = 0
count i (d ∷ discards) = one_if (d.task == i) + count i discards

count-append :
    (k : ℕ) (xs : List Discard) (d : Discard)
    → count k (xs ++ d ∷ []) ≡ count k xs + one_if (d.task == k)
count-append k [] d = omega arith
count-append k (x ∷ xs) d = omega (arith, count-append k xs d)

abbrev flies : Option Task → Bool
flies none = false
flies (some task) = not task.settled

abbrev pub is_handed : Option (String × ℕ) → ℕ → Bool
is_handed none i = false
is_handed (some (run_id, j)) i = j == i

-- The records of a task's cost, and those that may still come.
abbrev weight : (recorded : ℕ) → (is_current : Bool) → Option Task → (is_handed : Bool) → ℕ
weight n is_current o is_handed = n + one_if (is_current || flies o) + one_if is_handed

-- An unsettled task has no summary; an aborted one is not the current one.
abbrev is_tidy : Bool → Option Task → Bool
is_tidy is_current none = true
is_tidy is_current (some task) =
    (task.settled || not (is_some task.pending)) && not (task.aborted && is_current)

-- A task that has no number yet has no weight.
unfoldable pub once :
    (recorded : ℕ) → (is_current : Bool) → Option Task → (is_handed is_numbered : Bool) → Bool
once n is_current o is_handed is_numbered =
    let w = weight n is_current o is_handed in
    leb w 1 && is_tidy is_current o && (is_numbered || (w == 0 && not (is_some o)))

unfoldable pub IsOnce : BackgroundPreparation → ℕ → Type 0
unfolding once
IsOnce s k =
    once (count k s.discards) (is_id s.current k) (task_at s k) (is_handed s.handed_off k)
      (ltb k s.next_task)
    ≡ true

pub record_discard-fields :
    (now : ℕ) (s : BackgroundPreparation) (i : ℕ) (task : Task) (reason : DiscardReason)
    (m : Option (String × MetricsSnapshot)) (k : ℕ)
    → ((record_discard now s i task reason m).tasks ≡ s.tasks)
      × ((record_discard now s i task reason m).current ≡ s.current)
      × ((record_discard now s i task reason m).handed_off ≡ s.handed_off)
      × ((record_discard now s i task reason m).next_task ≡ s.next_task)
      × (count k (record_discard now s i task reason m).discards
          ≡ count k s.discards + one_if (i == k && is_some m))
unfolding record_discard
record_discard-fields now s i task reason none k = (refl, refl, refl, refl, ground arith)
record_discard-fields now s i task reason (some (session_id, snapshot)) k = (
  refl,
  refl,
  refl,
  refl,
  ground (
    arith,
    count-append k s.discards (record {
      task = i;
      session_id = session_id;
      snapshot = preparation_metrics now task snapshot;
      reason = reason;
    }),
  ),
)

module _ (s : BackgroundPreparation) (i : ℕ) (task : Task) (current : s.current ≡ some i)
    (at : task_at s i ≡ some task) where
  pub cancel_task-IsOnce :
      (now : ℕ) (reason : DiscardReason) (k : ℕ)
      → IsOnce s k
      → IsOnce (cancel_task now s reason (some (i, task))) k
  unfolding cancel_task write_discard put_task IsOnce once
  cancel_task-IsOnce now reason k h =
      let old' = record task { discard_reason = some reason; aborted = true } in
      let s' = put_task (record s { current = none }) i old' in
      let w = record_discard-fields now s' i old' reason (metrics_of task.pending) k in
      let t = lookup-set ℕ_discrete s.tasks k i old' in
      rw (w.0, w.1, w.2, w.3, w.4, t) (ground (arith, h, current, at))

  -- The last gate of `take`.
  pub hand_off-IsOnce :
      (now : ℕ) (run_id : String) (r : Option Prepared) (k : ℕ)
      → is_some task.pending ≡ true
      → IsOnce s k
      → IsOnce (hand_off now s i task run_id r).0 k
  unfolding hand_off write_discard IsOnce once
  hand_off-IsOnce now run_id none k ready h =
      let s' = record s { current = none; handed_off = none } in
      let w = record_discard-fields now s' i task stale (metrics_of task.pending) k in
      rw (w.0, w.1, w.2, w.3, w.4) (ground (arith, h, current, at))
  hand_off-IsOnce now run_id (some revalidated) k ready h = ground (arith, h, current, at, ready)

pub current_task-some :
    (s : BackgroundPreparation) (i : ℕ) (task : Task)
    → current_task s ≡ some (i, task)
    → (s.current ≡ some i) × (task_at s i ≡ some task)
current_task-some s i task h = elim (Option-cases s.current) [
  | inl e ↦ absurd (ground (arith, e, h))
  | inr (j, e) ↦ elim (Option-cases (task_at s j)) [
    | inl f ↦ absurd (ground (arith, e, f, h))
    | inr (t, f) ↦ ground (arith, e, f, h)
  ]
]

pub cancel-IsOnce :
    (now : ℕ) (s : BackgroundPreparation) (reason : DiscardReason) (k : ℕ)
    → IsOnce s k
    → IsOnce (cancel now s reason) k
unfolding cancel cancel_task
cancel-IsOnce now s reason k h = elim (Option-cases (current_task s)) [
  | inl e ↦ rw e h
  | inr ((i, task), e) ↦
      let (current, at) = current_task-some s i task e in
      rw e (cancel_task-IsOnce s i task current at now reason k h)
]
