-- ===== src/Preparation/Admission.antt =====
-- When a preparation starts, and the window for it.
use pi_smart_compact.Base.{
  ℕ, zero, suc, ◌+◌, ◌*◌, ◌≤◌, ◌<◌, ◌≡◌, refl, ◌⊎◌, inl, inr, String, true, false, Option, none,
  some, arith, if◌then◌else◌, is_some, ltb, max, Option-cases, Bool-cases,
}
use pi_smart_compact.OpenLoops.{is_text}
use pi_smart_compact.Preparation.{
  DiscardReason, MetricsSnapshot, Task, BackgroundPreparation, put_task, metrics_of, record_discard,
  write_discard, cancel_task, cancel, current_task,
}
use pi_smart_compact.Preparation.Window.{
  CompactConfig, View, enabled, preparation_start, preparation_window, invalidation_reason,
}
use pi_smart_compact.Preparation.Calls.{
  is_recent, is_in_window, may_start, last_id, cancel_for, drop_invalid, start,
}

mul-below : (w p m : ℕ) → p < m → w * p + w ≤ w * m
mul-below zero p m h = omega arith
mul-below (suc w) p m h = omega (arith, h, mul-below w p m h)

preparation_start-bounds :
    (apply : ℕ)
    → (500000 ≤ preparation_start apply)
      × (500000 < apply → preparation_start apply < apply)
      × (500000 < preparation_start apply
          → (preparation_start apply + 819200 ≤ apply)
            × (apply ≤ preparation_start apply + 3200000))
unfolding preparation_start
preparation_start-bounds apply = ground arith

module _ (window m : ℕ) where
  gate_of : (Option ℕ) → ℕ
  gate_of none = preparation_start (window * m)
  gate_of (some prepare) =
      if ltb prepare m then max 500000 (window * prepare) else preparation_start (window * m)

  gate_of-bounds :
      (o : Option ℕ) → (500000 ≤ gate_of o) × (500000 < window * m → gate_of o < window * m)
  unfolding gate_of
  gate_of-bounds none = let b = preparation_start-bounds (window * m) in (b.0, b.1)
  gate_of-bounds (some prepare) =
      ground (arith, preparation_start-bounds (window * m), mul-below window prepare m)

-- Preparation starts at 5000 tokens at least, and below the gate where that is over 5000 tokens.
pub preparation_window-bounds :
    (c : CompactConfig) (window : ℕ)
    → (500000 ≤ (preparation_window c window).start_hundredths)
      × (500000 < window * c.min_context_percent
          → (preparation_window c window).start_hundredths < window * c.min_context_percent)
unfolding preparation_window gate_of
preparation_window-bounds c window = elim (Option-cases c.prepare_context_percent) [
  | inl e ↦ rw e (gate_of-bounds window c.min_context_percent none)
  | inr (prepare, e) ↦ rw e (gate_of-bounds window c.min_context_percent (some prepare))
]

record_discard-next :
    (now : ℕ) (s : BackgroundPreparation) (i : ℕ) (task : Task) (reason : DiscardReason)
    (m : Option (String × MetricsSnapshot))
    → (record_discard now s i task reason m).next_task ≡ s.next_task
unfolding record_discard
record_discard-next now s i task reason none = refl
record_discard-next now s i task reason (some m) = refl

cancel_task-next :
    (now : ℕ) (s : BackgroundPreparation) (reason : DiscardReason) (o : Option (ℕ × Task))
    → (cancel_task now s reason o).next_task ≡ s.next_task
unfolding cancel_task write_discard put_task
cancel_task-next now s reason none = refl
cancel_task-next now s reason (some (i, old)) =
    let old' = record old { discard_reason = some reason; aborted = true } in
    record_discard-next now (put_task (record s { current = none }) i old') i old' reason
      (metrics_of old.pending)

cancel_for-next :
    (now : ℕ) (s : BackgroundPreparation) (o : Option DiscardReason)
    → (cancel_for now s o).next_task ≡ s.next_task
unfolding cancel
cancel_for-next now s none = refl
cancel_for-next now s (some reason) = cancel_task-next now s reason (current_task s)

pub drop_invalid-next :
    (s : BackgroundPreparation) (v : View) → (drop_invalid s v).next_task ≡ s.next_task
unfolding drop_invalid
drop_invalid-next s v = elim (Option-cases (current_task s)) [
  | inl e ↦ rw (e, drop_invalid) refl
  | inr ((i, task), e) ↦ rw (e, drop_invalid) (cancel_for-next v.now s (invalidation_reason task v))
]

pub start-cases :
    (s : BackgroundPreparation) (v : View)
    → (((start s v).next_task ≡ s.next_task) × ((start s v).last_attempt ≡ s.last_attempt))
      ⊎ (((start s v).next_task ≡ suc s.next_task)
          × ((start s v).current ≡ some s.next_task)
          × ((start s v).last_attempt ≡ some (v.session_id, v.now))
          × (may_start s v ≡ true))
unfolding start
start-cases s v = elim (Bool-cases (may_start s v)) [
  | inr closed ↦ rw (closed, start) (inl (refl, refl))
  | inl opened ↦ elim (Option-cases (last_id none v.branch)) [
    | inl e ↦ rw (opened, e, start) (inl (refl, refl))
    | inr (origin_id, e) ↦ elim (Bool-cases (is_text origin_id "")) [
      | inl empty ↦ rw (opened, e, empty, start) (inl (refl, refl))
      | inr named ↦ rw (opened, e, named, start) (inr (refl, refl, refl, refl))
    ]
  ]
]

-- The tokens in use are in the window of preparation.
abbrev pub IsInWindow : View → Type 0
IsInWindow v =
    (tokens : ℕ) × (window : ℕ) × (v.tokens ≡ some tokens)
    × (v.window ≡ some window)
    × ((preparation_window v.config window).start_hundredths ≤ tokens * 100)
    × (tokens * 100 < (preparation_window v.config window).apply_hundredths)

pub is_in_window-IsInWindow : (v : View) → is_in_window v ≡ true → IsInWindow v
unfolding is_in_window
is_in_window-IsInWindow v h = elim (Option-cases v.tokens) [
  | inl e ↦ absurd (ground (arith, e, h))
  | inr (tokens, e) ↦ elim (Option-cases v.window) [
    | inl f ↦ absurd (ground (arith, e, f, h))
    | inr (window, f) ↦ (tokens, window, e, f, ground (arith, e, f, h), ground (arith, e, f, h))
  ]
]

pub may_start-parts :
    (s : BackgroundPreparation) (v : View)
    → may_start s v ≡ true
    → (is_some s.current ≡ false)
      × (enabled v.config ≡ true)
      × (is_recent s.last_attempt v ≡ false)
      × (is_in_window v ≡ true)
unfolding may_start
may_start-parts s v h = ground (arith, h)
