-- ===== src/Continuity/Laws.antt =====
-- What merging two states keeps: bounds, files, retired facts and errors.
use pi_smart_compact.Base.{
  ℕ, suc, ◌≤◌, ◌≡◌, refl, List, [], ◌∷◌, ◌++◌, map, String, Bool, true, false, ◌&&◌, not, some,
  arith, length, All, le_trans, ap,
}
use pi_smart_compact.Window.Soft.{contains}
use pi_smart_compact.OpenLoops.{
  OpenLoop, LoopOverride, unseen, merge_by, merge_open_loops, renumber,
}
use pi_smart_compact.OpenLoops.Laws.{length-take-le}
use pi_smart_compact.Continuity.{
  decision, constraint, error, loop, ContinuityOverride, Decision, Constraint, ErrorFact, Topic,
  CompactionState, TextTests, starts_with,
}
use pi_smart_compact.Continuity.Facts.{
  keep_if, sanitize, replacements, override_key, decision_key, constraint_key, error_key, stands,
  apply_overrides,
}
use pi_smart_compact.Continuity.Merge.{
  number_decisions, number_constraints, number_errors, merge_decisions, merge_constraints,
  merge_errors, merge_files, old_goal, previous_goal_prefix, merge_active, merge_states,
}

module _ {ℓ} {A : Type ℓ} (test : A → Bool) where
  pub keep_if-All : (items : List A) → All (λ a. test a ≡ true) (keep_if test items)
  unfolding keep_if
  keep_if-All [] = tt
  keep_if-All (a ∷ items) = ground (arith, keep_if-All items)

  pub length-keep_if-le : (items : List A) → length (keep_if test items) ≤ length items
  unfolding keep_if
  length-keep_if-le [] = omega arith
  length-keep_if-le (a ∷ items) = ground (arith, length-keep_if-le items)

length-merge_by-le :
    {A : Type 0} (key : A → String) (current previous : List A) (limit : ℕ)
    → length (merge_by key current previous limit) ≤ limit
unfolding merge_by
length-merge_by-le key current previous limit =
    length-take-le limit (unseen key [] (current ++ previous))

length-number_decisions :
    (i : ℕ) (items : List Decision) → length (number_decisions i items) ≡ length items
unfolding number_decisions
length-number_decisions i [] = refl
length-number_decisions i (d ∷ items) = ap suc (length-number_decisions (suc i) items)

length-number_errors :
    (i : ℕ) (items : List ErrorFact) → length (number_errors i items) ≡ length items
unfolding number_errors
length-number_errors i [] = refl
length-number_errors i (d ∷ items) = ap suc (length-number_errors (suc i) items)

length-renumber : (i : ℕ) (loops : List OpenLoop) → length (renumber i loops) ≡ length loops
unfolding renumber
length-renumber i [] = refl
length-renumber i (l ∷ loops) = ap suc (length-renumber (suc i) loops)

-- A state that is never longer than what one compaction can carry.
abbrev pub IsBounded : CompactionState → Type 0
IsBounded s =
    (length s.decisions ≤ 30)
    × (length s.constraints ≤ 30)
    × (length s.modified_files ≤ 100)
    × (length s.read_files ≤ 100)
    × (length s.deleted_files ≤ 50)
    × (length s.unresolved_errors ≤ 15)
    × (length s.resolved_errors ≤ 20)
    × (length s.open_loops ≤ 25)
    × (length s.loop_overrides ≤ 50)
    × (length s.fact_overrides ≤ 50)
    × (length s.topics ≤ 30)
    × (length s.next_actions ≤ 15)
    × (length s.critical_context ≤ 20)

-- No file is among the present ones and among the deleted ones.
abbrev pub IsCoherent : TextTests → CompactionState → Type 0
IsCoherent t s =
    (k : String)
    → (contains (map t.normalize (s.modified_files ++ s.read_files)) k
        && contains (map t.normalize s.deleted_files) k)
      ≡ false

module _ (t : TextTests) where
  length-number_constraints :
      (human : List String) (i : ℕ) (items : List Constraint)
      → length (number_constraints t human i items) ≡ length items
  unfolding number_constraints
  length-number_constraints human i [] = refl
  length-number_constraints human i (d ∷ items) =
      ap suc (length-number_constraints human (suc i) items)

  length-merge_decisions-le :
      (current previous : List Decision) → length (merge_decisions t current previous) ≤ 30
  unfolding merge_decisions
  length-merge_decisions-le current previous =
      rw (length-number_decisions 0 _) (length-take-le 30 _)

  length-merge_constraints-le :
      (current previous : List Constraint) → length (merge_constraints t current previous) ≤ 30
  unfolding merge_constraints
  length-merge_constraints-le current previous =
      rw (length-number_constraints _ 0 _)
        (length-merge_by-le (constraint_key t) current previous 30)

  length-merge_errors-le :
      (keys : List String) (current previous : List ErrorFact)
      → length (merge_errors t keys current previous) ≤ 15
  unfolding merge_errors
  length-merge_errors-le keys current previous =
      rw (length-number_errors 0 _) (length-merge_by-le (error_key t) current _ 15)

  length-merge_files-le :
      (gone current previous : List String) (n : ℕ)
      → length (merge_files t gone current previous n) ≤ n
  unfolding merge_files
  length-merge_files-le gone current previous n = length-merge_by-le t.normalize current _ n

  length-merge_open_loops-le :
      (normalize : String → String) (current previous : List OpenLoop)
      → length (merge_open_loops normalize current previous) ≤ 25
  unfolding merge_open_loops
  length-merge_open_loops-le normalize current previous =
      rw (length-renumber 0 _) (length-take-le 25 _)

  apply_overrides-IsBounded :
      (s : CompactionState) (overrides : List ContinuityOverride)
      → IsBounded s
      → length overrides ≤ 50
      → IsBounded (apply_overrides t s overrides)
  unfolding apply_overrides sanitize
  apply_overrides-IsBounded s overrides (hd, hc, hm, hr, hx, he, hf, hl, ho, hv, ht, hn, hk) room =
      let clean = sanitize t s in
      (
        le_trans
            (length-keep_if-le (λ d. stands t overrides decision (decision_key t d))
              clean.decisions)
            hd,
        le_trans
            (length-keep_if-le (λ c. stands t overrides constraint (constraint_key t c))
              clean.constraints)
            (le_trans
              (length-keep_if-le (λ (c : Constraint). not (t.is_non_live c.text)) s.constraints)
              hc),
        hm,
        hr,
        hx,
        le_trans
            (length-keep_if-le (λ e. stands t overrides error (error_key t e))
              clean.unresolved_errors)
            (le_trans
              (length-keep_if-le (λ (e : ErrorFact). not (t.is_noise e.message))
                s.unresolved_errors)
              he),
        le_trans
            (length-keep_if-le (λ (e : ErrorFact). not (t.is_noise e.message)) s.resolved_errors)
            hf,
        le_trans
            (length-keep_if-le (λ (l : OpenLoop). stands t overrides loop (t.normalize l.summary))
              clean.open_loops)
            (le_trans
              (length-keep_if-le (λ (l : OpenLoop). not (t.is_noise l.summary)) s.open_loops) hl),
        ho,
        room,
        ht,
        hn,
        length-merge_by-le t.normalize (replacements overrides) clean.critical_context 20,
      )

  merge_active-IsBounded :
      (now : ℕ) (overrides : List ContinuityOverride) (current previous : CompactionState)
      → length overrides ≤ 50
      → IsBounded (merge_active t now overrides current previous)
  unfolding merge_active
  merge_active-IsBounded now overrides current previous room = (
    length-merge_decisions-le current.decisions previous.decisions,
    length-merge_constraints-le current.constraints previous.constraints,
    length-merge_files-le _ current.modified_files previous.modified_files 100,
    length-merge_files-le _ current.read_files previous.read_files 100,
    length-merge_files-le _ current.deleted_files previous.deleted_files 50,
    length-merge_errors-le _ current.unresolved_errors previous.unresolved_errors,
    length-merge_by-le (error_key t) current.resolved_errors previous.resolved_errors 20,
    length-merge_open_loops-le t.normalize current.open_loops _,
    length-merge_by-le (λ (o : LoopOverride). o.summary_key) current.loop_overrides
        previous.loop_overrides 50,
    room,
    length-merge_by-le (λ (p : Topic). t.normalize p.title) current.topics previous.topics 30,
    length-merge_by-le t.normalize current.next_actions previous.next_actions 15,
    length-merge_by-le t.normalize (old_goal t current previous ++ current.critical_context)
        (keep_if (λ line. not (starts_with line previous_goal_prefix)) previous.critical_context)
        20,
  )

  -- A merge with a previous state is within every limit: 30 decisions and constraints, 100
  -- modified and 100 read files, 50 deleted files, 15 unresolved and 20 resolved errors, 25 loops,
  -- 50 overrides of each sort, 30 topics, 15 next actions and 20 lines of context.
  pub merge_states-IsBounded :
      (now : ℕ) (previous current : CompactionState)
      → IsBounded (merge_states t now (some previous) current)
  unfolding merge_states
  merge_states-IsBounded now previous current =
      let overrides = merge_by override_key current.fact_overrides previous.fact_overrides 50 in
      let room =
        length-merge_by-le override_key current.fact_overrides previous.fact_overrides 50 in
      let live = apply_overrides t current overrides in
      let before = apply_overrides t previous overrides in
      apply_overrides-IsBounded (merge_active t now overrides live before) overrides
        (merge_active-IsBounded now overrides live before room) room
