-- ===== src/PendingSlot/Revalidate/Sound.antt =====
-- `revalidatePending` of `src/app/pending-slot.ts`: what a passing of the gate means.
use pi_smart_compact.Base.{
  ℕ, ◌+◌, ◌-◌, ◌*◌, ◌≤◌, ◌<◌, ◌≡◌, refl, List, true, false, Option, none, some, arith, max, drop,
  Bool-cases, inl, inr, sym, ◌∙◌, ap, subst, add-zero,
}
use pi_smart_compact.Types.{ContextSnapshot, PendingCompaction}
use pi_smart_compact.Messages.{SessionMessage}
use pi_smart_compact.YieldGate.{exceeds_yield_target}
use pi_smart_compact.PendingSlot.Revalidate.{
  Usage, ReaderView, pending_matches_branch, usage_refuses_application, total, or_baseline,
  tail_growth, snapshot_growth, growth_of, or_tail, reserve, is_too_large, repriced, sized,
  is_current, measured, used, revalidate_pending,
}

some_inj : {A : Type 0} {a b : A} → some a ≡ some b → a ≡ b
some_inj h = cc

-- A passing of the gate: what was measured, by how much the context has grown, and the result.
pub record IsPassed (p : PendingCompaction) (v : ReaderView) (q : PendingCompaction) : Type 0 where
  pub usage : Usage
  pub tokens : ℕ
  pub estimated : ℕ
  pub growth : ℕ
  pub tail : Option ℕ
  pub usage_at : v.usage ≡ some usage
  pub accepted : usage_refuses_application usage ≡ false
  pub tokens_at : usage.tokens ≡ some tokens
  pub estimated_at : p.details.estimated_after_tokens ≡ some estimated
  pub current : is_current p v tokens ≡ true
  pub growth_at : growth_of p tokens v v.weights ≡ some (growth, tail)
  pub fits : is_too_large v tokens (estimated + growth) p.details.target_after_tokens ≡ false
  pub result : q ≡ repriced p tokens (estimated + growth) growth tail

module _ (p : PendingCompaction) (v : ReaderView) (q : PendingCompaction) where
  sized-cases :
      (tokens estimated : ℕ) (g : Option (ℕ × Option ℕ))
      → sized p tokens estimated v g ≡ some q
      → (growth : ℕ) × (tail : Option ℕ) × (g ≡ some (growth, tail))
        × (is_too_large v tokens (estimated + growth) p.details.target_after_tokens ≡ false)
        × (q ≡ repriced p tokens (estimated + growth) growth tail)
  sized-cases tokens estimated none h = absurd cc
  sized-cases tokens estimated (some (growth, tail)) h =
      elim (Bool-cases (is_too_large v tokens (estimated + growth) p.details.target_after_tokens)) [
        | inl large ↦ absurd (let e : none ≡ some q = rw large at h in cc)
        | inr fits ↦ (growth, tail, refl, fits, sym (some_inj (rw fits at h)))
      ]

  passed :
      (u : Usage) (t e : Option ℕ)
      → v.usage ≡ some u
      → u.tokens ≡ t
      → p.details.estimated_after_tokens ≡ e
      → usage_refuses_application u ≡ false
      → measured p v t e ≡ some q
      → IsPassed p v q
  passed u none e at_u at_t at_e ok h = absurd cc
  passed u (some tokens) none at_u at_t at_e ok h = absurd cc
  passed u (some tokens) (some estimated) at_u at_t at_e ok h =
      elim (Bool-cases (is_current p v tokens)) [
        | inr stale ↦ absurd (let e : none ≡ some q = rw stale at h in cc)
        | inl current ↦
            let (growth, tail, growth_at, fits, result) =
              sized-cases tokens estimated (growth_of p tokens v v.weights) (rw current at h) in
            record {
              usage = u;
              tokens = tokens;
              estimated = estimated;
              growth = growth;
              tail = tail;
              usage_at = at_u;
              accepted = ok;
              tokens_at = at_t;
              estimated_at = at_e;
              current = current;
              growth_at = growth_at;
              fits = fits;
              result = result;
            }
      ]

  used-IsPassed : (u : Option Usage) → v.usage ≡ u → used p v u ≡ some q → IsPassed p v q
  used-IsPassed none at h = absurd cc
  used-IsPassed (some u) at h = elim (Bool-cases (usage_refuses_application u)) [
    | inl no_proof ↦ absurd (let e : none ≡ some q = rw no_proof at h in cc)
    | inr ok ↦ passed u _ _ at refl refl ok (rw ok at h)
  ]

  pub revalidate_pending-IsPassed : revalidate_pending p v ≡ some q → IsPassed p v q
  unfolding revalidate_pending
  revalidate_pending-IsPassed h = used-IsPassed v.usage refl h

abbrev growth_value : Option (ℕ × Option ℕ) → ℕ
growth_value none = 0
growth_value (some (growth, tail)) = growth

growth-least :
    (p : PendingCompaction) (tokens : ℕ) (v : ReaderView) (g : ℕ) (tail : Option ℕ)
    → growth_of p tokens v v.weights ≡ some (g, tail)
    → tokens - p.tokens_before ≤ g
growth-least p tokens v g tail h = go v.weights h
  where
    cut_growth :
        (staged : List SessionMessage) (weigh : List SessionMessage → List ℕ) (a b : Option ℕ)
        → tail_growth p tokens v.entries staged weigh a b ≡ some (g, tail)
        → tokens - p.tokens_before ≤ g
    cut_growth staged weigh none b e = absurd cc
    cut_growth staged weigh (some a) none e = absurd cc
    cut_growth staged weigh (some a) (some b) e = let k = ap growth_value e in ground (arith, k)

    snap :
        (weigh : List SessionMessage → List ℕ) (o : Option ContextSnapshot)
        → snapshot_growth p tokens v weigh o ≡ some (g, tail)
        → tokens - p.tokens_before ≤ g
    snap weigh none e = absurd cc
    snap weigh (some s) e = cut_growth _ weigh _ _ e

    go :
        (w : Option (List SessionMessage → List ℕ))
        → growth_of p tokens v w ≡ some (g, tail)
        → tokens - p.tokens_before ≤ g
    go none e = let k = ap growth_value e in ground (arith, k)
    go (some weigh) e = snap weigh p.context_snapshot e

-- A prepared summary that passes the last gate leaves the context with the reserve below the
-- model's window, saves at least a tenth of what is measured, which is not empty, keeps within its
-- target's tolerance, and is priced at what was estimated and the growth of the measured total at
-- least.
pub revalidate_pending-fits :
    (p : PendingCompaction) (v : ReaderView) (q : PendingCompaction) (estimated after : ℕ)
    → revalidate_pending p v ≡ some q
    → p.details.estimated_after_tokens ≡ some estimated
    → q.details.estimated_after_tokens ≡ some after
    → (after + reserve v < v.context_window)
      × (q.tokens_before ≤ (q.tokens_before - after) * 10)
      × (estimated + (q.tokens_before - p.tokens_before) ≤ after)
      × (0 < q.tokens_before)
      × ((target : ℕ)
          → p.details.target_after_tokens ≡ some target
          → exceeds_yield_target after (target * 100) ≡ false)
unfolding repriced is_too_large
revalidate_pending-fits p v q estimated after h at_e at_a =
    let w = revalidate_pending-IsPassed p v q h in
    let same : w.estimated ≡ estimated = some_inj (sym w.estimated_at ∙ at_e) in
    let sum : after ≡ w.estimated + w.growth =
      some_inj (sym at_a ∙ ap (λ x. x.details.estimated_after_tokens) w.result) in
    let measured_at : q.tokens_before ≡ w.tokens = ap (λ x. x.tokens_before) w.result in
    let fits : is_too_large v q.tokens_before after p.details.target_after_tokens ≡ false =
      rw (measured_at, sum) w.fits in
    let grown : q.tokens_before - p.tokens_before ≤ w.growth =
      rw measured_at (growth-least p w.tokens v w.growth w.tail w.growth_at) in
    (
      ground (arith, fits),
      ground (arith, fits),
      omega (arith, same, sum, grown),
      ground (arith, fits),
      λ target at. ground (arith, fits, at),
    )

abbrev tail_value : Option (ℕ × Option ℕ) → Option ℕ
tail_value none = none
tail_value (some (growth, tail)) = tail

-- The growth of a summary that was just repriced.
module _ (p : PendingCompaction) (v : ReaderView) (tokens after g : ℕ) (tail : Option ℕ) where
  abbrev again : PendingCompaction
  again = repriced p tokens after g tail

  cut_regrowth :
      (staged : List SessionMessage) (weigh : List SessionMessage → List ℕ) (a b : Option ℕ)
      → tail_growth p tokens v.entries staged weigh a b ≡ some (g, tail)
      → tail_growth again tokens v.entries staged weigh a b ≡ some (0, tail)
  unfolding repriced
  cut_regrowth staged weigh none b e = absurd cc
  cut_regrowth staged weigh (some a) none e = absurd cc
  cut_regrowth staged weigh (some a) (some b) e =
      let current = total (drop a (weigh v.entries)) in
      let k : some current ≡ tail = ap tail_value e in
      let base : again.tail_baseline_tokens ≡ some current = rw⁻¹ k refl in
      let kept : or_baseline again.tail_baseline_tokens (total (drop b (weigh staged))) ≡ current =
        rw base refl in
      let zero_growth : max
            (current - or_baseline again.tail_baseline_tokens (total (drop b (weigh staged))))
            (tokens - tokens)
          ≡ 0 =
        omega (arith, kept) in
      rw (zero_growth, k) refl

  snap_regrowth :
      (weigh : List SessionMessage → List ℕ) (o : Option ContextSnapshot)
      → snapshot_growth p tokens v weigh o ≡ some (g, tail)
      → snapshot_growth again tokens v weigh o ≡ some (0, tail)
  unfolding repriced
  snap_regrowth weigh none e = absurd cc
  snap_regrowth weigh (some s) e = cut_regrowth _ weigh _ _ e

  regrowth :
      (w : Option (List SessionMessage → List ℕ))
      → growth_of p tokens v w ≡ some (g, tail)
      → growth_of again tokens v w ≡ some (0, tail)
  unfolding repriced
  regrowth none e =
      let k : none ≡ tail = ap tail_value e in
      let zero_growth : tokens - tokens ≡ 0 = omega arith in rw (zero_growth, k) refl
  regrowth (some weigh) e = snap_regrowth weigh p.context_snapshot e

  or_tail_twice :
      (t : Option ℕ) (before : Option ℕ) → or_tail t (or_tail t before) ≡ or_tail t before
  or_tail_twice none before = refl
  or_tail_twice (some current) before = refl

  repriced_twice : repriced again tokens (after + 0) 0 tail ≡ again
  unfolding repriced
  repriced_twice = rw (or_tail_twice tail p.tail_baseline_tokens, add-zero, add-zero) refl

  again_current : is_current p v tokens ≡ true → is_current again v tokens ≡ true
  unfolding is_current pending_matches_branch repriced
  again_current h = ground (arith, h)

  same_target : again.details.target_after_tokens ≡ p.details.target_after_tokens
  unfolding repriced
  same_target = refl

  new_estimate : again.details.estimated_after_tokens ≡ some after
  unfolding repriced
  new_estimate = refl

  -- A second pass over what a first one gave.
  repriced_again :
      (u : Usage)
      → v.usage ≡ some u
      → usage_refuses_application u ≡ false
      → u.tokens ≡ some tokens
      → is_current p v tokens ≡ true
      → growth_of p tokens v v.weights ≡ some (g, tail)
      → is_too_large v tokens after p.details.target_after_tokens ≡ false
      → revalidate_pending again v ≡ some again
  unfolding revalidate_pending
  repriced_again u at ok tokens_at current growth_at fits =
      let current' = again_current current in
      let growth' = regrowth v.weights growth_at in
      let target : again.details.target_after_tokens ≡ p.details.target_after_tokens =
        same_target in
      let estimated : again.details.estimated_after_tokens ≡ some after = new_estimate in
      let fits' : is_too_large v tokens (after + 0) again.details.target_after_tokens ≡ false =
        rw (add-zero, target) fits in
      rw (at, ok, tokens_at, estimated, current', growth', fits') (ap some repriced_twice)

-- A prepared summary that passed the last gate passes it again unchanged where the session has not
-- changed: no growth of the tail is charged twice.
pub revalidate_pending-idempotent :
    (p : PendingCompaction) (v : ReaderView) (q : PendingCompaction)
    → revalidate_pending p v ≡ some q
    → revalidate_pending q v ≡ some q
revalidate_pending-idempotent p v q h =
    let w = revalidate_pending-IsPassed p v q h in
    subst (λ x. revalidate_pending x v ≡ some x) (sym w.result)
      (repriced_again p v w.tokens (w.estimated + w.growth) w.growth w.tail w.usage w.usage_at
        w.accepted w.tokens_at w.current w.growth_at w.fits)
