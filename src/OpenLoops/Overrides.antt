-- ===== src/OpenLoops/Overrides.antt =====
-- What the user's overrides of loops do.
use pi_smart_compact.Base.{
  ℕ, ◌≡◌, refl, ◌≢◌, List, [], ◌∷◌, map, String, Option, some, arith, String_discrete,
}
use pi_smart_compact.OpenLoops.{
  OpenLoop, LoopOverride, LoopPatch, first_some, find_key, overridden, pin_rank,
  apply_loop_overrides, upsert_loop_override,
}
use pi_smart_compact.OpenLoops.Laws.{weigh, IsSorted, weigh-sort_by, sort_by-IsSorted}

abbrev pub override_at : String → List LoopOverride → Option LoopOverride
override_at k overrides = find_key (λ (o : LoopOverride). o.summary_key) k overrides

module _ (normalize : String → String) where
  -- The overrides leave no loop out and double none, and put the pinned loops before the others.
  pub apply_loop_overrides-IsSorted :
      (loops : List OpenLoop) (overrides : List LoopOverride)
      → IsSorted (pin_rank normalize overrides) (apply_loop_overrides normalize loops overrides)
        × ((f : OpenLoop → ℕ)
            → weigh f (apply_loop_overrides normalize loops overrides)
              ≡ weigh f (map (overridden normalize overrides) loops))
  unfolding apply_loop_overrides
  apply_loop_overrides-IsSorted loops overrides =
      let changed = map (overridden normalize overrides) loops in
      (
        sort_by-IsSorted (pin_rank normalize overrides) changed,
        λ f. weigh-sort_by (pin_rank normalize overrides) f changed,
      )

  -- The patched override is the one found under the loop's key, with what the patch leaves open
  -- taken from the one before it; what is found under any other key is as before.
  pub upsert_loop_override-find :
      (overrides : List LoopOverride) (loop : OpenLoop) (patch : LoopPatch)
      → ((o : LoopOverride) × (override_at
              (normalize loop.summary)
              (upsert_loop_override normalize overrides loop patch)
            ≡ some o)
          × (o.id ≡ loop.id)
          × ((old : LoopOverride)
              → override_at (normalize loop.summary) overrides ≡ some old
              → (o.status ≡ first_some patch.status old.status)
                × (o.priority ≡ first_some patch.priority old.priority)
                × (o.pinned ≡ first_some patch.pinned old.pinned)))
        × ((k : String)
            → k ≢ normalize loop.summary
            → override_at k (upsert_loop_override normalize overrides loop patch)
              ≡ override_at k overrides)
  unfolding upsert_loop_override
  upsert_loop_override-find [] loop patch = (
    (
      record {
        id = loop.id;
        summary_key = normalize loop.summary;
        status = patch.status;
        priority = patch.priority;
        pinned = patch.pinned;
      },
      ground arith,
      refl,
      λ old e. absurd (ground arith),
    ),
    λ k n. ground arith,
  )
  upsert_loop_override-find (o ∷ overrides) loop patch =
      let ((new, found, same_id, fields), others) =
        upsert_loop_override-find overrides loop patch in
      elim (String_discrete o.summary_key (normalize loop.summary)) [
        | yes p ↦ (
          (
            record {
              id = loop.id;
              summary_key = normalize loop.summary;
              status = first_some patch.status o.status;
              priority = first_some patch.priority o.priority;
              pinned = first_some patch.pinned o.pinned;
            },
            ground arith,
            refl,
            λ old e. let same : o ≡ old = ground arith in rw same (refl, refl, refl),
          ),
          λ k n. ground arith,
        )
        | no p ↦ (
          (new, ground arith, same_id, λ old e. fields old (ground arith)),
          λ k n. ground (arith, others k n),
        )
      ]
