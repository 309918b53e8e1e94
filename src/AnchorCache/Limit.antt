-- ===== src/AnchorCache/Limit.antt =====
-- The loops of `enforceMarkerLimit` of `src/app/anchor-cache.ts`.
use pi_smart_compact.Base.{
  ℕ, zero, suc, ◌≤◌, ◌≡◌, refl, List, [], ◌∷◌, true, Option, none, some, arith, ltb, length,
  Bool-cases, inl, inr, ◌⊎◌, All, All-append,
}
use pi_smart_compact.AnchorCache.{
  AnthropicPayload, system, tools, messages, Section, MarkerRef, marker_limit, list_markers, is_in,
  of_section, foreign, but_last, only_last, evictable, unmark, first_of, evict_target, evict_top,
  foreign_weight, owned_weight, total_of, count_markers, drop_nested_foreign_marker, go_on,
  evict_nested, enforce_marker_limit,
}
use pi_smart_compact.AnchorCache.Totals.{
  IsLessOf, drop_nested_foreign_marker-IsLessOf, count_markers-le, is_foreign_ref, unmark-IsLessOf,
  IsTrue, list_markers-IsTrue,
}

module _ (P : MarkerRef → Type 0) where
  of_section-All : (s : Section) (m : List MarkerRef) → All P m → All P (of_section s m)
  unfolding of_section
  of_section-All s [] h = tt
  of_section-All s (r ∷ m) h = elim (Bool-cases (is_in s r)) [
    | inl a ↦ rw a (h.0, of_section-All s m h.1)
    | inr a ↦ rw a (of_section-All s m h.1)
  ]

  but_last-All : (m : List MarkerRef) → All P m → All P (but_last m)
  unfolding but_last
  but_last-All [] h = tt
  but_last-All (r ∷ []) h = tt
  but_last-All (r ∷ q ∷ m) h = (h.0, but_last-All (q ∷ m) h.1)

  only_last-All : (m : List MarkerRef) → All P m → All P (only_last m)
  unfolding only_last
  only_last-All [] h = tt
  only_last-All (r ∷ []) h = h
  only_last-All (r ∷ q ∷ m) h = only_last-All (q ∷ m) h.1

module _ (p : AnthropicPayload) where
  foreign-All :
      (m : List MarkerRef)
      → All (λ r. IsTrue p r) m
      → All (λ r. is_foreign_ref p r ≡ true) (foreign m)
  unfolding foreign
  foreign-All [] h = tt
  foreign-All (r ∷ m) h = elim (Bool-cases r.owned) [
    | inl a ↦ rw a (foreign-All m h.1)
    | inr a ↦ rw a (ground (arith, h.0, a), foreign-All m h.1)
  ]

  -- What may be evicted is foreign.
  evictable-All : All (λ r. is_foreign_ref p r ≡ true) (evictable (list_markers p))
  unfolding evictable
  evictable-All =
      let P : MarkerRef → Type 0 = λ r. is_foreign_ref p r ≡ true in
      let Q : MarkerRef → Type 0 = λ r. IsTrue p r in
      let m = list_markers p in
      let h = list_markers-IsTrue p in
      let in_messages = of_section messages m in
      let in_system = of_section system m in
      All-append P (foreign (but_last in_messages)) _
        (foreign-All _ (but_last-All Q in_messages (of_section-All Q messages m h)))
        (All-append P (foreign (but_last in_system)) _
          (foreign-All _ (but_last-All Q in_system (of_section-All Q system m h)))
          (All-append P (foreign (of_section tools m)) _
            (foreign-All _ (of_section-All Q tools m h))
            (foreign-All _ (only_last-All Q in_system (of_section-All Q system m h)))))

evict_top-owned :
    (fuel : ℕ) (p : AnthropicPayload)
    → total_of owned_weight (evict_top fuel p) ≡ total_of owned_weight p
unfolding evict_top
evict_top-owned zero p = refl
evict_top-owned (suc fuel) p = elim (Bool-cases (ltb marker_limit (length (list_markers p)))) [
  | inr fits ↦ rw fits refl
  | inl over ↦
      rw over (next (λ q. evict_top-owned fuel q) (evictable (list_markers p)) (evictable-All p))
]
  where
    next :
        ((q : AnthropicPayload)
          → total_of owned_weight (evict_top fuel q) ≡ total_of owned_weight q)
        → (m : List MarkerRef) → All (λ r. is_foreign_ref p r ≡ true) m
        → total_of owned_weight (evict_target (λ q. evict_top fuel q) p (first_of m))
          ≡ total_of owned_weight p
    next rest [] h = refl
    next rest (r ∷ m) h = omega (arith, rest (unmark p r), (unmark-IsLessOf p r h.0).1)

-- With as much fuel as there are foreign markers the second loop ends by its own tests.
evict_nested-IsWithin :
    (fuel : ℕ) (p : AnthropicPayload)
    → total_of foreign_weight p ≤ fuel
    → (total_of owned_weight (evict_nested fuel p) ≡ total_of owned_weight p)
      × ((count_markers (evict_nested fuel p) ≤ marker_limit)
          ⊎ (count_markers (evict_nested fuel p) ≤ total_of owned_weight p))
unfolding evict_nested
evict_nested-IsWithin zero p h = (refl, inr (omega (arith, h, count_markers-le p)))
evict_nested-IsWithin (suc fuel) p h = elim (Bool-cases (ltb marker_limit (count_markers p))) [
  | inr fits ↦ rw fits (refl, inl (ground (arith, fits)))
  | inl over ↦ rw over (
      next (λ q less. evict_nested-IsWithin fuel q less) (drop_nested_foreign_marker p)
        (drop_nested_foreign_marker-IsLessOf p))
]
  where
    next :
        ((q : AnthropicPayload)
          → total_of foreign_weight q ≤ fuel
          → (total_of owned_weight (evict_nested fuel q) ≡ total_of owned_weight q)
            × ((count_markers (evict_nested fuel q) ≤ marker_limit)
                ⊎ (count_markers (evict_nested fuel q) ≤ total_of owned_weight q)))
        → (o : Option AnthropicPayload) → IsLessOf p o
        → (total_of owned_weight (go_on (λ q. evict_nested fuel q) p o) ≡ total_of owned_weight p)
          × ((count_markers (go_on (λ q. evict_nested fuel q) p o) ≤ marker_limit)
              ⊎ (count_markers (go_on (λ q. evict_nested fuel q) p o) ≤ total_of owned_weight p))
    next rest none k = (refl, inr (omega (arith, k, count_markers-le p)))
    next rest (some q) k =
        let t = rest q (omega (arith, k.0, h)) in
        (omega (arith, t.0, k.1), elim t.1 [ inl a ↦ inl a | inr a ↦ inr (omega (arith, a, k.1)) ])

-- Where at most four cache markers are owned, a request has at most four markers that count after
-- the limit is enforced, however they are nested, and as many owned ones as before.
pub enforce_marker_limit-IsWithin :
    (p : AnthropicPayload)
    → total_of owned_weight p ≤ marker_limit
    → (count_markers (enforce_marker_limit p) ≤ marker_limit)
      × (total_of owned_weight (enforce_marker_limit p) ≡ total_of owned_weight p)
unfolding enforce_marker_limit
enforce_marker_limit-IsWithin p few =
    let n = length (list_markers p) in
    let q = evict_top n p in
    let kept = evict_top-owned n p in
    let t = evict_nested-IsWithin (total_of foreign_weight q) q (omega arith) in
    (elim t.1 [ inl a ↦ a | inr a ↦ omega (arith, a, kept, few) ], omega (arith, t.0, kept))
