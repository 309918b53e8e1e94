-- ===== src/OpenLoops/Laws.antt =====
-- What merging open loops keeps.
use pi_smart_compact.Base.{
  ℕ, zero, suc, ◌+◌, ◌≤◌, ◌<◌, ◌≡◌, refl, ◌≢◌, ◌∙◌, Bool, true, false, List, [], ◌∷◌, ◌++◌, String,
  none, arith, leb, if◌then◌else◌, take, drop, length, All, Bool-cases, inl, inr, length-append,
  le_trans, ap,
}
use pi_smart_compact.Window.Soft.{contains}
use pi_smart_compact.OpenLoops.{
  OpenLoop, LoopPriority, LoopStatus, critical, high, normal, low, open_loop, in_progress, resolved,
  is_resolved, loop_priority, first_some, unseen, merge_by, find_key, place, sort_by, loop_rank,
  loop_key, renumber, merge_open_loops,
}

module _ {ℓ} {A : Type ℓ} (key : A → String) where
  find_unseen :
      (k : String) (seen : List String) (items : List A)
      → k ≢ ""
      → find_key key k (unseen key seen items)
        ≡ (if contains seen k then none else find_key key k items)
  unfolding unseen contains
  find_unseen k seen [] h = ground arith
  find_unseen k seen (a ∷ items) h =
      ground (arith, find_unseen k seen items h, find_unseen k (key a ∷ seen) items h)

  length-unseen-le :
      (seen : List String) (items : List A) → length (unseen key seen items) ≤ length items
  unfolding unseen
  length-unseen-le seen [] = omega arith
  length-unseen-le seen (a ∷ items) =
      ground (arith, length-unseen-le seen items, length-unseen-le (key a ∷ seen) items)

  find_key-append :
      (k : String) (xs ys : List A)
      → find_key key k (xs ++ ys) ≡ first_some (find_key key k xs) (find_key key k ys)
  find_key-append k [] ys = refl
  find_key-append k (x ∷ xs) ys = ground (arith, find_key-append k xs ys)

  take_all : (n : ℕ) (xs : List A) → length xs ≤ n → take n xs ≡ xs
  take_all zero [] h = refl
  take_all zero (x ∷ xs) h = absurd (omega arith)
  take_all (suc n) [] h = refl
  take_all (suc n) (x ∷ xs) h = ap (λ l. x ∷ l) (take_all n xs (omega arith))

  -- Where the limit has room for all, the item that a merge has for a non-empty key is the first
  -- one with it: the current list's, or else the previous list's. None is lost.
  pub merge_by-find :
      (k : String) (current previous : List A) (limit : ℕ)
      → k ≢ ""
      → length current + length previous ≤ limit
      → find_key key k (merge_by key current previous limit)
        ≡ first_some (find_key key k current) (find_key key k previous)
  unfolding merge_by contains
  merge_by-find k current previous limit h room =
      let items = current ++ previous in
      let small : length (unseen key [] items) ≤ limit =
        omega (arith, room, length-unseen-le [] items, length-append current previous) in
      rw (take_all limit (unseen key [] items) small)
        (find_unseen k [] items h ∙ find_key-append k current previous)

-- The sum of a measure over the loops.
abbrev pub weigh {ℓ} : {A : Type ℓ} → (A → ℕ) → List A → ℕ
weigh f [] = 0
weigh f (a ∷ items) = f a + weigh f items

module _ {ℓ} {A : Type ℓ} (rank : A → ℕ) where
  abbrev pub AtLeast : ℕ → List A → Type 0
  AtLeast r items = All (λ a. r ≤ rank a) items

  -- Each item's rank is at most that of the items after it.
  abbrev pub IsSorted : List A → Type 0
  IsSorted [] = Unit
  IsSorted (a ∷ items) = AtLeast (rank a) items × IsSorted items

  weigh-place :
      (f : A → ℕ) (a : A) (items : List A) → weigh f (place rank a items) ≡ f a + weigh f items
  unfolding place
  weigh-place f a [] = refl
  weigh-place f a (b ∷ items) = ground (arith, weigh-place f a items)

  pub weigh-sort_by : (f : A → ℕ) (items : List A) → weigh f (sort_by rank items) ≡ weigh f items
  unfolding sort_by
  weigh-sort_by f [] = refl
  weigh-sort_by f (a ∷ items) =
      omega (arith, weigh-place f a (sort_by rank items), weigh-sort_by f items)

  AtLeast-weaken : (r s : ℕ) (items : List A) → r ≤ s → AtLeast s items → AtLeast r items
  AtLeast-weaken r s [] h v = tt
  AtLeast-weaken r s (a ∷ items) h (v, vs) = (le_trans h v, AtLeast-weaken r s items h vs)

  AtLeast-place :
      (r : ℕ) (a : A) (items : List A)
      → r ≤ rank a
      → AtLeast r items
      → AtLeast r (place rank a items)
  unfolding place
  AtLeast-place r a [] h v = (h, tt)
  AtLeast-place r a (b ∷ items) h (v, vs) = elim (Bool-cases (leb (rank a) (rank b))) [
    | inl lower ↦ rw (lower, place) (h, (v, vs))
    | inr upper ↦ rw (upper, place) (v, AtLeast-place r a items h vs)
  ]

  place-IsSorted : (a : A) (items : List A) → IsSorted items → IsSorted (place rank a items)
  unfolding place
  place-IsSorted a [] v = (tt, tt)
  place-IsSorted a (b ∷ items) (v, vs) = elim (Bool-cases (leb (rank a) (rank b))) [
    | inl lower ↦
        let below : rank a ≤ rank b = ground arith in
        rw (lower, place) ((below, AtLeast-weaken (rank a) (rank b) items below v), (v, vs))
    | inr upper ↦
        let below : rank b ≤ rank a = ground arith in
        rw (upper, place) (AtLeast-place (rank b) a items below v, place-IsSorted a items vs)
  ]

  pub sort_by-IsSorted : (items : List A) → IsSorted (sort_by rank items)
  unfolding sort_by
  sort_by-IsSorted [] = tt
  sort_by-IsSorted (a ∷ items) = place-IsSorted a (sort_by rank items) (sort_by-IsSorted items)

  AtLeast-drop : (r n : ℕ) (items : List A) → AtLeast r items → AtLeast r (drop n items)
  AtLeast-drop r zero items v = v
  AtLeast-drop r (suc n) [] v = tt
  AtLeast-drop r (suc n) (a ∷ items) (v, vs) = AtLeast-drop r n items vs

  -- What a cut of a sorted list keeps ranks before what it drops.
  cut_first :
      (n : ℕ) (items : List A)
      → IsSorted items
      → All (λ a. AtLeast (rank a) (drop n items)) (take n items)
  cut_first zero items v = tt
  cut_first (suc n) [] v = tt
  cut_first (suc n) (a ∷ items) (v, vs) = (AtLeast-drop (rank a) n items v, cut_first n items vs)

weigh-take-drop :
    {A : Type 0} (f : A → ℕ) (n : ℕ) (items : List A)
    → weigh f (take n items) + weigh f (drop n items) ≡ weigh f items
weigh-take-drop f zero items = omega arith
weigh-take-drop f (suc n) [] = omega arith
weigh-take-drop f (suc n) (a ∷ items) = omega (arith, weigh-take-drop f n items)

pub length-take-le : {A : Type 0} (n : ℕ) (items : List A) → length (take n items) ≤ n
length-take-le zero items = omega arith
length-take-le (suc n) [] = omega arith
length-take-le (suc n) (a ∷ items) = omega (arith, length-take-le n items)

-- The one priority is as urgent as the other, or more.
abbrev pub is_as_urgent : LoopPriority → LoopPriority → Bool
is_as_urgent critical q = true
is_as_urgent high critical = false
is_as_urgent high q = true
is_as_urgent normal critical = false
is_as_urgent normal high = false
is_as_urgent normal q = true
is_as_urgent low low = true
is_as_urgent low q = false

-- A loop that is resolved stands before resolved ones only; of two that are both resolved, or both
-- not, the first is as urgent as the other, or more.
abbrev pub IsBefore : OpenLoop → OpenLoop → Type 0
IsBefore a b =
    (a.status ≡ resolved → b.status ≡ resolved)
    × (is_resolved a.status ≡ is_resolved b.status → is_as_urgent a.priority b.priority ≡ true)

urgent_by_number :
    (p q : LoopPriority) → loop_priority p ≤ loop_priority q → is_as_urgent p q ≡ true
urgent_by_number critical q h = refl
urgent_by_number high critical h = absurd (omega (arith, h))
urgent_by_number high high h = refl
urgent_by_number high normal h = refl
urgent_by_number high low h = refl
urgent_by_number normal critical h = absurd (omega (arith, h))
urgent_by_number normal high h = absurd (omega (arith, h))
urgent_by_number normal normal h = refl
urgent_by_number normal low h = refl
urgent_by_number low critical h = absurd (omega (arith, h))
urgent_by_number low high h = absurd (omega (arith, h))
urgent_by_number low normal h = absurd (omega (arith, h))
urgent_by_number low low h = refl

loop_priority-lt : (p : LoopPriority) → loop_priority p < 4
loop_priority-lt critical = omega arith
loop_priority-lt high = omega arith
loop_priority-lt normal = omega arith
loop_priority-lt low = omega arith

status_before :
    (s u : LoopStatus) (p q : LoopPriority)
    → (if is_resolved s then 4 else 0) + loop_priority p
      ≤ (if is_resolved u then 4 else 0) + loop_priority q
    → s ≡ resolved
    → u ≡ resolved
status_before s resolved p q h e = refl
status_before open_loop open_loop p q h e = e
status_before open_loop in_progress p q h e = absurd (cc)
status_before in_progress open_loop p q h e = absurd (cc)
status_before in_progress in_progress p q h e = e
status_before resolved open_loop p q h e = absurd (omega (arith, h, loop_priority-lt q))
status_before resolved in_progress p q h e = absurd (omega (arith, h, loop_priority-lt q))

rank-IsBefore : (a b : OpenLoop) → loop_rank a ≤ loop_rank b → IsBefore a b
rank-IsBefore a b h = (
  status_before a.status b.status a.priority b.priority h,
  λ same. urgent_by_number a.priority b.priority (ground (arith, h, same)),
)

All-IsBefore :
    (a : OpenLoop) (items : List OpenLoop)
    → AtLeast loop_rank (loop_rank a) items
    → All (λ b. IsBefore a b) items
All-IsBefore a [] h = tt
All-IsBefore a (b ∷ items) h = (rank-IsBefore a b h.0, All-IsBefore a items h.1)

each-IsBefore :
    (kept dropped : List OpenLoop)
    → All (λ a. AtLeast loop_rank (loop_rank a) dropped) kept
    → All (λ a. All (λ b. IsBefore a b) dropped) kept
each-IsBefore [] dropped h = tt
each-IsBefore (a ∷ kept) dropped h = (All-IsBefore a dropped h.0, each-IsBefore kept dropped h.1)

-- A merge of open loops keeps at most 25 of the loops that are left by key, under new numbers, and
-- none that it drops goes before one that it keeps: a resolved loop is kept only where all that
-- are dropped are resolved, and of two that are both resolved, or both not, the kept one has a
-- priority at least as urgent.
pub merge_open_loops-keeps_first :
    (normalize : String → String) (current previous : List OpenLoop)
    → (kept : List OpenLoop) × (dropped : List OpenLoop) × (merge_open_loops normalize current
          previous
        ≡ renumber 0 kept)
      × ((f : OpenLoop → ℕ)
          → weigh f kept + weigh f dropped
            ≡ weigh f (unseen (loop_key normalize) [] (current ++ previous)))
      × All (λ a. All (λ b. IsBefore a b) dropped) kept
      × (length kept ≤ 25)
unfolding merge_open_loops
merge_open_loops-keeps_first normalize current previous =
    let merged = unseen (loop_key normalize) [] (current ++ previous) in
    let sorted = sort_by loop_rank merged in
    (
      take 25 sorted,
      drop 25 sorted,
      refl,
      λ f. weigh-take-drop f 25 sorted ∙ weigh-sort_by loop_rank f merged,
      each-IsBefore (take 25 sorted) (drop 25 sorted)
          (cut_first loop_rank 25 sorted (sort_by-IsSorted loop_rank merged)),
      length-take-le 25 sorted,
    )
