-- ===== src/OrderedMap/Laws.antt =====
-- What the operations of a `Map` with distinct keys do to its contents.
use pi_smart_compact.Base.{
  ◌+◌, ◌≤◌, ◌≡◌, refl, ◌≢◌, [], ◌∷◌, ◌++◌, Option, none, some, ite, if_pos, if_neg, lookup, arith,
  length, inl, inr, ◌⊎◌, subst, sym, All,
}
use pi_smart_compact.OrderedMap.{OrderedMap, delete, set, last_key_or}

module _ {ℓ} {K V : Type ℓ} (dec : Discrete K) where
  -- No key twice.
  abbrev pub IsDistinct : OrderedMap K V → Type ℓ
  IsDistinct [] = Unit
  IsDistinct ((k, v) ∷ m) = (lookup dec k m ≡ none) × IsDistinct m

  pub lookup-delete_ne :
      (m : OrderedMap K V) (j k : K) → j ≢ k → lookup dec j (delete dec m k) ≡ lookup dec j m
  unfolding lookup delete
  lookup-delete_ne [] j k h = refl
  lookup-delete_ne ((i, w) ∷ m) j k h = ground (arith, lookup-delete_ne m j k)

  pub lookup-delete_self :
      (m : OrderedMap K V) (k : K) → IsDistinct m → lookup dec k (delete dec m k) ≡ none
  unfolding lookup delete
  lookup-delete_self [] k h = refl
  lookup-delete_self ((i, w) ∷ m) k h = ground (arith, lookup-delete_self m k)

  pub lookup-set :
      (m : OrderedMap K V) (j k : K) (v : V)
      → lookup dec j (set dec m k v) ≡ ite (dec j k) (some v) (lookup dec j m)
  unfolding lookup set
  lookup-set [] j k v = refl
  lookup-set ((i, w) ∷ m) j k v = ground (arith, lookup-set m j k v)

  pub delete_absent : (m : OrderedMap K V) (k : K) → lookup dec k m ≡ none → delete dec m k ≡ m
  unfolding lookup delete
  delete_absent [] k h = refl
  delete_absent ((i, w) ∷ m) k h = ground (arith, delete_absent m k)

  pub set_absent :
      (m : OrderedMap K V) (k : K) (v : V)
      → lookup dec k m ≡ none
      → set dec m k v ≡ m ++ (k, v) ∷ []
  unfolding lookup set
  set_absent [] k v h = refl
  set_absent ((i, w) ∷ m) k v h = ground (arith, set_absent m k v)

  pub lookup-delete-none :
      (m : OrderedMap K V) (j k : K) → lookup dec j m ≡ none → lookup dec j (delete dec m k) ≡ none
  unfolding lookup delete
  lookup-delete-none [] j k h = refl
  lookup-delete-none ((i, w) ∷ m) j k h = ground (arith, lookup-delete-none m j k)

  pub delete-IsDistinct : (m : OrderedMap K V) (k : K) → IsDistinct m → IsDistinct (delete dec m k)
  unfolding delete
  delete-IsDistinct [] k h = tt
  delete-IsDistinct ((i, w) ∷ m) k h =
      ground (arith, delete-IsDistinct m k, lookup-delete-none m i k)

  pub set-IsDistinct :
      (m : OrderedMap K V) (k : K) (v : V) → IsDistinct m → IsDistinct (set dec m k v)
  unfolding lookup set
  set-IsDistinct [] k v h = (refl, tt)
  set-IsDistinct ((i, w) ∷ m) k v h = elim (dec k i) [
    | yes p ↦ ground arith
    | no p ↦ ground (arith, set-IsDistinct m k v, lookup-set m i k v)
  ]

  pub delete_first : (m : OrderedMap K V) (k : K) (v : V) → delete dec ((k, v) ∷ m) k ≡ m
  unfolding delete
  delete_first m k v = if_pos (dec k k) refl _ _

  pub length-delete :
      (m : OrderedMap K V) (k : K) (v : V)
      → lookup dec k m ≡ some v
      → length (delete dec m k) + 1 ≡ length m
  unfolding lookup delete
  length-delete [] k v h = ground arith
  length-delete ((i, w) ∷ m) k v h = ground (arith, length-delete m k v)

  pub length-delete-le : (m : OrderedMap K V) (k : K) → length (delete dec m k) ≤ length m
  unfolding delete
  length-delete-le [] k = omega arith
  length-delete-le ((i, w) ∷ m) k = ground (arith, length-delete-le m k)

  pub length-set-le : (m : OrderedMap K V) (k : K) (v : V) → length (set dec m k v) ≤ length m + 1
  unfolding set
  length-set-le [] k v = omega arith
  length-set-le ((i, w) ∷ m) k v = ground (arith, length-set-le m k v)

  pub lookup-append :
      (xs ys : OrderedMap K V) (k : K)
      → lookup dec k xs ≡ none
      → lookup dec k (xs ++ ys) ≡ lookup dec k ys
  unfolding lookup
  lookup-append [] ys k h = refl
  lookup-append ((i, w) ∷ xs) ys k h = ground (arith, lookup-append xs ys k)

  lookup-middle-ne-none :
      (xs ys : OrderedMap K V) (k : K) (v : V) → lookup dec k (xs ++ (k, v) ∷ ys) ≢ none
  unfolding lookup
  lookup-middle-ne-none [] ys k v h = ground arith
  lookup-middle-ne-none ((i, w) ∷ xs) ys k v h = ground (arith, lookup-middle-ne-none xs ys k v)

  -- Where no key stands twice, a key is not among those before it.
  pub fresh_before :
      (xs ys : OrderedMap K V) (k : K) (v : V)
      → IsDistinct (xs ++ (k, v) ∷ ys)
      → lookup dec k xs ≡ none
  unfolding lookup
  fresh_before [] ys k v h = refl
  fresh_before ((i, w) ∷ xs) ys k v h = elim (dec k i) [
    | yes p ↦ absurd (
        lookup-middle-ne-none xs ys k v
          (subst (λ x. lookup dec x (xs ++ (k, v) ∷ ys) ≡ none) (sym p) h.0))
    | no p ↦ rw (if_neg _ p) (fresh_before xs ys k v h.1)
  ]

  pub delete_middle :
      (xs ys : OrderedMap K V) (k : K) (v : V)
      → lookup dec k xs ≡ none
      → delete dec (xs ++ (k, v) ∷ ys) k ≡ xs ++ ys
  unfolding lookup delete
  delete_middle [] ys k v h = if_pos (dec k k) refl _ _
  delete_middle ((i, w) ∷ xs) ys k v h = ground (arith, delete_middle xs ys k v)

  -- The last key of a longer map, and of one that a key was deleted from.
  pub last_key_or-append :
      (o : Option K) (xs : OrderedMap K V) (k : K) (v : V)
      → last_key_or o (xs ++ (k, v) ∷ []) ≡ some k
  last_key_or-append o [] k v = refl
  last_key_or-append o ((i, w) ∷ xs) k v = last_key_or-append (some i) xs k v

  pub last_key_or-delete_ne :
      (o : Option K) (m : OrderedMap K V) (k n : K)
      → last_key_or o m ≡ some n
      → n ≢ k
      → last_key_or o (delete dec m k) ≡ some n
  unfolding delete
  last_key_or-delete_ne o [] k n h ne = h
  last_key_or-delete_ne o ((i, w) ∷ []) k n h ne = ground arith
  last_key_or-delete_ne o ((i, w) ∷ (j, x) ∷ m) k n h ne =
      ground (arith, last_key_or-delete_ne (some i) ((j, x) ∷ m) k n)

  pub lookup-last :
      (o : Option K) (m : OrderedMap K V) (n : K)
      → last_key_or o m ≡ some n
      → (o ≡ some n) ⊎ ((v : V) × (lookup dec n m ≡ some v))
  unfolding lookup
  lookup-last o [] n h = inl h
  lookup-last o ((i, w) ∷ m) n h = elim (dec n i) [
    | yes p ↦ inr (w, if_pos (dec n i) p _ _)
    | no p ↦ elim (lookup-last (some i) m n h) [
      | inl e ↦ absurd (p (ground arith))
      | inr (v, e) ↦ inr (v, rw (if_neg _ p) e)
    ]
  ]

module _ {ℓ} {K V : Type ℓ} where
  pub last_key_or-ne-none : (k : K) (m : OrderedMap K V) → last_key_or (some k) m ≢ none
  last_key_or-ne-none k [] h = cc
  last_key_or-ne-none k ((j, v) ∷ m) h = last_key_or-ne-none j m h

  pub nil_of_last_key_or : (m : OrderedMap K V) → last_key_or none m ≡ none → m ≡ []
  nil_of_last_key_or [] h = refl
  nil_of_last_key_or ((k, v) ∷ m) h = absurd (last_key_or-ne-none k m h)

module _ {ℓ κ} {K V : Type ℓ} (dec : Discrete K) (P : K × V → Type κ) where
  pub All-delete : (m : OrderedMap K V) (k : K) → All P m → All P (delete dec m k)
  unfolding delete
  All-delete [] k h = tt
  All-delete ((i, w) ∷ m) k h = elim (dec k i) [
    | yes p ↦ rw (if_pos _ p) h.1
    | no p ↦ rw (if_neg _ p) (h.0, All-delete m k h.1)
  ]

  pub All-set : (m : OrderedMap K V) (k : K) (v : V) → P (k, v) → All P m → All P (set dec m k v)
  unfolding set
  All-set [] k v p h = (p, tt)
  All-set ((i, w) ∷ m) k v p h = elim (dec k i) [
    | yes e ↦ rw (if_pos _ e) (p, h.1)
    | no e ↦ rw (if_neg _ e) (h.0, All-set m k v p h.1)
  ]

  pub All-lookup :
      (m : OrderedMap K V) (k : K) (v : V) → All P m → lookup dec k m ≡ some v → P (k, v)
  unfolding lookup
  All-lookup [] k v h e = ground arith
  All-lookup ((i, w) ∷ m) k v h e = elim (dec k i) [
    | yes p ↦ subst P (ground arith) h.0
    | no p ↦ All-lookup m k v h.1 (rw (if_neg _ p) at e)
  ]
