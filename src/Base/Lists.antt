-- ===== src/Base/Lists.antt =====
-- Lists measured and cut by native numbers, under the library's names.
use Prim.Native.Nat.{ℕ, zero, suc, ◌+◌, ◌-◌, ◌≤◌, ◌<◌}
use mathlib.Core.Path.{◌≡◌, refl, ap}
use mathlib.Core.Logic.{◌≢◌}
use mathlib.Core.List.{List, [], ◌∷◌, ◌++◌}
use mathlib.Core.Option.{Option, none, some}
use native.Mathlib.Omega.{arith}

module _ {ℓ} {A : Type ℓ} where
  abbrev pub length : List A → ℕ
  length [] = 0
  length (x ∷ xs) = suc (length xs)

  abbrev pub get_elem? : List A → ℕ → Option A
  get_elem? [] i = none
  get_elem? (x ∷ xs) zero = some x
  get_elem? (x ∷ xs) (suc i) = get_elem? xs i

  abbrev pub take : ℕ → List A → List A
  take zero xs = []
  take (suc n) [] = []
  take (suc n) (x ∷ xs) = x ∷ take n xs

  abbrev pub drop : ℕ → List A → List A
  drop zero xs = xs
  drop (suc n) [] = []
  drop (suc n) (x ∷ xs) = drop n xs

  pub length_pos : (xs : List A) → xs ≢ [] → 0 < length xs
  length_pos [] h = absurd (h refl)
  length_pos (x ∷ xs) h = omega arith

  pub length-append : (xs ys : List A) → length (xs ++ ys) ≡ length xs + length ys
  length-append [] ys = omega arith
  length-append (x ∷ xs) ys = omega (arith, length-append xs ys)

  pub length-drop : (n : ℕ) (xs : List A) → length (drop n xs) ≡ length xs - n
  length-drop zero xs = omega arith
  length-drop (suc n) [] = omega arith
  length-drop (suc n) (x ∷ xs) = omega (arith, length-drop n xs)

  drop-nil : (n : ℕ) → drop n [] ≡ []
  drop-nil zero = refl
  drop-nil (suc n) = refl

  pub drop-length : (xs : List A) → drop (length xs) xs ≡ []
  drop-length [] = refl
  drop-length (x ∷ xs) = drop-length xs

  pub drop-drop_sub : (a b : ℕ) (xs : List A) → a ≤ b → drop (b - a) (drop a xs) ≡ drop b xs
  drop-drop_sub zero b xs h = ap (λ k. drop k xs) (omega arith)
  drop-drop_sub (suc a) zero xs h = absurd (omega arith)
  drop-drop_sub (suc a) (suc b) [] h =
      let e : suc b - suc a ≡ b - a = omega arith in rw (e, drop-nil (b - a))
  drop-drop_sub (suc a) (suc b) (x ∷ xs) h =
      let e : suc b - suc a ≡ b - a = omega arith in rw e (drop-drop_sub a b xs (omega arith))

abbrev pub All {ℓ κ} : {A : Type ℓ} → (A → Type κ) → List A → Type κ
All P [] = Unit
All P (x ∷ xs) = P x × All P xs

pub All-append {ℓ κ} :
    {A : Type ℓ} (P : A → Type κ) (xs ys : List A) → All P xs → All P ys → All P (xs ++ ys)
All-append P [] ys hx hy = hy
All-append P (x ∷ xs) ys hx hy = (hx.0, All-append P xs ys hx.1 hy)

module _ {ℓ κ} {A : Type ℓ} (P : A → Type κ) where
  pub All-drop-le : (a b : ℕ) (xs : List A) → a ≤ b → All P (drop a xs) → All P (drop b xs)
  All-drop-le zero zero xs h s = s
  All-drop-le zero (suc b) [] h s = tt
  All-drop-le zero (suc b) (x ∷ xs) h s = All-drop-le zero b xs (omega arith) s.1
  All-drop-le (suc a) zero xs h s = absurd (omega arith)
  All-drop-le (suc a) (suc b) [] h s = tt
  All-drop-le (suc a) (suc b) (x ∷ xs) h s = All-drop-le a b xs (omega arith) s
