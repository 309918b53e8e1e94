-- ===== src/OrderedMap/Evict.antt =====
-- What deleting the oldest entries of a `Map` leaves.
use pi_smart_compact.Base.{
  ℕ, suc, ◌-◌, ◌≤◌, ◌<◌, ◌≡◌, refl, List, [], ◌∷◌, ◌++◌, zero, arith, length, length-drop, drop,
}

module _ {ℓ} {A : Type ℓ} where
  -- The `max` newest entries: all but the oldest `length m - max`.
  abbrev pub newest : ℕ → List A → List A
  newest max m = drop (length m - max) m

  pub newest_fits : (max : ℕ) (m : List A) → length m ≤ max → newest max m ≡ m
  newest_fits max m h = let e : length m - max ≡ 0 = omega arith in rw e

  pub newest_over :
      (max : ℕ) (a : A) (m : List A) → max < suc (length m) → newest max (a ∷ m) ≡ newest max m
  newest_over max a m h = let e : suc (length m) - max ≡ suc (length m - max) = omega arith in rw e

  pub drop-append-le :
      (n : ℕ) (xs ys : List A) → n ≤ length xs → drop n (xs ++ ys) ≡ drop n xs ++ ys
  drop-append-le zero xs ys h = refl
  drop-append-le (suc n) [] ys h = absurd (omega arith)
  drop-append-le (suc n) (x ∷ xs) ys h = drop-append-le n xs ys (omega arith)

  pub length-newest-le : (max : ℕ) (m : List A) → length (newest max m) ≤ max
  length-newest-le max m = omega (arith, length-drop (length m - max) m)
