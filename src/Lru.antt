-- ===== src/Lru.antt =====
-- `src/utils/lru.ts`: bounded-cache helpers over a `Map`.
pub mod Laws
use pi_smart_compact.Base.{
  ℕ, zero, suc, Bool, true, false, Option, none, some, if◌then◌else◌, ltb, length, lookup,
}
use pi_smart_compact.OrderedMap.{OrderedMap, has, delete, set, first_key}

module _ {ℓ} {K V : Type ℓ} (dec : Discrete K) where
  -- A hit is deleted and set again, which makes it the newest entry.
  unfoldable pub lru_get : OrderedMap K V → K → OrderedMap K V × Option V
  lru_get m key = elim (lookup dec key m) [
    | none ↦ (m, none)
    | some v ↦ (set dec (delete dec m key) key v, some v)
  ]

  -- The `while` loop of `lruSet`; each round deletes one entry, so the size is fuel enough.
  unfoldable pub evict_over : ℕ → ℕ → OrderedMap K V → OrderedMap K V
  evict_over zero max m = m
  evict_over (suc fuel) max m = elim (ltb max (length m)) [
    | false ↦ m
    | true ↦ elim (first_key m) [
      | none ↦ m
      | some oldest ↦ evict_over fuel max (delete dec m oldest)
    ]
  ]

  unfoldable pub lru_set : OrderedMap K V → K → V → ℕ → OrderedMap K V
  lru_set m key value max =
      let base = if has dec m key then delete dec m key else m in
      let grown = set dec base key value in evict_over (length grown) max grown
