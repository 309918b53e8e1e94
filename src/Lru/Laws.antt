-- ===== src/Lru/Laws.antt =====
-- What the bounded cache keeps.
use pi_smart_compact.Base.{
  ℕ, zero, suc, ◌≤◌, ◌≡◌, refl, [], ◌∷◌, ◌++◌, arith, le_refl, length, lookup, ltb, Bool-cases,
  Option-cases, inl, inr,
}
use pi_smart_compact.OrderedMap.{OrderedMap, delete}
use pi_smart_compact.OrderedMap.Laws.{
  IsDistinct, delete_first, delete_absent, set_absent, lookup-delete_self, lookup-delete_ne,
  lookup-set,
}
use pi_smart_compact.OrderedMap.Evict.{newest, newest_fits, newest_over}
use pi_smart_compact.Lru.{lru_get, evict_over, lru_set}

module _ {ℓ} {K V : Type ℓ} (dec : Discrete K) where
  -- With fuel for every entry the loop ends by its test: the newest `max` entries are left.
  evict_over-newest :
      (fuel max : ℕ) (m : OrderedMap K V)
      → length m ≤ fuel
      → evict_over dec fuel max m ≡ newest max m
  unfolding evict_over
  evict_over-newest zero max [] h = rw (newest_fits {A = K × V} max [] (omega arith))
  evict_over-newest zero max (e ∷ m) h = absurd (omega arith)
  evict_over-newest (suc fuel) max [] h = ground (arith, newest_fits {A = K × V} max [])
  evict_over-newest (suc fuel) max ((k, v) ∷ m) h = elim (Bool-cases (ltb max (suc (length m)))) [
    | inl over ↦
        rw (over, evict_over, delete_first dec m k v, evict_over-newest fuel max m (omega arith))
          (rw (newest_over max (k, v) m (ground arith)))
    | inr fits ↦ rw (fits, evict_over) (rw (newest_fits max ((k, v) ∷ m) (ground arith)))
  ]

  -- A write to a map with distinct keys puts the key at the newest place of what the map held
  -- without it, and keeps exactly the newest `max` entries of that.
  pub lru_set-newest :
      (m : OrderedMap K V) (key : K) (value : V) (max : ℕ)
      → IsDistinct dec m
      → lru_set dec m key value max ≡ newest max (delete dec m key ++ (key, value) ∷ [])
  unfolding lru_set
  lru_set-newest m key value max d = elim (Option-cases (lookup dec key m)) [
    | inl miss ↦ rw (
      miss,
      evict_over-newest _ max _ (le_refl _),
      delete_absent dec m key miss,
      set_absent dec m key value miss,
    )
    | inr (v, hit) ↦ rw (
      hit,
      evict_over-newest _ max _ (le_refl _),
      set_absent dec _ key value (lookup-delete_self dec m key d),
    )
  ]

  -- A read of a map with distinct keys returns what a lookup finds and changes no binding.
  pub lru_get_lem :
      (m : OrderedMap K V) (key j : K)
      → IsDistinct dec m
      → ((lru_get dec m key).1 ≡ lookup dec key m)
        × (lookup dec j (lru_get dec m key).0 ≡ lookup dec j m)
  unfolding lru_get
  lru_get_lem m key j d = elim (Option-cases (lookup dec key m)) [
    | inl miss ↦ rw (miss, lru_get) (refl, refl)
    | inr (v, hit) ↦
        rw (hit, lru_get)
          (
            refl,
            ground (arith, lookup-set dec (delete dec m key) j key v, lookup-delete_ne dec m j key),
          )
  ]
