-- ===== src/OrderedMap.antt =====
-- The language's `Map`: keys in insertion order, oldest first. `set` of a present key keeps the
-- key's place; `delete` then `set` moves it to the end.
pub mod Laws
pub mod Evict
use pi_smart_compact.Base.{ℕ, List, [], ◌∷◌, map, Option, none, some, Bool, ite, lookup, is_some}

-- The contents of a `Map`, in iteration order.
abbrev pub OrderedMap {ℓ} : Type ℓ → Type ℓ → Type ℓ
OrderedMap K V = List (K × V)

module _ {ℓ} {K V : Type ℓ} (dec : Discrete K) where
  abbrev pub get : OrderedMap K V → K → Option V
  get m k = lookup dec k m

  abbrev pub has : OrderedMap K V → K → Bool
  has m k = is_some (lookup dec k m)

  unfoldable pub delete : OrderedMap K V → K → OrderedMap K V
  delete [] k = []
  delete ((j, w) ∷ m) k = ite (dec k j) m ((j, w) ∷ delete m k)

  unfoldable pub set : OrderedMap K V → K → V → OrderedMap K V
  set [] k v = (k, v) ∷ []
  set ((j, w) ∷ m) k v = ite (dec k j) ((k, v) ∷ m) ((j, w) ∷ set m k v)

module _ {ℓ} {K V : Type ℓ} where
  -- `m.keys().next().value`
  abbrev pub first_key : OrderedMap K V → Option K
  first_key [] = none
  first_key ((k, v) ∷ m) = some k

  -- What a loop that assigns every key of `m.keys()` to one variable, at first `null`, leaves there.
  abbrev pub last_key_or : Option K → OrderedMap K V → Option K
  last_key_or o [] = o
  last_key_or o ((k, v) ∷ m) = last_key_or (some k) m
