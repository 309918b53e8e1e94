-- ===== src/Tests/Lru.antt =====
-- A cache of two entries (`src/utils/lru.ts`).
use pi_smart_compact.Base.{ℕ, ◌≡◌, refl, [], ◌∷◌, some, lookup, ℕ_discrete}
use pi_smart_compact.OrderedMap.{OrderedMap, delete, set}
use pi_smart_compact.Lru.{lru_get, evict_over, lru_set}

abbrev two : OrderedMap ℕ ℕ
two = (1, 10) ∷ (2, 20) ∷ []

evicts_oldest : lru_set ℕ_discrete two 3 30 2 ≡ (2, 20) ∷ (3, 30) ∷ []
unfolding lru_set evict_over lookup set delete ℕ_discrete
evicts_oldest = refl

promotes : lru_get ℕ_discrete two 1 ≡ ((2, 20) ∷ (1, 10) ∷ [], some 10)
unfolding lru_get lookup set delete ℕ_discrete
promotes = refl
