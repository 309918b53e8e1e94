-- ===== src/Window/Tail.antt =====
-- The backward walk that takes messages into the tail while they fit.
use pi_smart_compact.Base.{
  ℕ, zero, suc, ◌+◌, ◌*◌, List, [], ◌∷◌, Bool, ◌&&◌, ltb, leb, if◌then◌else◌,
}
use pi_smart_compact.Window.Budget.{Scale}

-- `messageTokens[i]`; the walk stays inside the array.
abbrev pub token_at : List ℕ → ℕ → ℕ
token_at [] i = 0
token_at (t ∷ ts) zero = t
token_at (t ∷ ts) (suc i) = token_at ts i

-- `rawRetained >= rawMinimumTail && rawRetained + next > rawRetentionCeiling`, multiplied out:
-- the raw limits are limits in hundredths over the scale.
unfoldable pub stops : Scale → (minimum ceiling retained next : ℕ) → Bool
stops s minimum ceiling retained next =
    leb (minimum * s.den) (retained * s.num * 100)
    && ltb (ceiling * s.den) ((retained + next) * s.num * 100)

-- The loop, with messages `i - 1, …, 0` to go and `retained` raw tokens taken.
unfoldable pub tail_walk : List ℕ → Scale → (minimum ceiling : ℕ) → ℕ → ℕ → ℕ
unfolding stops
tail_walk tokens s minimum ceiling zero retained = 0
tail_walk tokens s minimum ceiling (suc i) retained =
    let rest = tail_walk tokens s minimum ceiling i (retained + token_at tokens i) in
    if stops s minimum ceiling retained (token_at tokens i) then suc i else rest
