-- ===== src/Window/Laws/Tail.antt =====
-- The token walk takes messages into the tail as long as it may, and no longer.
use pi_smart_compact.Base.{
  ℕ, zero, suc, ◌+◌, ◌*◌, ◌≤◌, ◌<◌, ◌≡◌, refl, List, true, false, arith, leb, if◌then◌else◌,
  le_refl, Bool-cases, inl, inr, ◌⊎◌, Option, add-zero, subst, dec_lt,
}
use pi_smart_compact.Window.Budget.{Scale, message_scale, adaptive_keep, ProfileConfig}
use pi_smart_compact.Window.Tail.{token_at, stops, tail_walk}

-- The tokens of messages `k` to `i - 1`.
pub tokens_between : List ℕ → ℕ → ℕ → ℕ
tokens_between tokens k zero = 0
tokens_between tokens k (suc i) =
    if leb k i then token_at tokens i + tokens_between tokens k i else 0

module _ (tokens : List ℕ) (s : Scale) (minimum ceiling : ℕ) where
  pub tail_walk-le : (i retained : ℕ) → tail_walk tokens s minimum ceiling i retained ≤ i
  unfolding tail_walk
  tail_walk-le zero retained = le_refl 0
  tail_walk-le (suc i) retained = ground (arith, tail_walk-le i (retained + token_at tokens i))

  -- With a positive minimum the last message is always kept.
  pub tail_walk-lt :
      (n : ℕ) → 0 < n → 0 < minimum → 0 < s.den → tail_walk tokens s minimum ceiling n 0 < n
  unfolding tail_walk stops
  tail_walk-lt zero h p q = absurd (omega arith)
  tail_walk-lt (suc i) h p q =
      let more : 0 < minimum * s.den = grind arith in
      ground (arith, tail_walk-le i (0 + token_at tokens i))

pub message_scale_pos : (total all : ℕ) → 0 < (message_scale total all).den
unfolding message_scale
message_scale_pos total all = ground arith

pub adaptive_keep_pos :
    (cfg : ProfileConfig) (window : Option ℕ)
    → 0 < cfg.keep_recent_tokens
    → 0 < adaptive_keep cfg window
unfolding adaptive_keep
adaptive_keep_pos cfg window h = ground arith

between_self : (tokens : List ℕ) (k : ℕ) → tokens_between tokens k k ≡ 0
unfolding tokens_between
between_self tokens zero = refl
between_self tokens (suc k) = ground arith

between_top :
    (tokens : List ℕ) (k i acc : ℕ)
    → k ≤ i
    → acc + token_at tokens i + tokens_between tokens k i ≡ acc + tokens_between tokens k (suc i)
unfolding tokens_between
between_top tokens k i acc h = ground arith

module _ (tokens : List ℕ) (s : Scale) (minimum ceiling : ℕ) where
  abbrev Stopped : ℕ → ℕ → Type 0
  Stopped next retained = stops s minimum ceiling retained next ≡ true

  -- The walk stops where the tail already has its minimum and the next message would pass the
  -- ceiling, and at no later message; else it takes all.
  pub tail_walk-first_stop :
      (n acc : ℕ)
      → let cut = tail_walk tokens s minimum ceiling n acc in
        ((cut ≡ 0)
          ⊎ ((p : ℕ) × (cut ≡ suc p)
              × (stops s minimum ceiling (acc + tokens_between tokens cut n) (token_at tokens p)
                  ≡ true)))
        × ((j : ℕ)
            → cut ≤ j
            → j < n
            → stops s minimum ceiling (acc + tokens_between tokens (suc j) n) (token_at tokens j)
              ≡ false)
  unfolding tail_walk
  tail_walk-first_stop zero acc = (inl refl, λ j p q. absurd (omega arith))
  tail_walk-first_stop (suc i) acc =
      let next = token_at tokens i in
      let rest = tail_walk tokens s minimum ceiling i (acc + next) in
      let (ends, quiet) = tail_walk-first_stop i (acc + next) in
      let low = tail_walk-le tokens s minimum ceiling i (acc + next) in
      elim (Bool-cases (stops s minimum ceiling acc next)) [
        | inl stop ↦ rw stop (
          inr (i, refl, rw (between_self tokens (suc i), add-zero) stop),
          λ j p q. absurd (omega arith),
        )
        | inr go ↦ rw go (
          elim ends [
            | inl e ↦ inl e
            | inr (p, e, stop) ↦
                inr (
                  p,
                  e,
                  subst (Stopped (token_at tokens p)) (between_top tokens rest i acc low) stop,
                )
          ],
          λ j p q. elim (dec_lt j i) [
            | yes lt ↦ rw (← between_top tokens (suc j) i acc lt) (quiet j p lt)
            | no ge ↦
                let e : j ≡ i = omega arith in rw (e, between_self tokens (suc i), add-zero) go
          ],
        )
      ]
