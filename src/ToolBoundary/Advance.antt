-- ===== src/ToolBoundary/Advance.antt =====
-- `advancePastToolCallBoundary` finds the earliest cut, not before the wanted one, after which
-- every tool exchange is whole.
use pi_smart_compact.Base.{
  ℕ, zero, suc, ◌+◌, ◌-◌, ◌≤◌, ◌<◌, ◌≡◌, refl, List, [], ◌∷◌, none, some, true, false, arith,
  length, drop, Option-cases, Bool-cases, inl, inr, leb, le_refl, length-drop, drop-length,
  drop-drop_sub, dec_lt, subst, le_trans, leb→le,
}
use pi_smart_compact.Messages.{SessionMessage}
use pi_smart_compact.ToolBoundary.{
  ToolCallBoundaryIndex, is_blocked, first_blocked, advance_walk, advance_past_tool_call_boundary,
}

-- No message of the list, the first of them at `i`, is blocked by a cut at `cut`.
abbrev pub IsClear : ToolCallBoundaryIndex → ℕ → ℕ → List SessionMessage → Type 0
IsClear index cut i [] = Unit
IsClear index cut i (m ∷ ms) = (is_blocked index cut i m ≡ false) × IsClear index cut (suc i) ms

-- Nothing that is kept answers a call before the cut, and the first kept message answers a known
-- call if it is a tool result.
abbrev pub IsWhole : ToolCallBoundaryIndex → List SessionMessage → ℕ → Type 0
IsWhole index msgs cut = IsClear index cut cut (drop cut msgs)

module _ (index : ToolCallBoundaryIndex) where
  first_blocked-none :
      (cut i : ℕ) (ms : List SessionMessage)
      → first_blocked index cut i ms ≡ none
      → IsClear index cut i ms
  unfolding first_blocked
  first_blocked-none cut i [] h = tt
  first_blocked-none cut i (m ∷ ms) h =
      (ground arith, first_blocked-none cut (suc i) ms (ground arith))

  first_blocked-bounds :
      (cut i : ℕ) (ms : List SessionMessage) (next : ℕ)
      → first_blocked index cut i ms ≡ some next
      → (i < next) × (next ≤ i + length ms)
  unfolding first_blocked
  first_blocked-bounds cut i [] next h = ground arith
  first_blocked-bounds cut i (m ∷ ms) next h =
      ground (arith, first_blocked-bounds cut (suc i) ms next)

  -- A message that a cut blocks is blocked by each later cut up to the message itself.
  is_blocked_mono :
      (cut b i : ℕ) (m : SessionMessage)
      → cut ≤ b
      → b ≤ i
      → is_blocked index cut i m ≡ true
      → is_blocked index b i m ≡ true
  unfolding is_blocked
  is_blocked_mono cut b i m p q h = ground arith

  first_blocked-none_of_clear :
      (cut b i : ℕ) (ms : List SessionMessage)
      → cut ≤ b
      → b ≤ i
      → IsClear index b i ms
      → first_blocked index cut i ms ≡ none
  unfolding first_blocked
  first_blocked-none_of_clear cut b i [] p q s = refl
  first_blocked-none_of_clear cut b i (m ∷ ms) p q (s, ss) = ground (
    arith,
    is_blocked_mono cut b i m p q,
    first_blocked-none_of_clear cut b (suc i) ms p (omega arith) ss,
  )

  -- So a whole cut is past the message that blocks an earlier one.
  first_blocked-earliest :
      (cut b i : ℕ) (ms : List SessionMessage) (next : ℕ)
      → cut ≤ b
      → first_blocked index cut i ms ≡ some next
      → IsClear index b b (drop (b - i) ms)
      → i ≤ b
      → next ≤ b
  unfolding first_blocked
  first_blocked-earliest cut b i [] next p h s q = ground arith
  first_blocked-earliest cut b i (m ∷ ms) next p h s q = elim (dec_lt i b) [
    | yes lt ↦
        let e : b - i ≡ suc (b - suc i) = omega arith in
        let s' : IsClear index b b (drop (b - suc i) ms) =
          subst (λ k. IsClear index b b (drop k (m ∷ ms))) e s in
        ground (arith, first_blocked-earliest cut b (suc i) ms next p)
    | no ge ↦
        let e : b - i ≡ 0 = omega arith in
        let s' : IsClear index b b (m ∷ ms) =
          subst (λ k. IsClear index b b (drop k (m ∷ ms))) e s in
        let here : b ≡ i = omega arith in
        let none' =
          first_blocked-none_of_clear cut b i (m ∷ ms) p (omega arith)
            (subst (λ k. IsClear index b k (m ∷ ms)) here s') in
        ground arith
  ]

  -- The walk ends at a whole cut that is not before its start, or at the end of the
  -- conversation, and no whole cut lies between.
  advance_walk-IsWhole :
      (rounds : ℕ) (msgs : List SessionMessage) (cut : ℕ)
      → cut ≤ length msgs
      → length msgs < rounds + cut
      → IsWhole index msgs (advance_walk rounds index msgs cut)
        × (cut ≤ advance_walk rounds index msgs cut)
        × (advance_walk rounds index msgs cut ≤ length msgs)
  unfolding advance_walk
  advance_walk-IsWhole zero msgs cut p q = absurd (omega arith)
  advance_walk-IsWhole (suc rounds) msgs cut p q =
      elim (Option-cases (first_blocked index cut cut (drop cut msgs))) [
        | inl e ↦
            rw (e, advance_walk) (first_blocked-none cut cut (drop cut msgs) e, le_refl cut, p)
        | inr (next, e) ↦
            let (up, within) = first_blocked-bounds cut cut (drop cut msgs) next e in
            let end : IsWhole index msgs (length msgs) = rw (drop-length msgs) tt in
            let room : next ≤ length msgs = omega (arith, length-drop cut msgs) in
            elim (Bool-cases (leb (length msgs) next)) [
              | inl last ↦ rw (e, advance_walk, last) (end, p, le_refl (length msgs))
              | inr more ↦
                  let (whole, above, under) =
                    advance_walk-IsWhole rounds msgs next room (omega arith) in
                  rw (e, advance_walk, more) (whole, omega arith, under)
            ]
      ]

  advance_walk-earliest :
      (rounds : ℕ) (msgs : List SessionMessage) (cut b : ℕ)
      → cut ≤ b
      → b ≤ length msgs
      → length msgs < rounds + cut
      → IsWhole index msgs b
      → advance_walk rounds index msgs cut ≤ b
  unfolding advance_walk
  advance_walk-earliest zero msgs cut b p q r s = absurd (omega arith)
  advance_walk-earliest (suc rounds) msgs cut b p q r s =
      elim (Option-cases (first_blocked index cut cut (drop cut msgs))) [
        | inl e ↦ rw (e, advance_walk) p
        | inr (next, e) ↦
            let past : next ≤ b =
              first_blocked-earliest cut b cut (drop cut msgs) next p e
                (rw (drop-drop_sub cut b msgs p) s) p in
            let (up, _) = first_blocked-bounds cut cut (drop cut msgs) next e in
            elim (Bool-cases (leb (length msgs) next)) [
              | inl last ↦ rw (e, advance_walk, last) (le_trans (leb→le _ _ last) past)
              | inr more ↦
                  rw (e, advance_walk, more)
                    (advance_walk-earliest rounds msgs next b past q (omega arith) s)
            ]
      ]

pub advance-earliest-IsWhole :
    (msgs : List SessionMessage) (keep_from : ℕ) (index : ToolCallBoundaryIndex)
    → 0 < keep_from
    → keep_from < length msgs
    → let cut = advance_past_tool_call_boundary msgs keep_from index in
      IsWhole index msgs cut
      × (keep_from ≤ cut)
      × ((b : ℕ) → keep_from ≤ b → b ≤ length msgs → IsWhole index msgs b → cut ≤ b)
unfolding advance_past_tool_call_boundary
advance-earliest-IsWhole msgs keep_from index p q = rw same (
  (advance_walk-IsWhole index (length msgs + 1) msgs keep_from (omega arith) (omega arith)).0,
  (advance_walk-IsWhole index (length msgs + 1) msgs keep_from (omega arith) (omega arith)).1,
  λ b h k s. advance_walk-earliest index (length msgs + 1) msgs keep_from b h k (omega arith) s,
)
  where
    same :
        advance_past_tool_call_boundary msgs keep_from index
        ≡ advance_walk (length msgs + 1) index msgs keep_from
    same = ground arith
