-- ===== src/ToolBoundary/Guard.antt =====
-- `guardToolCallBoundary` finds the latest safe cut that is not after the wanted one.
use pi_smart_compact.Base.{
  ℕ, zero, suc, ◌+◌, ◌≤◌, ◌<◌, ◌≡◌, refl, List, [], ◌∷◌, none, some, arith, All, All-drop-le,
  length, drop, Option-cases, inl, inr, le_refl, dec_lt, ◌⊎◌,
}
use pi_smart_compact.Messages.{SessionMessage}
use pi_smart_compact.ToolBoundary.{
  ToolCallBoundaryIndex, guard_call, first_split, guard_walk, guard_tool_call_boundary,
}
use pi_smart_compact.ToolBoundary.Safe.{IsUnsplit, IsSafe}

module _ (index : ToolCallBoundaryIndex) where
  -- A scan that finds nothing has seen no split result.
  first_split-none :
      (cut : ℕ) (ms : List SessionMessage)
      → first_split index cut ms ≡ none
      → All (IsUnsplit index cut) ms
  unfolding first_split
  first_split-none cut [] h = tt
  first_split-none cut (m ∷ ms) h = (λ call e. ground arith, first_split-none cut ms (ground arith))

  -- What it finds lies before the cut.
  first_split-lt :
      (cut : ℕ) (ms : List SessionMessage) (call : ℕ)
      → first_split index cut ms ≡ some call
      → call < cut
  unfolding first_split
  first_split-lt cut [] call h = ground arith
  first_split-lt cut (m ∷ ms) call h = ground (arith, first_split-lt cut ms call)

  -- And no safe cut is after it.
  first_split-bounds :
      (cut b : ℕ) (ms : List SessionMessage) (call : ℕ)
      → first_split index cut ms ≡ some call
      → All (IsUnsplit index b) ms
      → b ≤ call
  unfolding first_split
  first_split-bounds cut b [] call h s = ground arith
  first_split-bounds cut b (m ∷ ms) call h (s, ss) = elim (Option-cases (guard_call index m)) [
    | inl e ↦ first_split-bounds cut b ms call (ground arith) ss
    | inr (c, e) ↦ ground (arith, s c e, first_split-bounds cut b ms call)
  ]

  -- The rounds suffice: the walk ends at a safe cut, not after where it began.
  guard_walk-IsSafe :
      (rounds : ℕ) (msgs : List SessionMessage) (cut : ℕ)
      → cut < rounds
      → IsSafe index msgs (guard_walk rounds index msgs cut)
        × (guard_walk rounds index msgs cut ≤ cut)
  unfolding guard_walk
  guard_walk-IsSafe zero msgs cut h = absurd (omega arith)
  guard_walk-IsSafe (suc rounds) msgs cut h =
      elim (Option-cases (first_split index cut (drop cut msgs))) [
        | inl e ↦ rw (e, guard_walk) (first_split-none cut (drop cut msgs) e, le_refl cut)
        | inr (call, e) ↦
            let lower : call < cut = first_split-lt cut (drop cut msgs) call e in
            let (safe, below) = guard_walk-IsSafe rounds msgs call (omega arith) in
            rw (e, guard_walk) (safe, omega arith)
      ]

  guard_walk-latest :
      (rounds : ℕ) (msgs : List SessionMessage) (cut b : ℕ)
      → b ≤ cut
      → IsSafe index msgs b
      → b ≤ guard_walk rounds index msgs cut
  unfolding guard_walk
  guard_walk-latest zero msgs cut b h s = h
  guard_walk-latest (suc rounds) msgs cut b h s =
      elim (Option-cases (first_split index cut (drop cut msgs))) [
        | inl e ↦ rw (e, guard_walk) h
        | inr (call, e) ↦
            rw (e, guard_walk)
              (guard_walk-latest rounds msgs call b
                (first_split-bounds cut b (drop cut msgs) call e
                  (All-drop-le (IsUnsplit index b) b cut msgs h s))
                s)
      ]

module _ (msgs : List SessionMessage) (keep_from : ℕ) (index : ToolCallBoundaryIndex) where
  -- Inside the conversation the guard returns a cut that is not after the wanted one and splits no
  -- tool result from its call; it is the latest such cut.
  pub guard-latest-IsSafe :
      0 < keep_from
      → keep_from < length msgs
      → IsSafe index msgs (guard_tool_call_boundary msgs keep_from index)
        × (guard_tool_call_boundary msgs keep_from index ≤ keep_from)
        × ((b : ℕ)
            → b ≤ keep_from
            → IsSafe index msgs b
            → b ≤ guard_tool_call_boundary msgs keep_from index)
  unfolding guard_tool_call_boundary
  guard-latest-IsSafe p q =
      let (safe, below) = guard_walk-IsSafe index (length msgs + 1) msgs keep_from (omega arith) in
      rw same (safe, below, λ b h s. guard_walk-latest index (length msgs + 1) msgs keep_from b h s)
    where
      same :
          guard_tool_call_boundary msgs keep_from index
          ≡ guard_walk (length msgs + 1) index msgs keep_from
      same = ground (arith, guard_walk-IsSafe index (length msgs + 1) msgs keep_from (omega arith))

  pub guard_outside :
      (keep_from ≡ 0) ⊎ (length msgs ≤ keep_from)
      → guard_tool_call_boundary msgs keep_from index ≡ keep_from
  unfolding guard_tool_call_boundary
  guard_outside h = ground arith

guard_fixed :
    (msgs : List SessionMessage) (keep_from : ℕ) (index : ToolCallBoundaryIndex)
    → (keep_from < length msgs → IsSafe index msgs keep_from)
    → guard_tool_call_boundary msgs keep_from index ≡ keep_from
guard_fixed msgs zero index s = guard_outside msgs zero index (inl refl)
guard_fixed msgs (suc k) index s = elim (dec_lt (suc k) (length msgs)) [
  | no p ↦ guard_outside msgs (suc k) index (inr (omega arith))
  | yes p ↦
      let (safe, below, latest) = guard-latest-IsSafe msgs (suc k) index (omega arith) p in
      omega (arith, latest (suc k) (le_refl (suc k)) (s p))
]

-- Guarding a guarded cut changes nothing, wherever the cut was wanted.
pub guard_idempotent :
    (msgs : List SessionMessage) (keep_from : ℕ) (index : ToolCallBoundaryIndex)
    → let cut = guard_tool_call_boundary msgs keep_from index in
      guard_tool_call_boundary msgs cut index ≡ cut
guard_idempotent msgs zero index = let e = guard_outside msgs zero index (inl refl) in rw (e, e)
guard_idempotent msgs (suc k) index = elim (dec_lt (suc k) (length msgs)) [
  | no p ↦ let e = guard_outside msgs (suc k) index (inr (omega arith)) in rw (e, e)
  | yes p ↦
      guard_fixed msgs _ index (λ q. (guard-latest-IsSafe msgs (suc k) index (omega arith) p).0)
]
