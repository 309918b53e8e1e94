-- ===== src/Batches/Laws.antt =====
-- The batches are the chunks in order, none too large for a call unless it is a single chunk.
use pi_smart_compact.Base.{
  ℕ, ◌+◌, ◌≤◌, ◌≡◌, refl, ◌∙◌, ap, ◌⊎◌, inl, inr, List, [], ◌∷◌, ◌++◌, append_assoc, true, ◌&&◌,
  arith, ltb, All, length, Bool-cases,
}
use pi_smart_compact.Batches.{LlmChunk, is_started, fill, create_batches}

pub joined : List (List LlmChunk) → List LlmChunk
joined [] = []
joined (batch ∷ batches) = batch ++ joined batches

unfoldable pub tokens_of : List LlmChunk → ℕ
tokens_of [] = 0
tokens_of (chunk ∷ chunks) = chunk.token_estimate + tokens_of chunks

-- A batch is not empty, and is within the limit or a single chunk.
abbrev pub IsFit : ℕ → List LlmChunk → Type 0
IsFit max_tokens batch =
    (is_started batch ≡ true) × ((tokens_of batch ≤ max_tokens) ⊎ (length batch ≡ 1))

tokens_of-append :
    (xs : List LlmChunk) (c : LlmChunk) → tokens_of (xs ++ c ∷ []) ≡ tokens_of xs + c.token_estimate
unfolding tokens_of
tokens_of-append [] c = omega arith
tokens_of-append (x ∷ xs) c = omega (arith, tokens_of-append xs c)

joined-fill :
    (max_tokens : ℕ) (chunks batch : List LlmChunk) (tokens : ℕ)
    → joined (fill max_tokens chunks batch tokens) ≡ batch ++ chunks
unfolding fill joined
joined-fill max_tokens [] [] tokens = refl
joined-fill max_tokens [] (b ∷ batch) tokens = refl
joined-fill max_tokens (c ∷ chunks) batch tokens =
    elim (Bool-cases (is_started batch && ltb max_tokens (tokens + c.token_estimate))) [
      | inl full ↦
          rw full (ap (λ l. batch ++ l) (joined-fill max_tokens chunks (c ∷ []) c.token_estimate))
      | inr roomy ↦ rw roomy (
          joined-fill max_tokens chunks (batch ++ c ∷ []) (tokens + c.token_estimate)
          ∙ append_assoc batch (c ∷ []) chunks)
    ]

started-append : (xs : List LlmChunk) (c : LlmChunk) → is_started (xs ++ c ∷ []) ≡ true
started-append [] c = refl
started-append (x ∷ xs) c = refl

fill-IsFit :
    (max_tokens : ℕ) (chunks batch : List LlmChunk) (tokens : ℕ)
    → tokens ≡ tokens_of batch
    → (is_started batch ≡ true → (tokens_of batch ≤ max_tokens) ⊎ (length batch ≡ 1))
    → All (IsFit max_tokens) (fill max_tokens chunks batch tokens)
unfolding fill tokens_of
fill-IsFit max_tokens [] [] tokens e v = tt
fill-IsFit max_tokens [] (b ∷ batch) tokens e v = ((refl, v refl), tt)
fill-IsFit max_tokens (c ∷ chunks) [] tokens e v =
    fill-IsFit max_tokens chunks (c ∷ []) (tokens + c.token_estimate) (omega (arith, e))
      (λ h. inr refl)
fill-IsFit max_tokens (c ∷ chunks) (b ∷ batch) tokens e v =
    elim (Bool-cases (ltb max_tokens (tokens + c.token_estimate))) [
      | inl full ↦ rw full (
        (refl, v refl),
        fill-IsFit max_tokens chunks (c ∷ []) c.token_estimate (omega arith) (λ h. inr refl),
      )
      | inr roomy ↦
          let same = tokens_of-append (b ∷ batch) c in
          rw roomy (
            fill-IsFit max_tokens chunks (b ∷ batch ++ c ∷ []) (tokens + c.token_estimate)
              (omega (arith, e, same)) (λ h. inl (ground (arith, e, same))))
    ]

-- The batches joined are the chunks, in order; each batch has a chunk, and is within the token
-- limit or a single chunk.
pub create_batches-joined :
    (chunks : List LlmChunk) (max_tokens : ℕ)
    → (joined (create_batches chunks max_tokens) ≡ chunks)
      × All (IsFit max_tokens) (create_batches chunks max_tokens)
unfolding create_batches tokens_of
create_batches-joined chunks max_tokens = (
  joined-fill max_tokens chunks [] 0,
  fill-IsFit max_tokens chunks [] 0 refl (λ h. absurd (ground arith)),
)
