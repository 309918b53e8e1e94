-- ===== src/Batches.antt =====
-- `src/utils/helpers.ts`, `createBatches`: chunks of the conversation, in batches for one call each.
pub mod Laws
use pi_smart_compact.Base.{
  ℕ, ◌+◌, List, [], ◌∷◌, ◌++◌, String, Bool, true, false, not, ◌&&◌, ltb, if◌then◌else◌,
}
use pi_smart_compact.OpenLoops.{LoopPriority}
use pi_smart_compact.Messages.{SessionMessage}

pub record LlmChunk : Type 0 where
  pub start_index : ℕ
  pub end_index : ℕ
  pub token_estimate : ℕ
  pub topic : String
  pub priority : LoopPriority
  pub messages : List SessionMessage

-- `batch.length`, as a condition.
abbrev pub is_started {ℓ} : {A : Type ℓ} → List A → Bool
is_started [] = false
is_started (a ∷ items) = true

-- The loop, with the batch that is being filled and its tokens, and what follows it.
unfoldable pub fill : ℕ → List LlmChunk → (batch : List LlmChunk) → ℕ → List (List LlmChunk)
fill max_tokens [] batch tokens = if is_started batch then batch ∷ [] else []
fill max_tokens (chunk ∷ chunks) batch tokens =
    let fresh = fill max_tokens chunks (chunk ∷ []) chunk.token_estimate in
    let more = fill max_tokens chunks (batch ++ chunk ∷ []) (tokens + chunk.token_estimate) in
    if is_started batch && ltb max_tokens (tokens + chunk.token_estimate)
    then batch ∷ fresh
    else more

unfoldable pub create_batches : List LlmChunk → ℕ → List (List LlmChunk)
unfolding fill
create_batches chunks max_tokens = fill max_tokens chunks [] 0
