-- ===== src/Tests/Batches.antt =====
-- Three chunks and a limit of 100 tokens (`src/utils/helpers.ts`).
use pi_smart_compact.Base.{ℕ, ◌≡◌, refl, List, [], ◌∷◌, map}
use pi_smart_compact.OpenLoops.{normal}
use pi_smart_compact.Batches.{LlmChunk, create_batches}
use pi_smart_compact.Batches.Laws.{tokens_of}

abbrev chunk : ℕ → LlmChunk
chunk tokens = record {
  start_index = 0;
  end_index = 1;
  token_estimate = tokens;
  topic = "t";
  priority = normal;
  messages = [];
}

abbrev three : List LlmChunk
three = chunk 60 ∷ chunk 40 ∷ chunk 200 ∷ []

two_batches : map tokens_of (create_batches three 100) ≡ 100 ∷ 200 ∷ []
unfolding create_batches tokens_of
two_batches = refl
