-- ===== src/Tests/ModePolicy.antt =====
-- Policies of concrete sessions (`src/app/mode-policy.ts`).
use pi_smart_compact.Base.{ℕ, List, Bool, true}
use pi_smart_compact.ModePolicy.{Extraction}

abbrev session : ℕ → List Bool → Extraction
session decisions errors = record {
  main_goal = true;
  message_count = 20;
  errors_resolved = errors;
  decisions = decisions;
  constraints = 1;
  modified_files = 4;
  deleted_files = 0;
  topics = 2;
  last_user_messages = 3;
  media_attachments = 0;
}
