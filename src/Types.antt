-- ===== src/Types.antt =====
-- `src/types.ts`: the prepared summary that the pending slot and the commit store hold.
use pi_smart_compact.Base.{ℕ, String, Option}

-- `SmartCompactDetails`, the fields that the modelled code reads.
pub record SmartCompactDetails : Type 0 where
  pub run_id : Option String
  pub tokens_saved : Option ℕ
  pub estimated_after_tokens : Option ℕ
  pub retained_tail_tokens : Option ℕ
  pub target_after_tokens : Option ℕ

-- `contextSnapshot`
pub record ContextSnapshot : Type 0 where
  pub message_count : ℕ
  pub hash : String

-- `PendingCompaction`, without the payload that is only written out on a commit.
pub record PendingCompaction : Type 0 where
  pub run_id : String
  pub tail_baseline_tokens : Option ℕ
  pub summary : String
  pub first_kept_entry_id : String
  pub origin_branch_head_id : String
  pub reader_signature : Option String
  pub context_snapshot : Option ContextSnapshot
  pub tokens_before : ℕ
  pub details : SmartCompactDetails
  pub session_id : String
