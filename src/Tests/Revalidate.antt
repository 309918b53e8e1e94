-- ===== src/Tests/Revalidate.antt =====
-- A summary that is revalidated after the conversation has grown (`src/app/pending-slot.ts`).
use pi_smart_compact.Base.{
  ℕ, ◌+◌, ◌-◌, ◌*◌, ◌≤◌, ◌<◌, ◌≡◌, refl, [], ◌∷◌, map, String, String_discrete, true, false, Option,
  none, some,
}
use pi_smart_compact.Types.{PendingCompaction}
use pi_smart_compact.Messages.{user, SessionMessage}
use pi_smart_compact.YieldGate.{exceeds_yield_target, tolerance}
use pi_smart_compact.PendingSlot.Revalidate.{
  ReaderView, certain, uncertain, reserve, revalidate_pending, is_current, pending_matches_branch,
  is_too_large, repriced, find_entry,
}
use pi_smart_compact.PendingSlot.Revalidate.Sound.{
  revalidate_pending-fits, revalidate_pending-idempotent,
}

abbrev entry : String → SessionMessage
entry id = record {
  entry_id = some id;
  custom_type = none;
  role = user;
  content = [];
  tool_call_id = none;
  tool_name = none;
  touched_files = [];
  is_injected = false;
}

-- The summary with given tokens before it, after it, in its tail, and saved.
abbrev summary : (before after : ℕ) → (tail retained saved : Option ℕ) → PendingCompaction
summary before after tail retained saved = record {
  run_id = "r";
  tail_baseline_tokens = tail;
  summary = "text";
  first_kept_entry_id = "e9";
  origin_branch_head_id = "e9";
  reader_signature = some "m";
  context_snapshot = some (record { message_count = 2; hash = "h" });
  tokens_before = before;
  details = record {
    run_id = some "r";
    tokens_saved = saved;
    estimated_after_tokens = some after;
    retained_tail_tokens = retained;
    target_after_tokens = some 20000;
  };
  session_id = "a";
}

-- Three messages of a hundred tokens each, one of them new.
abbrev view : ReaderView
view = record {
  has_model = true;
  context_window = 100000;
  max_tokens = 8000;
  reserve_tokens = 0;
  usage = some (record { basis = certain; stale_producer = false; tokens = some 50040 });
  signature = some "m";
  session_id = "a";
  branch_ids = "e1" ∷ "e9" ∷ "e10" ∷ [];
  entries = entry "e1" ∷ entry "e9" ∷ entry "e10" ∷ [];
  hash = λ entries. "h";
  weights = some (map (λ e. 100));
}

abbrev staged : PendingCompaction
staged = summary 50000 1000 none none none

abbrev grown : PendingCompaction
grown = summary 50040 1100 (some 200) (some 100) (some 48940)

-- The tail's growth counts, which the measured total does not show in full.
grows : revalidate_pending staged view ≡ some grown
unfolding revalidate_pending is_current pending_matches_branch is_too_large exceeds_yield_target
    tolerance repriced find_entry String_discrete
grows = refl

refuses_uncertain :
    revalidate_pending staged (record view {
      usage = some (record { basis = uncertain; stale_producer = false; tokens = some 50040 });
    })
    ≡ none
unfolding revalidate_pending
refuses_uncertain = refl

revalidate_pending-fits_example :
    (1100 + reserve view < 100000)
    × (50040 ≤ (50040 - 1100) * 10)
    × (1000 + (50040 - 50000) ≤ 1100)
    × (0 < 50040)
    × ((target : ℕ) → some 20000 ≡ some target → exceeds_yield_target 1100 (target * 100) ≡ false)
revalidate_pending-fits_example =
    revalidate_pending-fits staged view grown 1000 1100 grows refl refl

revalidate_pending-idempotent_example : revalidate_pending grown view ≡ some grown
revalidate_pending-idempotent_example = revalidate_pending-idempotent staged view grown grows
