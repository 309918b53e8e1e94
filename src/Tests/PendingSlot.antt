-- ===== src/Tests/PendingSlot.antt =====
-- Two sessions with a prepared summary each (`src/app/pending-slot.ts`).
use pi_smart_compact.Base.{
  ◌≡◌, refl, ◌≢◌, ◌↔◌, List, [], ◌∷◌, ◌++◌, String, true, none, some, lookup, String_discrete,
  arith,
}
use pi_smart_compact.Types.{PendingCompaction, SmartCompactDetails}
use pi_smart_compact.OrderedMap.{delete, set}
use pi_smart_compact.OrderedMap.Evict.{newest}
use pi_smart_compact.PendingSlot.{
  PendingSlotOptions, PendingEntry, PendingSlot, create, peek, ok, expired, mismatch, put, consume,
  is_retained,
}
use pi_smart_compact.PendingSlot.Prune.{retained}
use pi_smart_compact.PendingSlot.Invariant.{IsLinked}
use pi_smart_compact.PendingSlot.Put.{put-entries}
use pi_smart_compact.PendingSlot.Calls.{IsValid, puts, consumes, peeks, after, after-IsValid}
use pi_smart_compact.PendingSlot.Consume.{consume-once, IsServable}
use pi_smart_compact.PendingSlot.History.{Timed, left, run, run-consumed}

abbrev options : PendingSlotOptions
options = record {
  ttl_ms = 100;
  max_age_ms = 300;
  still_fresh = some (λ p. true);
  max_entries_option = 2;
}

abbrev details : SmartCompactDetails
details = record {
  run_id = some "r";
  tokens_saved = none;
  estimated_after_tokens = some 10;
  retained_tail_tokens = none;
  target_after_tokens = none;
}

abbrev pending_for : String → PendingCompaction
pending_for session = record {
  run_id = "r";
  tail_baseline_tokens = none;
  summary = "text";
  first_kept_entry_id = "e9";
  origin_branch_head_id = "e12";
  reader_signature = none;
  context_snapshot = none;
  tokens_before = 500;
  details = details;
  session_id = session;
}

abbrev slot : PendingSlot
slot = record {
  entries =
      ("a", record { value = pending_for "a"; created_at = 0 })
      ∷ ("b", record { value = pending_for "b"; created_at = 50 })
      ∷ [];
  newest_session_id = some "b";
}

program : Unit {0}
unfolding run create after peek put consume is_retained delete set lookup String_discrete
program = tt

-- The first summary is past its time to live and within the ceiling; the probe certifies it.
served_late : (consume options 200 "a" slot).1 ≡ ok (pending_for "a")
unfolding program
served_late = refl

-- Past the ceiling it is expired, and the other session's entry still waits.
too_late : (consume options 301 "a" slot).1 ≡ expired 301
unfolding program
too_late = refl

not_mine : (consume options 60 "c" slot).1 ≡ mismatch "b" "c"
unfolding program
not_mine = refl

-- A third session evicts the oldest.
third : (put options 60 (pending_for "c") slot).newest_session_id ≡ some "c"
unfolding program
third = refl

slot-IsLinked : IsLinked slot
unfolding lookup String_discrete
slot-IsLinked = record { distinct = (refl, (refl, tt)); newest = refl; keyed = (refl, (refl, tt)) }

put-entries_example :
    (put options 60 (pending_for "c") slot).entries
    ≡ newest 2 (
        delete String_discrete (retained options 60 slot.entries) "c"
        ++ ("c", record { value = pending_for "c"; created_at = 60 }) ∷ [])
put-entries_example = put-entries options 60 (pending_for "c") slot slot-IsLinked

after-IsValid_example : IsValid 2 (after options 60 (consumes "a") slot)
after-IsValid_example =
    after-IsValid options 60 (consumes "a") slot
      (record { links = slot-IsLinked; bounded = omega arith })

-- Two sessions' summaries, one of which is handed out, and the other prepared again.
abbrev calls : List Timed
calls =
    (options, 0, puts (pending_for "a"))
    ∷ (options, 50, puts (pending_for "b"))
    ∷ (options, 60, consumes "b")
    ∷ (options, 70, puts (pending_for "a"))
    ∷ (options, 80, peeks none)
    ∷ []

replayed : left "a" calls none ≡ some (record { value = pending_for "a"; created_at = 70 })
unfolding program
replayed = refl

served : (consume options 200 "a" (run calls create)).1 ≡ ok (pending_for "a")
unfolding program
served = refl

run-consumed_example : ((consume options 200 "a" (run calls create)).1 ≡ ok (pending_for "a")) ↔ (
    (e : PendingEntry) × (lookup String_discrete "a" (run calls create).entries ≡ some e)
    × (left "a" calls none ≡ some e)
    × (e.value ≡ pending_for "a")
    × ((pending_for "a").session_id ≡ "a")
    × IsServable options 200 e)
run-consumed_example = run-consumed calls options 200 "a" (pending_for "a")

consume-once_example :
    (consume options 210 "a" (consume options 200 "a" slot).0).1 ≢ ok (pending_for "a")
consume-once_example = consume-once options 200 210 "a" (pending_for "a") slot slot-IsLinked
