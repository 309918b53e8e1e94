-- ===== src/Tests/RunLock.antt =====
-- Two processes on the lease directory (`src/app/session-run-lock.ts`).
use pi_smart_compact.Base.{
  ℕ, zero, suc, ◌≡◌, ◌≢◌, refl, List, [], ◌∷◌, String, Bool, true, false, lookup, arith,
  String_discrete, ℕ_discrete, ltb,
}
use pi_smart_compact.OpenLoops.{is_text}
use pi_smart_compact.OrderedMap.{set, delete}
use pi_smart_compact.RunLock.{
  Files, LeaseFile, Host, leased, refused, created_file, create_lease, acquire_file_lease,
  is_protected, is_unchanged, reclaim, after_create, first_look, second_look,
}
use pi_smart_compact.RunLock.System.{System, start, given, takes, Reach, begin, later}
use pi_smart_compact.RunLock.Exclusive.{Reach-exclusive}
use pi_smart_compact.RunLock.Lock.{
  LockOptions, SessionRunLock, acquire, release, take_slot, after_slot, after_session,
}
use pi_smart_compact.RunLock.Lock.Round.{IsGivenBack, release-acquire}
use pi_smart_compact.RunLock.Lock.Refused.{IsLeftAlone, acquire-refused}
use pi_smart_compact.RunLock.Lock.Bounded.{
  IsBounded, LockCall, acquires, releases, sets, run_calls, run_calls-IsBounded,
}
use pi_smart_compact.RunLock.Lock.Again.{run_calls-once}

abbrev host_at : ℕ → (ℕ → Bool) → Host
host_at now runs = record {
  process_exists = runs;
  broken = λ file. false;
  locked = λ file. false;
  stats_of_new = λ t. record { dev = 1; ino = t; size = 90; mtime_ms = 0 };
  now = now;
  later = now;
  others = λ files. files;
}

abbrev slot_name : ℕ → String
slot_name zero = "slot-0"
slot_name (suc n) = "slot-1"

abbrev options : LockOptions
options = record {
  max_concurrent = 2;
  has_lease_dir = true;
  stale_ms_option = 60000;
  pid = 1;
  session_path = λ id. "session";
  slot_path = slot_name;
}

abbrev idle : SessionRunLock
idle = record { active = []; files = []; next_token = 1 }

abbrev host : Host
host = host_at 100 (λ pid. true)

abbrev old_file : (pid token : ℕ) → LeaseFile
old_file pid token = created_file host pid token 100

-- A lease of a process that is gone is taken over when it is stale, and not before.
takes_over :
    acquire_file_lease (host_at 70000 (λ pid. false)) 60000 2 9 "a" (("a", old_file 1 1) ∷ [])
    ≡ (("a", created_file host 2 9 70000) ∷ [], leased (record { file = "a"; token = 9 }))
unfolding acquire_file_lease create_lease reclaim after_create first_look second_look is_protected
    is_unchanged lookup set delete String_discrete
takes_over = refl

refuses_young :
    acquire_file_lease (host_at 60000 (λ pid. false)) 60000 2 9 "a" (("a", old_file 1 1) ∷ [])
    ≡ (("a", old_file 1 1) ∷ [], refused)
unfolding acquire_file_lease create_lease reclaim after_create first_look second_look is_protected
    is_unchanged lookup set delete String_discrete
refuses_young = refl

-- A lease that another process takes between the two looks is not unlinked.
refuses_changed :
    acquire_file_lease
      (record (host_at 70000 (λ pid. false)) { others = λ files. ("a", old_file 3 5) ∷ [] })
      60000
      2
      9
      "a"
      (("a", old_file 1 1) ∷ [])
    ≡ (("a", old_file 3 5) ∷ [], refused)
unfolding acquire_file_lease create_lease reclaim after_create first_look second_look is_protected
    is_unchanged lookup set delete String_discrete
refuses_changed = refl

-- A slot that fails with an error leaves the session's lease on its file.
abbrev is_slot : String → Bool
is_slot file = is_text file "slot-0"

leaks :
    let r = acquire options (record host { broken = is_slot }) idle "s" in
    (r.1 ≡ false) × (r.0.files ≡ ("session", old_file 1 1) ∷ [])
unfolding acquire take_slot after_slot after_session acquire_file_lease create_lease after_create
    lookup set delete String_discrete
leaks = (refl, refl)

abbrev taken : System
taken = given (start 100) 1 (acquire_file_lease (host_at 100 (λ pid. ltb 0 pid)) 60000 1 1 "a" [])

reaches : Reach 60000 100 taken
reaches = later begin (
    takes (host_at 100 (λ pid. ltb 0 pid)) 1 "a"
      (record { exists = refl; first = refl; second = refl; alone = refl }) refl (omega arith))

Reach-exclusive_example : ◌≡◌ {A = ℕ} 1 1
unfolding acquire_file_lease create_lease reclaim after_create lookup set delete String_discrete
    ℕ_discrete
Reach-exclusive_example =
    Reach-exclusive 60000 reaches 1 1 (record { pid = 1; file = "a" })
      (record { pid = 1; file = "a" }) refl refl refl refl refl

slots_apart : (i : ℕ) → slot_name i ≢ "session"
slots_apart zero e = cc
slots_apart (suc n) e = cc

release-acquire_example :
    IsGivenBack options idle (release host.locked (acquire options host idle "s").0 "s") "s"
unfolding acquire take_slot after_slot after_session acquire_file_lease create_lease after_create
    lookup set delete String_discrete
release-acquire_example =
    release-acquire options host idle "s" refl slots_apart (λ file. refl) (λ files. refl) tt refl

-- Both slots are taken by processes that live.
abbrev full : SessionRunLock
full = record {
  active = [];
  files = ("slot-0", old_file 7 1) ∷ ("slot-1", old_file 8 2) ∷ [];
  next_token = 3;
}

acquire-refused_example : IsLeftAlone options full (acquire options host full "s").0 "s"
unfolding acquire take_slot after_slot after_session acquire_file_lease create_lease reclaim
    after_create first_look second_look is_protected lookup set delete String_discrete
acquire-refused_example =
    acquire-refused options host full "s" refl (λ file. refl) (λ file. refl) (λ files. refl)
      (refl, (refl, tt)) refl

run_calls-IsBounded_example :
    IsBounded options
      (run_calls options idle (
        ([], acquires host "s")
        ∷ ([], acquires host "t")
        ∷ ([], acquires host "u")
        ∷ ([], sets host.locked false)
        ∷ [])).active
run_calls-IsBounded_example =
    run_calls-IsBounded options idle
      (([], acquires host "s")
        ∷ ([], acquires host "t")
        ∷ ([], acquires host "u")
        ∷ ([], sets host.locked false)
        ∷ [])
      (omega arith)

-- Each session has a lease file of its own.
abbrev by_name : LockOptions
by_name = record options { session_path = λ id. id }

abbrev other_name : String
other_name = "s2"

apart : "s" ≢ other_name
apart h = cc

-- Another session comes and goes, and the first is tried again.
abbrev visits : List (Files × LockCall)
visits =
    ([], acquires host other_name)
    ∷ ([], acquires host "s")
    ∷ ([], releases host.locked other_name)
    ∷ ([], sets host.locked true)
    ∷ []

-- The lock after them.
abbrev visited : SessionRunLock
visited = record (run_calls by_name (acquire by_name host idle "s").0 visits) { files = [] }

run_calls-once_example : acquire by_name host visited "s" ≡ (visited, false)
unfolding acquire take_slot after_slot after_session acquire_file_lease create_lease after_create
    lookup set delete String_discrete
run_calls-once_example =
    run_calls-once by_name host host "s" idle visits [] refl (tt, (tt, (apart, (refl, tt))))
