-- ===== src/RunLock/Lock/Again.antt =====
-- A session that runs is not acquired again (`src/app/session-run-lock.ts`).
use pi_smart_compact.Base.{
  ◌≡◌, ◌≢◌, List, [], ◌∷◌, String, Bool, true, false, ◌||◌, not, Option, none, some, is_some, arith,
  leb, length, lookup, String_discrete, Bool-cases, inl, inr, if◌then◌else◌, All,
}
use pi_smart_compact.OrderedMap.{OrderedMap, set}
use pi_smart_compact.OrderedMap.Laws.{lookup-set, lookup-delete_ne}
use pi_smart_compact.RunLock.{
  Files, FileLease, Host, Attempt, leased, refused, threw, acquire_file_lease,
}
use pi_smart_compact.RunLock.Lock.{
  RunLease, LockOptions, SessionRunLock, capacity, stale_ms, after_slot, after_session, used,
  acquire, release_run, set_value,
}
use pi_smart_compact.RunLock.Lock.Bounded.{
  LockCall, acquires, releases, sets, after_call, run_calls,
}
use pi_smart_compact.RunLock.Lock.Round.{acquire_shut}

-- The call does not give the session back.
abbrev pub IsKeeping : String → LockCall → Type 0
IsKeeping id (acquires h other) = Unit
IsKeeping id (releases locked other) = id ≢ other
IsKeeping id (sets locked next) = next ≡ true

-- The session has a lease.
abbrev Runs : String → SessionRunLock → Type 0
Runs id s = is_some (lookup String_discrete id s.active) ≡ true

set-keeps :
    (m : OrderedMap String RunLease) (id other : String) (v : RunLease)
    → is_some (lookup String_discrete id m) ≡ true
    → is_some (lookup String_discrete id (set String_discrete m other v)) ≡ true
set-keeps m id other v h = ground (arith, lookup-set String_discrete m id other v, h)

set-runs :
    (m : OrderedMap String RunLease) (id : String) (v : RunLease)
    → is_some (lookup String_discrete id (set String_discrete m id v)) ≡ true
set-runs m id v = ground (arith, lookup-set String_discrete m id id v)

-- What an attempt to acquire `other` leaves: a session that ran still runs, and `other` runs if it
-- was got.
abbrev IsFair : SessionRunLock → (other : String) → SessionRunLock × Bool → Type 0
IsFair s other r = ((id : String) → Runs id s → Runs id r.0) × (r.1 ≡ true → Runs other r.0)

module _ (o : LockOptions) (h : Host) (s : SessionRunLock) (other : String) where
  after_slot-IsFair :
      (session : FileLease) (r : Files × Attempt) → IsFair s other (after_slot h s other session r)
  unfolding after_slot
  after_slot-IsFair session (files, leased slot) =
      (λ id runs. set-keeps s.active id other _ runs, λ got. set-runs s.active other _)
  after_slot-IsFair session (files, refused) = (λ id runs. runs, λ got. absurd (ground arith))
  after_slot-IsFair session (files, threw) = (λ id runs. runs, λ got. absurd (ground arith))

  after_session-IsFair : (r : Files × Attempt) → IsFair s other (after_session o h s other r)
  unfolding after_session
  after_session-IsFair (files, leased session) = after_slot-IsFair session _
  after_session-IsFair (files, refused) = (λ id runs. runs, λ got. absurd (ground arith))
  after_session-IsFair (files, threw) = (λ id runs. runs, λ got. absurd (ground arith))

  opened-IsFair :
      (plain : Bool)
      → IsFair s other (
          if plain
          then (
            (record s {
              active = set String_discrete s.active other (record { session = none; slot = none });
            }),
            true,
          )
          else used o (
              after_session o h s other (
                acquire_file_lease h
                  (stale_ms o)
                  o.pid
                  s.next_token
                  (o.session_path other)
                  s.files)))
  opened-IsFair true =
      (λ id runs. set-keeps s.active id other _ runs, λ got. set-runs s.active other _)
  opened-IsFair false = after_session-IsFair _

  acquire-IsFair : IsFair s other (acquire o h s other)
  unfolding acquire
  acquire-IsFair =
      elim (Bool-cases
        (is_some (lookup String_discrete other s.active) || leb (capacity o) (length s.active))) [
          | inl shut ↦ rw shut (λ id runs. runs, λ got. absurd (ground arith))
          | inr free ↦ rw free (opened-IsFair (not o.has_lease_dir))
        ]

release_run-keeps :
    (locked : String → Bool) (s : SessionRunLock) (id other : String) (lease : Option RunLease)
    → id ≢ other
    → Runs id s
    → Runs id (release_run locked s other lease)
unfolding release_run
release_run-keeps locked s id other none ne runs = runs
release_run-keeps locked s id other (some lease) ne runs =
    rw (lookup-delete_ne String_discrete s.active id other ne) runs

after_call-keeps :
    (o : LockOptions) (id : String) (s : SessionRunLock) (files : Files) (c : LockCall)
    → IsKeeping id c
    → Runs id s
    → Runs id (after_call o s files c)
unfolding after_call set_value
after_call-keeps o id s files (acquires h other) keeping runs =
    (acquire-IsFair o h (record s { files = files }) other).0 id runs
after_call-keeps o id s files (releases locked other) keeping runs =
    release_run-keeps locked (record s { files = files }) id other _ keeping runs
after_call-keeps o id s files (sets locked true) keeping runs = runs
after_call-keeps o id s files (sets locked false) keeping runs = absurd (ground arith)

run_calls-keeps :
    (o : LockOptions) (id : String) (s : SessionRunLock) (calls : List (Files × LockCall))
    → All (λ (c : Files × LockCall). IsKeeping id c.1) calls
    → Runs id s
    → Runs id (run_calls o s calls)
unfolding run_calls
run_calls-keeps o id s [] keeping runs = runs
run_calls-keeps o id s ((files, c) ∷ calls) keeping runs =
    run_calls-keeps o id (after_call o s files c) calls keeping.1
      (after_call-keeps o id s files c keeping.0 runs)

-- A session that was acquired is refused to every later acquire, which changes nothing, however
-- the lock is called in between, as long as the session is not released and the lock is not set to
-- false, and whatever other processes do to the files: no session runs twice.
pub run_calls-once :
    (o : LockOptions) (h later : Host) (id : String) (s : SessionRunLock)
    (calls : List (Files × LockCall)) (files : Files)
    → (acquire o h s id).1 ≡ true
    → All (λ (c : Files × LockCall). IsKeeping id c.1) calls
    → acquire o later (record (run_calls o (acquire o h s id).0 calls) { files = files }) id
      ≡ ((record (run_calls o (acquire o h s id).0 calls) { files = files }), false)
run_calls-once o h later id s calls files got keeping =
    let runs : Runs id (run_calls o (acquire o h s id).0 calls) =
      run_calls-keeps o id (acquire o h s id).0 calls keeping ((acquire-IsFair o h s id).1 got) in
    acquire_shut o later (record (run_calls o (acquire o h s id).0 calls) { files = files }) id
      (ground (arith, runs))
