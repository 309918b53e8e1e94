-- ===== src/RunLock/Lock/Bounded.antt =====
-- Calls of the lock of `src/app/session-run-lock.ts`, and the size of its map of active sessions.
use pi_smart_compact.Base.{
  ◌≤◌, ◌≡◌, List, [], ◌∷◌, String, Bool, true, false, ◌||◌, not, Option, none, some, is_some, arith,
  leb, length, lookup, String_discrete, Bool-cases, inl, inr, if◌then◌else◌,
}
use pi_smart_compact.OrderedMap.{OrderedMap, set}
use pi_smart_compact.OrderedMap.Laws.{length-set-le, length-delete-le}
use pi_smart_compact.RunLock.{
  Files, FileLease, Host, Attempt, leased, refused, threw, acquire_file_lease,
}
use pi_smart_compact.RunLock.Lock.{
  RunLease, LockOptions, SessionRunLock, capacity, stale_ms, after_slot, after_session, used,
  acquire, release_run, release, release_all, set_value,
}

-- No more sessions than the capacity.
abbrev pub IsBounded : LockOptions → OrderedMap String RunLease → Type 0
IsBounded o m = length m ≤ capacity o

module _ (o : LockOptions) where
  set-IsBounded :
      (m : OrderedMap String RunLease) (id : String) (v : RunLease)
      → IsBounded o m
      → leb (capacity o) (length m) ≡ false
      → IsBounded o (set String_discrete m id v)
  set-IsBounded m id v h room = ground (arith, length-set-le String_discrete m id v, room)

  after_slot-IsBounded :
      (h : Host) (s : SessionRunLock) (id : String) (session : FileLease) (r : Files × Attempt)
      → IsBounded o s.active
      → leb (capacity o) (length s.active) ≡ false
      → IsBounded o (after_slot h s id session r).0.active
  unfolding after_slot
  after_slot-IsBounded h s id session (files, leased slot) b room =
      set-IsBounded s.active id _ b room
  after_slot-IsBounded h s id session (files, refused) b room = b
  after_slot-IsBounded h s id session (files, threw) b room = b

  after_session-IsBounded :
      (h : Host) (s : SessionRunLock) (id : String) (r : Files × Attempt)
      → IsBounded o s.active
      → leb (capacity o) (length s.active) ≡ false
      → IsBounded o (after_session o h s id r).0.active
  unfolding after_session
  after_session-IsBounded h s id (files, leased session) b room =
      after_slot-IsBounded h s id session _ b room
  after_session-IsBounded h s id (files, refused) b room = b
  after_session-IsBounded h s id (files, threw) b room = b

  acquire-IsBounded :
      (h : Host) (s : SessionRunLock) (id : String)
      → IsBounded o s.active
      → IsBounded o (acquire o h s id).0.active
  unfolding acquire
  acquire-IsBounded h s id b =
      elim (Bool-cases
        (is_some (lookup String_discrete id s.active) || leb (capacity o) (length s.active))) [
          | inl shut ↦ rw shut b
          | inr free ↦
              let room : leb (capacity o) (length s.active) ≡ false = ground (arith, free) in
              rw free (in_dir (not o.has_lease_dir) room)
        ]
    where
      in_dir :
          (plain : Bool)
          → leb (capacity o) (length s.active) ≡ false
          → IsBounded o
              (if plain
                then (
                  (record s {
                    active =
                        set String_discrete s.active id (record { session = none; slot = none });
                  }),
                  true,
                )
                else used o (
                    after_session o h s id (
                      acquire_file_lease h
                        (stale_ms o)
                        o.pid
                        s.next_token
                        (o.session_path id)
                        s.files))).0.active
      in_dir true room = set-IsBounded s.active id _ b room
      in_dir false room = after_session-IsBounded h s id _ b room

  release_run-IsBounded :
      (locked : String → Bool) (s : SessionRunLock) (id : String) (lease : Option RunLease)
      → IsBounded o s.active
      → IsBounded o (release_run locked s id lease).active
  unfolding release_run
  release_run-IsBounded locked s id none b = b
  release_run-IsBounded locked s id (some lease) b =
      omega (arith, b, length-delete-le String_discrete s.active id)

  release_all-IsBounded :
      (locked : String → Bool) (s : SessionRunLock) (leases : OrderedMap String RunLease)
      → IsBounded o s.active
      → IsBounded o (release_all locked s leases).active
  release_all-IsBounded locked s [] b = b
  release_all-IsBounded locked s ((id, lease) ∷ rest) b =
      release_all-IsBounded locked (release locked s id) rest
        (release_run-IsBounded locked s id _ b)

pub data LockCall : Type 0 where
  acquires : Host → String → LockCall
  releases : (locked : String → Bool) → String → LockCall
  sets : (locked : String → Bool) → Bool → LockCall

-- The lock after a call, given the files and tokens that other processes have left.
unfoldable pub after_call : LockOptions → SessionRunLock → Files → LockCall → SessionRunLock
unfolding acquire release_run set_value
after_call o s files (acquires h id) = (acquire o h (record s { files = files }) id).0
after_call o s files (releases locked id) = release locked (record s { files = files }) id
after_call o s files (sets locked next) = set_value locked (record s { files = files }) next

unfoldable pub run_calls : LockOptions → SessionRunLock → List (Files × LockCall) → SessionRunLock
unfolding after_call
run_calls o s [] = s
run_calls o s ((files, c) ∷ calls) = run_calls o (after_call o s files c) calls

set_value-IsBounded :
    (o : LockOptions) (locked : String → Bool) (s : SessionRunLock) (next : Bool)
    → IsBounded o s.active
    → IsBounded o (set_value locked s next).active
unfolding set_value
set_value-IsBounded o locked s true b = b
set_value-IsBounded o locked s false b = release_all-IsBounded o locked s s.active b

after_call-IsBounded :
    (o : LockOptions) (s : SessionRunLock) (files : Files) (c : LockCall)
    → IsBounded o s.active
    → IsBounded o (after_call o s files c).active
unfolding after_call
after_call-IsBounded o s files (acquires h id) b =
    acquire-IsBounded o h (record s { files = files }) id b
after_call-IsBounded o s files (releases locked id) b =
    release_run-IsBounded o locked (record s { files = files }) id _ b
after_call-IsBounded o s files (sets locked next) b =
    set_value-IsBounded o locked (record s { files = files }) next b

-- However a lock within its capacity is called, whatever other processes do to the files, it runs
-- no more sessions than its capacity.
pub run_calls-IsBounded :
    (o : LockOptions) (s : SessionRunLock) (calls : List (Files × LockCall))
    → IsBounded o s.active
    → IsBounded o (run_calls o s calls).active
unfolding run_calls
run_calls-IsBounded o s [] b = b
run_calls-IsBounded o s ((files, c) ∷ calls) b =
    run_calls-IsBounded o (after_call o s files c) calls (after_call-IsBounded o s files c b)
