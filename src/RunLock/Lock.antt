-- ===== src/RunLock/Lock.antt =====
-- `createSessionRunLock`: the leases that one process holds, by session.
pub mod Slots
pub mod Round
pub mod Refused
pub mod Bounded
pub mod Again
use pi_smart_compact.Base.{
  ℕ, zero, suc, ◌+◌, List, [], ◌∷◌, String, Bool, true, false, not, ◌&&◌, ◌||◌, Option, none, some,
  is_some, if◌then◌else◌, ltb, leb, max, length, lookup, String_discrete,
}
use pi_smart_compact.OrderedMap.{OrderedMap, set, delete}
use pi_smart_compact.RunLock.{
  Files, FileLease, Host, Attempt, leased, refused, threw, acquire_file_lease, release_file_lease,
  release_lease,
}

pub record RunLease : Type 0 where
  pub session : Option FileLease
  pub slot : Option FileLease

-- The options; the paths are those of the lease directory, by session and by slot.
pub record LockOptions : Type 0 where
  pub max_concurrent : ℕ
  pub has_lease_dir : Bool
  pub stale_ms_option : ℕ
  pub pid : ℕ
  pub session_path : String → String
  pub slot_path : ℕ → String

pub record SessionRunLock : Type 0 where
  pub active : OrderedMap String RunLease
  pub files : Files
  pub next_token : ℕ

abbrev pub capacity : LockOptions → ℕ
capacity o = max 1 o.max_concurrent

abbrev pub stale_ms : LockOptions → ℕ
stale_ms o = max 60000 o.stale_ms_option

abbrev pub or_next : (Files → Files × Attempt) → Files × Attempt → Files × Attempt
or_next next (files, refused) = next files
or_next next (files, leased lease) = (files, leased lease)
or_next next (files, threw) = (files, threw)

-- The loop over the slots from `index` on, `n` of them; the token of each attempt is a new one.
unfoldable pub take_slot : LockOptions → Host → (n index token : ℕ) → Files → Files × Attempt
unfolding acquire_file_lease
take_slot o h zero index token files = (files, refused)
take_slot o h (suc n) index token files =
    or_next (λ files'. take_slot o h n (suc index) (suc token) files')
      (acquire_file_lease h (stale_ms o) o.pid token (o.slot_path index) files)

-- How `acquire` ends, once the session's lease is taken.
unfoldable pub after_slot :
    Host → SessionRunLock → String → FileLease → Files × Attempt → SessionRunLock × Bool
unfolding release_lease
after_slot h s id session (files, leased slot) = (
  record s {
    active = set String_discrete s.active id (record { session = some session; slot = some slot });
    files = files;
  },
  true,
)
after_slot h s id session (files, refused) =
    (record s { files = release_lease h.locked files session }, false)
after_slot h s id session (files, threw) = (record s { files = files }, false)

unfoldable pub after_session :
    LockOptions → Host → SessionRunLock → String → Files × Attempt → SessionRunLock × Bool
unfolding take_slot after_slot
after_session o h s id (files, leased session) =
    after_slot h s id session (take_slot o h (capacity o) 0 (suc s.next_token) files)
after_session o h s id (files, refused) = (record s { files = files }, false)
after_session o h s id (files, threw) = (record s { files = files }, false)

-- The tokens that a call may use up.
abbrev pub used : LockOptions → SessionRunLock × Bool → SessionRunLock × Bool
used o (s, b) = (record s { next_token = suc (s.next_token + capacity o) }, b)

unfoldable pub acquire : LockOptions → Host → SessionRunLock → String → SessionRunLock × Bool
unfolding acquire_file_lease after_session
acquire o h s id =
    if is_some (lookup String_discrete id s.active) || leb (capacity o) (length s.active)
    then (s, false)
    else if not o.has_lease_dir
    then (
      record s {
        active = set String_discrete s.active id (record { session = none; slot = none });
      },
      true,
    )
    else used o (
        after_session o h s id
          (acquire_file_lease h (stale_ms o) o.pid s.next_token (o.session_path id) s.files))

unfoldable pub release_run :
    (locked : String → Bool) → SessionRunLock → String → Option RunLease → SessionRunLock
unfolding release_lease
release_run locked s id none = s
release_run locked s id (some lease) = record s {
  active = delete String_discrete s.active id;
  files = release_file_lease locked (release_file_lease locked s.files lease.slot) lease.session;
}

abbrev pub release : (locked : String → Bool) → SessionRunLock → String → SessionRunLock
release locked s id = release_run locked s id (lookup String_discrete id s.active)

abbrev pub release_all :
    (locked : String → Bool) → SessionRunLock → OrderedMap String RunLease → SessionRunLock
release_all locked s [] = s
release_all locked s ((id, lease) ∷ rest) = release_all locked (release locked s id) rest

-- The setter of `value`.
unfoldable pub set_value : (locked : String → Bool) → SessionRunLock → Bool → SessionRunLock
unfolding release_run
set_value locked s true = s
set_value locked s false = release_all locked s s.active

abbrev pub is_session_active : SessionRunLock → String → Bool
is_session_active s id = is_some (lookup String_discrete id s.active)
