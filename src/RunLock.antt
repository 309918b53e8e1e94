-- ===== src/RunLock.antt =====
-- `src/app/session-run-lock.ts`: leases on files, and the lock that takes one for a session and one
-- for a slot. The files are a map from paths; a call that reads them twice is given what other
-- processes do in between. A token, which the source draws with `randomUUID`, is a number.
pub mod Attempts
pub mod Lock
pub mod System
pub mod Held
pub mod Exclusive
use pi_smart_compact.Base.{
  ℕ, ◌-◌, ◌*◌, List, [], ◌∷◌, String, Bool, true, false, not, ◌&&◌, ◌||◌, Option, none, some,
  is_some, if◌then◌else◌, ltb, leb, ◌==◌, max, lookup, String_discrete,
}
use pi_smart_compact.OrderedMap.{OrderedMap, set, delete}

-- What a lease file says; a file that cannot be read as JSON says nothing. Every lease that this
-- code writes has a token; a JSON lease without one is left out.
pub record LeaseText : Type 0 where
  pub pid : ℕ
  pub created_at : ℕ
  pub token : ℕ

-- `fs.Stats`, the fields that are read.
pub record Stats : Type 0 where
  pub dev : ℕ
  pub ino : ℕ
  pub size : ℕ
  pub mtime_ms : ℕ

pub record LeaseFile : Type 0 where
  pub text : Option LeaseText
  pub stats : Stats

abbrev pub Files : Type 0
Files = OrderedMap String LeaseFile

pub record FileLease : Type 0 where
  pub file : String
  pub token : ℕ

-- What a call finds: `process.kill(pid, 0)`, the files on which `openSync` or the write fails with
-- an error that is not `EEXIST`, those that `unlinkSync` fails on, the statistics of a file that is
-- created, the clock at the first and at the second look, and what others do between the looks.
pub record Host : Type 0 where
  pub process_exists : ℕ → Bool
  pub broken : String → Bool
  pub locked : String → Bool
  pub stats_of_new : ℕ → Stats
  pub now : ℕ
  pub later : ℕ
  pub others : Files → Files

pub data Attempt : Type 0 where
  leased : FileLease → Attempt
  refused : Attempt
  threw : Attempt

abbrev pub one_hour_ms : ℕ
one_hour_ms = 3600000

abbrev pub process_alive : Host → ℕ → Bool
process_alive h pid = ltb 0 pid && h.process_exists pid

abbrev pub created_file : Host → (pid token now : ℕ) → LeaseFile
created_file h pid token now = record {
  text = some (record { pid = pid; created_at = now; token = token });
  stats = record (h.stats_of_new token) { mtime_ms = now };
}

unfoldable pub create_lease : Host → (pid token : ℕ) → (now : ℕ) → Files → String → Files × Attempt
create_lease h pid token now files file =
    let created = created_file h pid token now in
    if h.broken file
    then (files, threw)
    else if is_some (lookup String_discrete file files)
    then (files, refused)
    else (set String_discrete files file created, leased (record { file = file; token = token }))

abbrev pub created_of : Option LeaseText → ℕ
created_of none = 0
created_of (some text) = text.created_at

abbrev pub is_owned : Host → Option LeaseText → Bool
is_owned h none = false
is_owned h (some text) = process_alive h text.pid

abbrev pub live_pid_ceiling : (stale_ms : ℕ) → ℕ
live_pid_ceiling stale_ms = max one_hour_ms (stale_ms * 4)

-- A lease that is young, or whose process lives, is not taken over.
unfoldable pub is_protected : Host → (stale_ms now : ℕ) → LeaseFile → Bool
is_protected h stale_ms now f =
    let age = now - max (created_of f.text) f.stats.mtime_ms in
    leb age stale_ms || (is_owned h f.text && leb age (live_pid_ceiling stale_ms))

abbrev pub has_token : Option LeaseText → ℕ → Bool
has_token none t = false
has_token (some text) t = text.token == t

abbrev pub is_same_stats : Stats → Stats → Bool
is_same_stats a b =
    (a.dev == b.dev) && (a.ino == b.ino) && (a.size == b.size) && (a.mtime_ms == b.mtime_ms)

-- The last test before the file is unlinked, by token, or by the file where it says none.
unfoldable pub is_unchanged : (current latest : LeaseFile) → Bool
is_unchanged current latest = elim current.text [
  | none ↦ is_same_stats latest.stats current.stats
  | some text ↦ has_token latest.text text.token
]

module _ (h : Host) (stale_ms pid token : ℕ) (file : String) where
  unfoldable pub second_look : LeaseFile → Files → Option LeaseFile → Files × Attempt
  second_look current files none = (files, refused)
  second_look current files (some latest) =
      if is_protected h stale_ms h.later latest || not (is_unchanged current latest)
      then (files, refused)
      else if h.locked file
      then (files, refused)
      else create_lease h pid token h.later (delete String_discrete files file) file

  unfoldable pub first_look : Files → Option LeaseFile → Files × Attempt
  first_look files none = (files, refused)
  first_look files (some current) =
      if is_protected h stale_ms h.now current
      then (files, refused)
      else second_look current (h.others files) (lookup String_discrete file (h.others files))

  unfoldable pub reclaim : Files → Files × Attempt
  unfolding first_look second_look create_lease is_protected is_unchanged
  reclaim files = first_look files (lookup String_discrete file files)

  unfoldable pub after_create : Files → Attempt → Files × Attempt
  after_create files (leased lease) = (files, leased lease)
  after_create files threw = (files, threw)
  after_create files refused = reclaim files

  unfoldable pub acquire_file_lease : Files → Files × Attempt
  unfolding reclaim after_create create_lease
  acquire_file_lease files =
      let (created, attempt) = create_lease h pid token h.now files file in
      after_create created attempt

abbrev pub text_of : Option LeaseFile → Option LeaseText
text_of none = none
text_of (some f) = f.text

unfoldable pub release_lease : (locked : String → Bool) → Files → FileLease → Files
release_lease locked files lease =
    if has_token (text_of (lookup String_discrete lease.file files)) lease.token
    then (if locked lease.file then files else delete String_discrete files lease.file)
    else files

abbrev pub release_file_lease : (locked : String → Bool) → Files → Option FileLease → Files
release_file_lease locked files none = files
release_file_lease locked files (some lease) = release_lease locked files lease

abbrev pub touched : ℕ → LeaseFile → LeaseFile
touched now f = record f { stats = record f.stats { mtime_ms = now } }

abbrev pub touch : Files → String → ℕ → Option LeaseFile → Files
touch files file now none = files
touch files file now (some f) = set String_discrete files file (touched now f)

-- The timer of a lease; one that another process has taken over stops, and touches nothing.
unfoldable pub heartbeat : (now : ℕ) → Files → FileLease → Files
heartbeat now files lease =
    if has_token (text_of (lookup String_discrete lease.file files)) lease.token
    then touch files lease.file now (lookup String_discrete lease.file files)
    else files
