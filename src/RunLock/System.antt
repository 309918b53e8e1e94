-- ===== src/RunLock/System.antt =====
-- Processes that take, keep and give back leases on the same files. Each call of the lock runs
-- alone; a process that dies leaves its files.
use pi_smart_compact.Base.{
  ℕ, suc, ◌+◌, ◌-◌, ◌≤◌, ◌<◌, ◌≡◌, [], String, Bool, true, false, not, ◌&&◌, Option, none, some,
  ltb, leb, ◌==◌, lookup, ℕ_discrete, String_discrete,
}
use pi_smart_compact.OrderedMap.{OrderedMap, set, delete}
use pi_smart_compact.RunLock.{
  LeaseText, LeaseFile, Files, FileLease, Host, Attempt, leased, refused, threw, acquire_file_lease,
  release_lease, heartbeat, live_pid_ceiling,
}

-- Who was given the lease of a token, and on which file.
pub record Holder : Type 0 where
  pub pid : ℕ
  pub file : String

pub record System : Type 0 where
  pub now : ℕ
  pub files : Files
  pub leases : OrderedMap ℕ Holder
  pub next_token : ℕ
  pub runs : ℕ → Bool

abbrev pub start : (now : ℕ) → System
start now = record { now = now; files = []; leases = []; next_token = 1; runs = λ pid. ltb 0 pid }

abbrev pub given : System → ℕ → Files × Attempt → System
given s pid (files, leased lease) = record s {
  files = files;
  leases = set ℕ_discrete s.leases s.next_token (record { pid = pid; file = lease.file });
  next_token = suc s.next_token;
}
given s pid (files, refused) = record s { files = files; next_token = suc s.next_token }
given s pid (files, threw) = record s { files = files; next_token = suc s.next_token }

abbrev pub lease_of : ℕ → Holder → FileLease
lease_of t l = record { file = l.file; token = t }

abbrev pub released : System → (locked : String → Bool) → ℕ → Option Holder → System
released s locked t none = s
released s locked t (some l) = record s {
  files = release_lease locked s.files (lease_of t l);
  leases = delete ℕ_discrete s.leases t;
}

abbrev pub beaten : System → ℕ → Option Holder → System
beaten s t none = s
beaten s t (some l) = record s { files = heartbeat s.now s.files (lease_of t l) }

abbrev pub aged : System → ℕ → System
aged s d = record s { now = s.now + d }

abbrev pub killed : System → ℕ → System
killed s pid = record s { runs = λ p. s.runs p && not (p == pid) }

-- The host of a call in the system.
pub record IsHostOf (s : System) (h : Host) : Type 0 where
  pub exists : h.process_exists ≡ s.runs
  pub first : h.now ≡ s.now
  pub second : h.later ≡ s.now
  pub alone : h.others s.files ≡ s.files

abbrev pub is_text_of : ℕ → Holder → Option LeaseText → Bool
is_text_of t l none = false
is_text_of t l (some text) = (text.pid == l.pid) && (text.token == t) && ltb 0 text.pid

-- The file's lease is the token's, and its time is within the ceiling.
abbrev pub is_holding : (ceiling now : ℕ) → ℕ → Holder → Option LeaseFile → Bool
is_holding ceiling now t l none = false
is_holding ceiling now t l (some f) = is_text_of t l f.text && leb (now - f.stats.mtime_ms) ceiling

abbrev pub file_of : Option LeaseFile → ℕ
file_of none = 0
file_of (some f) = f.stats.mtime_ms

module _ (stale_ms : ℕ) where
  -- Time passes while every running process's timers touch its leases within the ceiling, which is
  -- twelve times the interval of the timers at least.
  pub data Step : System → System → Type 0 where
    takes :
        {s : System} (h : Host) (pid : ℕ) (file : String)
        → IsHostOf s h
        → s.runs pid ≡ true
        → 0 < pid
        → Step s (given s pid (acquire_file_lease h stale_ms pid s.next_token file s.files))
    releases :
        {s : System} (locked : String → Bool) (t : ℕ)
        → Step s (released s locked t (lookup ℕ_discrete t s.leases))
    beats : {s : System} (t : ℕ) → Step s (beaten s t (lookup ℕ_discrete t s.leases))
    dies : {s : System} (pid : ℕ) → Step s (killed s pid)
    passes :
        {s : System} (d : ℕ)
        → ((t : ℕ) (l : Holder)
            → lookup ℕ_discrete t s.leases ≡ some l
            → s.runs l.pid ≡ true
            → (s.now + d) - file_of (lookup String_discrete l.file s.files)
              ≤ live_pid_ceiling stale_ms)
        → Step s (aged s d)

  pub data Reach (now : ℕ) : System → Type 0 where
    begin : Reach now (start now)
    later : {s t : System} → Reach now s → Step s t → Reach now t
