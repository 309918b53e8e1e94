-- ===== src/HostCache.antt =====
-- `src/app/host-cache-ledger.ts`: what the host's requests say of the provider's prompt cache.
-- A number that is not finite is `none`, a negative one 0, as `num` reads it. Times are whole
-- milliseconds, prices whole multiples of some unit; in a lifetime of the model's metadata 0
-- stands for any value that the code refuses.
pub mod Observe
pub mod Laws
pub mod Reports
use pi_smart_compact.Base.{
  ℕ, ◌+◌, ◌*◌, max, refl, ap, arith, List, [], String, Bool, true, false, ◌||◌, Option, none, some,
  ltb, leb, if◌then◌else◌, String_discrete,
}
use pi_smart_compact.OrderedMap.{OrderedMap}

pub data ContextEditKind : Type 0 where
  trim rewind navigation compaction : ContextEditKind

pub data RebuildCause : Type 0 where
  continuity idle_expiry foreign : RebuildCause

-- A route, which the code writes as the JSON text of the pair.
abbrev pub Route : Type 0
Route = Option String × Option String

unfoldable pub name_discrete : Discrete (Option String)
name_discrete none none = yes refl
name_discrete none (some b) = no (λ e. cc)
name_discrete (some a) none = no (λ e. cc)
name_discrete (some a) (some b) = elim (String_discrete a b) [
  | yes p ↦ yes (ap {B = Option String} some p)
  | no n ↦ no (λ e. n (ground arith))
]

unfoldable pub Route_discrete : Discrete Route
unfolding name_discrete
Route_discrete a b = elim (name_discrete a.0 b.0) [
  | no n ↦ no (λ e. n (ap (λ (r : Route). r.0) e))
  | yes p ↦ elim (name_discrete a.1 b.1) [
    | no n ↦ no (λ e. n (ap (λ (r : Route). r.1) e))
    | yes q ↦ yes (λ i. (p i, q i))
  ]
]

pub record LedgerEntry : Type 0 where
  pub at_ms : ℕ
  pub provider : Option String
  pub model : Option String
  pub prompt : ℕ
  pub uncached : ℕ
  pub cache_read : ℕ
  pub gap_ms : Option ℕ
  pub rebuild : Bool
  pub cause : Option RebuildCause
  pub edit_kind : Option ContextEditKind
  pub warn : Bool
  pub inactive : Bool

pub record TokenTally : Type 0 where
  pub count : ℕ
  pub uncached : ℕ

pub record InactiveRoute : Type 0 where
  pub provider : String
  pub model : String
  pub requests : ℕ
  pub uncached : ℕ

pub record LedgerSummary : Type 0 where
  pub session_id : Option String
  pub requests : ℕ
  pub input : ℕ
  pub cache_read : ℕ
  pub cache_write : ℕ
  pub rebuilds : RebuildCause → TokenTally
  pub edits : ContextEditKind → TokenTally
  pub inactive_routes : List InactiveRoute
  pub cost_requests : ℕ
  pub cost_total : ℕ
  pub cost_rebuild_uncached : ℕ

pub record UsageCost : Type 0 where
  pub total : Option ℕ
  pub input : ℕ
  pub cache_write : ℕ

pub record Usage : Type 0 where
  pub input : Option ℕ
  pub cache_read : ℕ
  pub cache_write : ℕ
  pub cache_write_1h : Option ℕ
  pub cost : Option UsageCost

pub record ObservedMessage : Type 0 where
  pub usage : Option Usage
  pub provider : Option String
  pub model : Option String
  pub timestamp : Option ℕ

-- The tiers of the model's metadata, in seconds.
pub record ModelPromptCache : Type 0 where
  pub short : Option ℕ
  pub long : Option ℕ

pub record RouteStreak : Type 0 where
  pub provider : String
  pub model : String
  pub requests : ℕ
  pub uncached : ℕ
  pub warned : Bool

pub record HostCacheLedger : Type 0 where
  pub summary : LedgerSummary
  pub previous_at : Option ℕ
  pub warmed_at : Option ℕ
  pub lifetime_ms : Option ℕ
  pub written_tier_ms : Option ℕ
  pub previous_route : Option Route
  pub pending_edit : Option ContextEditKind
  pub route_streaks : OrderedMap Route RouteStreak

abbrev one_hour_ms : ℕ
one_hour_ms = 3_600_000

abbrev no_tally : TokenTally
no_tally = record { count = 0; uncached = 0 }

unfoldable pub reset : Option String → HostCacheLedger
reset id = record {
  summary = record {
    session_id = id;
    requests = 0;
    input = 0;
    cache_read = 0;
    cache_write = 0;
    rebuilds = λ cause. no_tally;
    edits = λ kind. no_tally;
    inactive_routes = [];
    cost_requests = 0;
    cost_total = 0;
    cost_rebuild_uncached = 0;
  };
  previous_at = none;
  warmed_at = none;
  lifetime_ms = none;
  written_tier_ms = none;
  previous_route = none;
  pending_edit = none;
  route_streaks = [];
}

unfoldable pub note_context_edit : ContextEditKind → HostCacheLedger → HostCacheLedger
note_context_edit kind l = record l { pending_edit = some kind }

abbrev pub or_else : Option ℕ → ℕ → ℕ
or_else none n = n
or_else (some m) n = m

unfoldable pub note_cache_warm : ℕ → HostCacheLedger → HostCacheLedger
note_cache_warm time l = record l { warmed_at = some (max (or_else l.warmed_at time) time) }

abbrev billed_1h : Usage → Bool
billed_1h usage = ltb 0 (or_else usage.cache_write_1h 0)

-- `tiers.some(value => value <= 0)`
abbrev refused : Option ℕ → Bool
refused none = false
refused (some seconds) = leb seconds 0

abbrev lifetime_of : Option ℕ → Option ℕ → ℕ → Option ℕ
lifetime_of none none floor = none
lifetime_of (some short) none floor = some (max (short * 1_000) floor)
lifetime_of none (some long) floor = some (max (long * 1_000) floor)
lifetime_of (some short) (some long) floor = some (max (max (short * 1_000) (long * 1_000)) floor)

unfoldable pub cache_lifetime_ms : Usage → Option ModelPromptCache → Option ℕ
cache_lifetime_ms usage none = none
cache_lifetime_ms usage (some cache) =
    if refused cache.short || refused cache.long
    then none
    else lifetime_of cache.short cache.long (if billed_1h usage then one_hour_ms else 0)

abbrev short_tier : Option ModelPromptCache → Option ℕ
short_tier none = none
short_tier (some cache) = elim cache.short [
  | none ↦ none
  | some seconds ↦ if ltb 0 seconds then some (seconds * 1_000) else none
]

unfoldable pub cache_write_tier_ms : Usage → Option ModelPromptCache → Option ℕ
cache_write_tier_ms usage cache =
    if leb usage.cache_write 0 then none else elim usage.cache_write_1h [
      | none ↦ none
      | some billed ↦ if ltb 0 billed then some one_hour_ms else short_tier cache
    ]
