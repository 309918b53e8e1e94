-- ===== src/HostCache/Observe.antt =====
-- `observe`: one request of the host.
use pi_smart_compact.Base.{
  ℕ, ◌+◌, ◌-◌, ◌*◌, max, [], ◌∷◌, ◌++◌, String, Bool, true, false, ◌||◌, ◌&&◌, not, Option, none,
  some, ltb, leb, ◌==◌, if◌then◌else◌, lookup, String_discrete,
}
use pi_smart_compact.OrderedMap.{set}
use pi_smart_compact.HostCache.{
  ContextEditKind, trim, rewind, navigation, compaction, RebuildCause, continuity, idle_expiry,
  foreign, Route, Route_discrete, LedgerEntry, TokenTally, InactiveRoute, LedgerSummary, UsageCost,
  Usage, ObservedMessage, ModelPromptCache, RouteStreak, HostCacheLedger, or_else,
  cache_lifetime_ms, cache_write_tier_ms,
}

abbrev same_cause : RebuildCause → RebuildCause → Bool
same_cause continuity continuity = true
same_cause idle_expiry idle_expiry = true
same_cause foreign foreign = true
same_cause _ _ = false

abbrev same_kind : ContextEditKind → ContextEditKind → Bool
same_kind trim trim = true
same_kind rewind rewind = true
same_kind navigation navigation = true
same_kind compaction compaction = true
same_kind _ _ = false

abbrev pub bump : ℕ → TokenTally → TokenTally
bump n t = record { count = t.count + 1; uncached = t.uncached + n }

abbrev pub add_cause : RebuildCause → ℕ → (RebuildCause → TokenTally) → RebuildCause → TokenTally
add_cause cause n tallies c = if same_cause cause c then bump n (tallies c) else tallies c

abbrev pub add_kind :
    ContextEditKind → ℕ → (ContextEditKind → TokenTally) → ContextEditKind → TokenTally
add_kind kind n tallies k = if same_kind kind k then bump n (tallies k) else tallies k

-- The numbers of one request, as `observe` reads them.
pub record Request : Type 0 where
  pub time : ℕ
  pub route : Route
  pub input : ℕ
  pub cache_read : ℕ
  pub cache_write : ℕ

abbrev pub prompt_of : Request → ℕ
prompt_of r = r.input + r.cache_read + r.cache_write

abbrev pub uncached_of : Request → ℕ
uncached_of r = r.input + r.cache_write

-- `route === previousRoute`
abbrev pub same_route : Option Route → Route → Bool
same_route none route = false
same_route (some previous) route = elim (Route_discrete route previous) [
  | yes _ ↦ true
  | no _ ↦ false
]

-- `uncached >= Math.max(REBUILD_MIN_TOKENS, 0.5 * prompt)`
unfoldable pub is_large_miss : Request → Bool
is_large_miss r = leb 16_384 (uncached_of r) && leb (prompt_of r) (2 * uncached_of r)

-- `previousAt !== undefined && sameRoute`, then the size.
unfoldable pub is_rebuild : HostCacheLedger → Request → Bool
unfolding is_large_miss
is_rebuild l r = elim l.previous_at [
  | none ↦ false
  | some previous ↦ same_route l.previous_route r.route && is_large_miss r
]

abbrev pub is_over : Option ℕ → ℕ → Bool
is_over none gap = false
is_over (some lifetime) gap = ltb lifetime gap

unfoldable pub cause_of : HostCacheLedger → Request → RebuildCause
cause_of l r = elim l.pending_edit [
  | some kind ↦ continuity
  | none ↦
      let previous = or_else l.previous_at 0 in
      if is_over l.lifetime_ms (r.time - max previous (or_else l.warmed_at previous))
      then idle_expiry
      else foreign
]

abbrev pub edits_after :
    Option ContextEditKind → ℕ → (ContextEditKind → TokenTally) → ContextEditKind → TokenTally
edits_after none n tallies = tallies
edits_after (some kind) n tallies = add_kind kind n tallies

-- The tallies of a rebuild.
unfoldable pub tally_rebuild : HostCacheLedger → Request → LedgerSummary → LedgerSummary
unfolding is_rebuild cause_of
tally_rebuild l r s =
    if is_rebuild l r
    then record s {
      rebuilds = add_cause (cause_of l r) (uncached_of r) s.rebuilds;
      edits = edits_after l.pending_edit (uncached_of r) s.edits;
    }
    else s

unfoldable pub tally_request : Request → LedgerSummary → LedgerSummary
tally_request r s = record s {
  requests = s.requests + 1;
  input = s.input + r.input;
  cache_read = s.cache_read + r.cache_read;
  cache_write = s.cache_write + r.cache_write;
}

unfoldable pub tally_cost : Option UsageCost → Bool → LedgerSummary → LedgerSummary
tally_cost none rebuild s = s
tally_cost (some cost) rebuild s = elim cost.total [
  | none ↦ s
  | some total ↦ record s {
    cost_requests = s.cost_requests + 1;
    cost_total = s.cost_total + total;
    cost_rebuild_uncached =
        s.cost_rebuild_uncached + (if rebuild then cost.input + cost.cache_write else 0);
  }
]

abbrev pub text_or_empty : Option String → String
text_or_empty none = ""
text_or_empty (some text) = text

abbrev pub streak_or_new : Option RouteStreak → Route → RouteStreak
streak_or_new (some streak) route = streak
streak_or_new none (provider, model) = record {
  provider = text_or_empty provider;
  model = text_or_empty model;
  requests = 0;
  uncached = 0;
  warned = false;
}

-- The streak after a request, and whether it has just been reported.
unfoldable pub next_streak : Request → RouteStreak → RouteStreak × Bool
next_streak r streak =
    if ltb 0 r.cache_read || (ltb 0 r.cache_write && leb (uncached_of r) (r.cache_write * 2))
    then (record streak { requests = 0; uncached = 0 }, false)
    else let reports = leb 3 (streak.requests + 1) && not streak.warned in
      (
        record streak {
          requests = streak.requests + 1;
          uncached = streak.uncached + uncached_of r;
          warned = streak.warned || reports;
        },
        reports,
      )

unfoldable pub row_of : RouteStreak → InactiveRoute
row_of streak = record {
  provider = streak.provider;
  model = streak.model;
  requests = streak.requests;
  uncached = streak.uncached;
}

-- `entry.provider && …`, where `documented` tells of a provider whether `getProviderCacheCaps`
-- has a level other than "none" and a read multiplier below 1.
abbrev pub watched : (String → Bool) → Option String → Bool
watched documented none = false
watched documented (some provider) = elim (String_discrete provider "") [
  | yes _ ↦ false
  | no _ ↦ documented provider
]

-- `writtenTierMs` after the request.
abbrev pub tier_after : Bool → Option ℕ → Option ℕ → Option ℕ
tier_after same old none = if same then old else none
tier_after same old (some tier) = some (max (or_else (if same then old else none) 0) tier)

abbrev pub first_of : Option ℕ → Option ℕ → Option ℕ
first_of none n = n
first_of (some m) n = some m

-- `observe` past its early returns, for the usage that it has read.
unfoldable pub record_request :
    (String → Bool)
    → Usage
    → Option ModelPromptCache
    → Request
    → HostCacheLedger
    → HostCacheLedger × LedgerEntry
unfolding tally_rebuild tally_request tally_cost next_streak row_of
record_request documented usage cache r l =
    let same = same_route l.previous_route r.route in
    let rebuild = is_rebuild l r in
    let looked = watched documented r.route.0 && leb 4_096 (prompt_of r) in
    let (streak, reports) =
      next_streak r (streak_or_new (lookup Route_discrete r.route l.route_streaks) r.route) in
    let tallied = tally_cost usage.cost rebuild (tally_request r (tally_rebuild l r l.summary)) in
    let tier = tier_after same l.written_tier_ms (cache_write_tier_ms usage cache) in
    let current = cache_lifetime_ms usage cache in
    (
      record {
        summary = record tallied {
          inactive_routes =
              if looked && reports
              then tallied.inactive_routes ++ row_of streak ∷ []
              else tallied.inactive_routes;
        };
        previous_at = some r.time;
        warmed_at = none;
        lifetime_ms = first_of tier (if same then first_of l.lifetime_ms current else current);
        written_tier_ms = tier;
        previous_route = some r.route;
        pending_edit = none;
        route_streaks =
            if looked then set Route_discrete l.route_streaks r.route streak else l.route_streaks;
      },
      record {
        at_ms = r.time;
        provider = r.route.0;
        model = r.route.1;
        prompt = prompt_of r;
        uncached = uncached_of r;
        cache_read = r.cache_read;
        gap_ms = elim l.previous_at [
          | none ↦ none
          | some previous ↦ if same then some (r.time - previous) else none
        ];
        rebuild = rebuild;
        cause = if rebuild then some (cause_of l r) else none;
        edit_kind = if rebuild then l.pending_edit else none;
        warn =
            rebuild
            && same_cause (cause_of l r) foreign
            && (l.summary.rebuilds foreign).count + 1 == 3;
        inactive = looked && reports;
      },
    )

-- `at ?? (typeof message.timestamp === "number" ? message.timestamp : Date.now())`
abbrev pub time_of : Option ℕ → Option ℕ → ℕ → ℕ
time_of (some time) timestamp now = time
time_of none timestamp now = or_else timestamp now

abbrev pub request_of : ObservedMessage → Usage → (input time : ℕ) → Request
request_of message usage input time = record {
  time = time;
  route = (message.provider, message.model);
  input = input;
  cache_read = usage.cache_read;
  cache_write = usage.cache_write;
}

-- A message with no usable usage, or one that measured nothing, is not recorded.
unfoldable pub observe :
    (String → Bool)
    → ObservedMessage
    → Option ℕ
    → Option ModelPromptCache
    → ℕ
    → HostCacheLedger
    → HostCacheLedger × Option LedgerEntry
unfolding record_request
observe documented message time cache now l = elim message.usage [
  | none ↦ (l, none)
  | some usage ↦ elim usage.input [
    | none ↦ (l, none)
    | some input ↦
        let r = request_of message usage input (time_of time message.timestamp now) in
        if leb (prompt_of r) 0
        then (l, none)
        else let (l', entry) = record_request documented usage cache r l in (l', some entry)
  ]
]
