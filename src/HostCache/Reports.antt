-- ===== src/HostCache/Reports.antt =====
-- Which requests are reported: as a rebuild of the cache, or as the end of an all-miss streak.
use pi_smart_compact.Base.{
  ℕ, ◌+◌, ◌*◌, ◌≤◌, ◌<◌, ◌≡◌, ◌≢◌, ◌↔◌, inl, inr, String, Bool, true, false, ◌&&◌, Option, none,
  some, arith, leb, lookup, Bool-cases, Option-cases,
}
use pi_smart_compact.OrderedMap.Laws.{lookup-set}
use pi_smart_compact.HostCache.{
  continuity, idle_expiry, Route, Route_discrete, Usage, ModelPromptCache, RouteStreak,
  HostCacheLedger, or_else,
}
use pi_smart_compact.HostCache.Observe.{
  Request, prompt_of, uncached_of, same_route, is_rebuild, cause_of, streak_or_new, next_streak,
  watched, record_request,
}

module _ (documented : String → Bool) (usage : Usage) (cache : Option ModelPromptCache)
    (r : Request) (l : HostCacheLedger) where
  -- A request is called a rebuild exactly if one came before it, the one before took the same
  -- route, and it billed at least 16384 tokens and half of its prompt without the cache.
  pub record-rebuild_iff : ((record_request documented usage cache r l).1.rebuild ≡ true) ↔ (
      (l.previous_at ≢ none)
      × (same_route l.previous_route r.route ≡ true)
      × (16_384 ≤ uncached_of r)
      × (prompt_of r ≤ 2 * uncached_of r))
  unfolding record_request is_rebuild
  record-rebuild_iff = elim (Option-cases l.previous_at) [
    | inl e ↦ (λ h. ground arith, λ h. ground arith)
    | inr (t, e) ↦ (λ h. ground arith, λ h. ground arith)
  ]

  -- A rebuild is laid to an edit exactly if one was noted since the last request; to expiry only
  -- where the time since the last request is over the known lifetime.
  pub record-cause_cases :
      (record_request documented usage cache r l).1.rebuild ≡ true
      → (((record_request documented usage cache r l).1.cause ≡ some continuity)
          ↔ (l.pending_edit ≢ none))
        × ((record_request documented usage cache r l).1.cause ≡ some idle_expiry
            → (lifetime : ℕ) × (l.lifetime_ms ≡ some lifetime)
              × (or_else l.previous_at 0 + lifetime < r.time))
  unfolding record_request cause_of
  record-cause_cases h = elim (Option-cases l.pending_edit) [
    | inr (k, e) ↦ ((λ p q. ground arith, λ p. ground arith), λ p. absurd (ground arith))
    | inl e ↦ ((λ p. absurd (ground arith), λ p. absurd (p e)), λ p. ground arith)
  ]

-- A streak on the route has been reported.
abbrev pub IsReported : HostCacheLedger → Route → Type 0
IsReported l route =
    (streak : RouteStreak) × (lookup Route_discrete route l.route_streaks ≡ some streak)
    × (streak.warned ≡ true)

module _ (documented : String → Bool) (usage : Usage) (cache : Option ModelPromptCache)
    (r : Request) (l : HostCacheLedger) where
  next_streak-warned :
      (streak : RouteStreak)
      → (streak.warned ≡ true)
      → ((next_streak r streak).0.warned ≡ true) × ((next_streak r streak).1 ≡ false)
  unfolding next_streak
  next_streak-warned streak h = ground arith

  next_streak-reports :
      (streak : RouteStreak)
      → (next_streak r streak).1 ≡ true
      → (next_streak r streak).0.warned ≡ true
  unfolding next_streak
  next_streak-reports streak h = ground arith

  old_streak : RouteStreak
  old_streak = streak_or_new (lookup Route_discrete r.route l.route_streaks) r.route

  abbrev is_looked : Bool
  is_looked = watched documented r.route.0 && leb 4_096 (prompt_of r)

  marks_stay :
      (route : Route)
      → IsReported l route
      → IsReported (record_request documented usage cache r l).0 route
  unfolding record_request old_streak
  marks_stay route (streak, found, warned) =
      let next = (next_streak r old_streak).0 in
      let stored = lookup-set Route_discrete l.route_streaks route r.route next in
      elim (Bool-cases is_looked) [
        | inr quiet ↦ (streak, ground arith, warned)
        | inl looked ↦ elim (Route_discrete route r.route) [
          | no p ↦ (streak, ground (arith, stored), warned)
          | yes p ↦
              let same : old_streak ≡ streak = ground arith in
              (next, ground (arith, stored), (next_streak-warned old_streak (rw same warned)).0)
        ]
      ]

  -- An inactive route is reported once: the request that reports it marks the route, no request
  -- unmarks one, and a request on a marked route reports nothing.
  pub record-inactive_once :
      ((record_request documented usage cache r l).1.inactive ≡ true
        → IsReported (record_request documented usage cache r l).0 r.route)
      × ((route : Route)
          → IsReported l route
          → IsReported (record_request documented usage cache r l).0 route)
      × (IsReported l r.route → (record_request documented usage cache r l).1.inactive ≡ false)
  unfolding record_request old_streak
  record-inactive_once =
      let next = next_streak r old_streak in
      (
        λ h. (
          next.0,
          ground (arith, lookup-set Route_discrete l.route_streaks r.route r.route next.0),
          next_streak-reports old_streak (ground arith),
        ),
        marks_stay,
        λ (streak, found, warned).
            let same : old_streak ≡ streak = ground arith in
            let silent = (next_streak-warned old_streak (rw same warned)).1 in ground arith,
      )
