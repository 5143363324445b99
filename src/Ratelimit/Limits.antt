-- ===== src/Ratelimit/Limits.antt =====
-- What the guards let through, over any sequence of requests.
use railbook.Base.{
  ℕ, ◌+◌, ◌-◌, ltb, ◌<◌, ◌≡◌, refl, none, some, List, [], ◌∷◌, arith, if◌then◌else◌,
}
use railbook.Models.{seconds}
use railbook.Redis.{Key, rl_booking, rl_payment, rl_auth}
use railbook.Redis.SortedSets.{nothing, Server, IsUp}
use railbook.Ratelimit.{
  RateLimitResult, LimitHeaders, Verdict, pass, too_many, limit_headers, refusal_headers,
  host_or_unknown, of_count, check, Guard, booking, payment, auth, rate_limit_booking,
  rate_limit_payment, rate_limit_auth, run_guard, run_guards,
}
use railbook.Ratelimit.Windows.{Log, count_at, Tracks}
use railbook.Ratelimit.Tracking.{result-log, Tracks-check}

abbrev pub guard_key : Guard → Key
guard_key (booking u) = rl_booking u
guard_key (payment u) = rl_payment u
guard_key (auth client) = rl_auth (host_or_unknown client)

abbrev pub limit_of : Key → ℕ
limit_of (rl_payment u) = 3
limit_of (rl_auth ip) = 10
limit_of _ = 5

abbrev pub window_of : Key → ℕ
window_of (rl_auth ip) = 300
window_of _ = 60

abbrev pub verdict_of : Guard → RateLimitResult → Verdict
verdict_of (booking u) result =
    if result.allowed
    then pass (some (limit_headers 5 60 result))
    else too_many "Too many booking requests" (some (refusal_headers 5 60 result))
verdict_of (payment u) result =
    if result.allowed
    then pass (some (limit_headers 3 60 result))
    else too_many "Too many payment requests" (some (refusal_headers 3 60 result))
verdict_of (auth client) result =
    if result.allowed
    then pass (some (limit_headers 10 300 result))
    else too_many "Too many auth requests" none

-- The headers of a request that passes.
abbrev pub headers_of : Guard → (remaining : ℕ) → LimitHeaders
headers_of g remaining = record {
  limit = limit_of (guard_key g);
  remaining = remaining;
  reset = window_of (guard_key g);
  retry_after = none;
}

-- The 429 of each guard, written out.
abbrev pub refusal : Guard → Verdict
refusal (booking u) =
    too_many "Too many booking requests"
      (some (record { limit = 5; remaining = 0; reset = 60; retry_after = some 60 }))
refusal (payment u) =
    too_many "Too many payment requests"
      (some (record { limit = 3; remaining = 0; reset = 60; retry_after = some 60 }))
refusal (auth client) = too_many "Too many auth requests" none

-- A request with this many earlier attempts of its client in the window passes where they are fewer
-- than the limit, and then it is one of those that remain.
abbrev pub judge_after : Guard → (earlier : ℕ) → Verdict
judge_after g earlier =
    let limit = limit_of (guard_key g) in
    if ltb earlier limit then pass (some (headers_of g (limit - 1 - earlier))) else refusal g

-- The sliding window log: a request is judged by the earlier attempts of the same client that are
-- younger than the window, refused ones included.
abbrev pub judge : Log → Guard → (now : ℕ) → Verdict
judge log g now = let k = guard_key g in judge_after g (count_at (seconds (window_of k)) k now log)

-- The code counts the request itself, and compares afterwards.
verdict_of-of_count :
    (g : Guard) (earlier : ℕ)
    → let k = guard_key g in
      verdict_of g (of_count (limit_of k) (window_of k) (earlier + 1)) ≡ judge_after g earlier
verdict_of-of_count (booking u) earlier = ground arith
verdict_of-of_count (payment u) earlier = ground arith
verdict_of-of_count (auth client) earlier = ground arith

unfoldable pub ideal : Log → List (Guard × ℕ) → List Verdict
ideal log [] = []
ideal log ((g, now) ∷ rest) = judge log g now ∷ ideal ((guard_key g, now) ∷ log) rest

abbrev pub Increasing : ℕ → List (Guard × ℕ) → Type 0
Increasing last [] = Unit
Increasing last ((g, now) ∷ rest) = (last < now) × Increasing now rest

module _ (r : Server) (up : IsUp r) where
  pub guard_lem :
      (g : Guard) (now : ℕ) (s : r.State)
      → let k = guard_key g in
        let result = check r k (limit_of k) (window_of k) now s in
        run_guard r g now (some s) ≡ (verdict_of g result.0, some result.1)
  unfolding run_guard rate_limit_booking rate_limit_payment rate_limit_auth
  guard_lem (booking u) now s = refl
  guard_lem (payment u) now s = refl
  guard_lem (auth client) now s = refl

  from_log :
      (log : Log) (last : ℕ) (s : r.State) (requests : List (Guard × ℕ))
      → Tracks r window_of log last s
      → Increasing last requests
      → (run_guards r requests (some s)).0 ≡ ideal log requests
  unfolding run_guards ideal
  from_log log last s [] t inc = refl
  from_log log last s ((g, now) ∷ rest) t inc = ground (
    arith,
    guard_lem g now s,
    result-log r up limit_of window_of log last now (guard_key g) s t inc.0,
    verdict_of-of_count g (count_at (seconds (window_of (guard_key g))) (guard_key g) now log),
    from_log ((guard_key g, now) ∷ log) now
        (check r (guard_key g) (limit_of (guard_key g)) (window_of (guard_key g)) now s).1 rest
        (Tracks-check r up limit_of window_of log last now (guard_key g) s t inc.0) inc.1,
  )

  pub no_attempts-Tracks :
      (s : r.State) → ((j : Key) → r.view j s ≡ nothing) → Tracks r window_of [] 0 s
  no_attempts-Tracks s empty = record {
    ends = λ j. rw (empty j) refl;
    past = λ j. rw (empty j) tt;
    counts = λ j t h. rw (empty j) refl;
  }

  pub run_guards_refines :
      (requests : List (Guard × ℕ)) (s : r.State)
      → ((j : Key) → r.view j s ≡ nothing)
      → Increasing 0 requests
      → (run_guards r requests (some s)).0 ≡ ideal [] requests
  run_guards_refines requests s empty inc =
      from_log [] 0 s requests (no_attempts-Tracks s empty) inc
