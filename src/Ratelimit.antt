-- ===== src/Ratelimit.antt =====
-- backend/app/ratelimit: `RateLimiter.check` of limiter.py and the three guards of dependencies.py.
-- A time is in microseconds, on one clock for the backend and for Redis.
pub mod Windows
pub mod Tracking
pub mod Limits
pub mod Bounds
use railbook.Base.{
  ℕ, ◌-◌, String, Bool, true, false, Option, none, some, List, [], ◌∷◌, leb, ltb, if◌then◌else◌,
}
use railbook.Models.{seconds}
use railbook.Redis.{Key, rl_booking, rl_payment, rl_auth}
use railbook.Redis.SortedSets.{Command, zremrangebyscore, zadd, zcard, expire, Server}

pub record RateLimitResult : Type 0 where
  pub allowed : Bool
  pub remaining : ℕ
  pub retry_after : ℕ

-- `now - window_seconds`, where it is not negative.
abbrev pub window_start : (now window_seconds : ℕ) → Option ℕ
window_start now window_seconds =
    if leb (seconds window_seconds) now then some (now - seconds window_seconds) else none

abbrev pub pipe : Key → (window_seconds now : ℕ) → List Command
pipe key window_seconds now =
    zremrangebyscore key 0 (window_start now window_seconds)
    ∷ zadd key now
    ∷ zcard key
    ∷ expire key window_seconds
    ∷ []

abbrev pub allow : (remaining : ℕ) → RateLimitResult
allow remaining = record { allowed = true; remaining = remaining; retry_after = 0 }

abbrev pub of_count : (limit window_seconds count : ℕ) → RateLimitResult
of_count limit window_seconds count =
    if ltb limit count
    then record { allowed = false; remaining = 0; retry_after = window_seconds }
    else allow (limit - count)

-- What is made of the replies: `_, _, count, _ = …`, or the `except` clause.
abbrev pub of_replies : (limit window_seconds : ℕ) → Option (List ℕ) → RateLimitResult
of_replies limit window_seconds (some (removed ∷ added ∷ count ∷ expiry ∷ [])) =
    of_count limit window_seconds count
of_replies limit window_seconds _ = allow limit

-- The headers on the response.
pub record LimitHeaders : Type 0 where
  pub limit : ℕ
  pub remaining : ℕ
  pub reset : ℕ
  pub retry_after : Option ℕ

-- How a guard ends: it lets the request pass, with headers unless there is no limiter, or it raises
-- a 429 with its detail and its headers, if it has any.
pub data Verdict : Type 0 where
  pass : Option LimitHeaders → Verdict
  too_many : String → Option LimitHeaders → Verdict

abbrev pub passes : Verdict → Bool
passes (pass _) = true
passes (too_many _ _) = false

abbrev pub limit_headers : (limit reset : ℕ) → RateLimitResult → LimitHeaders
limit_headers limit reset result = record {
  limit = limit;
  remaining = result.remaining;
  reset = reset;
  retry_after = none;
}

abbrev pub refusal_headers : (limit reset : ℕ) → RateLimitResult → LimitHeaders
refusal_headers limit reset result = record {
  limit = limit;
  remaining = 0;
  reset = reset;
  retry_after = some result.retry_after;
}

-- `request.client.host if request.client else "unknown"`
abbrev pub host_or_unknown : Option String → String
host_or_unknown none = "unknown"
host_or_unknown (some host) = host

module _ (r : Server) where
  unfoldable pub check : Key → (limit window_seconds now : ℕ) → r.State → RateLimitResult × r.State
  check key limit window_seconds now s =
      let (replies, s') = r.execute now (pipe key window_seconds now) s in
      (of_replies limit window_seconds replies, s')

  -- `none` is a limiter that could not be made.
  abbrev pub guarded :
      Key
      → (limit window_seconds : ℕ) (refuse : RateLimitResult → Verdict) (now : ℕ) → Option r.State
      → Verdict × Option r.State
  guarded key limit window_seconds refuse now none = (pass none, none)
  guarded key limit window_seconds refuse now (some s) =
      let (result, s') = check key limit window_seconds now s in
      (
        if result.allowed
            then pass (some (limit_headers limit window_seconds result))
            else refuse result,
        some s',
      )

  unfoldable pub rate_limit_booking : (user_id now : ℕ) → Option r.State → Verdict × Option r.State
  unfolding check
  rate_limit_booking user_id now limiter =
      guarded (rl_booking user_id) 5 60
        (λ result. too_many "Too many booking requests" (some (refusal_headers 5 60 result))) now
        limiter

  unfoldable pub rate_limit_payment : (user_id now : ℕ) → Option r.State → Verdict × Option r.State
  unfolding check
  rate_limit_payment user_id now limiter =
      guarded (rl_payment user_id) 3 60
        (λ result. too_many "Too many payment requests" (some (refusal_headers 3 60 result))) now
        limiter

  unfoldable pub rate_limit_auth :
      (client : Option String) (now : ℕ) → Option r.State → Verdict × Option r.State
  unfolding check
  rate_limit_auth client now limiter =
      guarded (rl_auth (host_or_unknown client)) 10 300
        (λ result. too_many "Too many auth requests" none) now limiter

-- The guards of the routes: a booking request and a payment request of a user, and a request for
-- an account from an address.
pub data Guard : Type 0 where
  booking payment : (user_id : ℕ) → Guard
  auth : (client : Option String) → Guard

unfoldable pub run_guard :
    (r : Server) → Guard → (now : ℕ) → Option r.State → Verdict × Option r.State
unfolding rate_limit_booking rate_limit_payment rate_limit_auth
run_guard r (booking user_id) now limiter = rate_limit_booking r user_id now limiter
run_guard r (payment user_id) now limiter = rate_limit_payment r user_id now limiter
run_guard r (auth client) now limiter = rate_limit_auth r client now limiter

-- Requests one after another, each with its time.
unfoldable pub run_guards :
    (r : Server) → List (Guard × ℕ) → Option r.State → List Verdict × Option r.State
unfolding run_guard
run_guards r [] limiter = ([], limiter)
run_guards r ((g, now) ∷ rest) limiter =
    let (v, limiter₁) = run_guard r g now limiter in
    let (vs, limiter₂) = run_guards r rest limiter₁ in (v ∷ vs, limiter₂)
