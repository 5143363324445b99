-- ===== src/Api/Limits.antt =====
-- How many requests of one client the handlers get in a window.
use railbook.Base.{
  ℕ, ◌+◌, ◌≤◌, ◌<◌, ◌≡◌, refl, ap, ◌∙◌, String, Bool, true, false, ◌&&◌, Option, none, some, List,
  [], ◌∷◌, arith, if◌then◌else◌,
}
use railbook.Base.Outcome.{Error, Result, ok, err}
use railbook.Models.{User}
use railbook.Auth.{Bcrypt, Jwt}
use railbook.Ratelimit
use railbook.Ratelimit.{Verdict, pass, too_many, passes, Guard, run_guard, run_guards}
use railbook.Ratelimit.Limits.{guard_key, limit_of, Increasing}
use railbook.Ratelimit.Bounds.{in_window, passed_in, passed_in_window_bounded}
use railbook.Redis.{Key, Redis, Json}
use railbook.Redis.SortedSets.{nothing, Server, IsUp}
use railbook.System.{World}
use railbook.Trains.{SeatAvailability}
use railbook.Api.{
  UserCall, post_booking, post_pay, post_refund, AccountCall, post_register, post_login,
  post_refresh, Call, by_user, by_client, Reply, handled, signed_in, limited, Backend, user_of,
  limit_for, behind, user_handler, account_handler, handle,
}

-- Whether the handler has run.
abbrev pub is_handled : {jwt : Jwt} → Reply jwt → Bool
is_handled (handled _) = true
is_handled (signed_in _) = true
is_handled _ = false

abbrev pub time_of : {jwt : Jwt} → Call jwt → ℕ
time_of (by_user token now c) = now
time_of (by_client client now c) = now

-- The requests come at increasing times.
abbrev pub InOrder : {jwt : Jwt} → ℕ → List (Call jwt) → Type 0
InOrder last [] = Unit
InOrder last (c ∷ cs) = (last < time_of c) × InOrder (time_of c) cs

Increasing-later :
    (from to : ℕ) (requests : List (Guard × ℕ))
    → from ≤ to
    → Increasing to requests
    → Increasing from requests
Increasing-later from to [] h inc = tt
Increasing-later from to ((g, now) ∷ rest) h inc = (omega (arith, h, inc.0), inc.1)

module _ (bcrypt : Bcrypt) (jwt : Jwt) (no_credentials : Error) (R : Redis)
    (json : Json SeatAvailability) (server : Server) where
  abbrev guard_for : UserCall → (now : ℕ) → Result User → Option (Guard × ℕ)
  guard_for c now (ok user) = some (limit_for c user.id, now)
  guard_for c now (err _) = none

  -- The attempt that a request is for its limit: without a user there is none.
  abbrev pub attempt_of : Call jwt → Backend R server → Option (Guard × ℕ)
  attempt_of (by_user token now c) b =
      guard_for c now (user_of bcrypt jwt no_credentials token now b.world.db)
  attempt_of (by_client client now c) b = some (Ratelimit.auth client, now)

  abbrev pub is_attempt_in : (a : ℕ) (k : Key) → Option (Guard × ℕ) → Bool
  is_attempt_in a k none = false
  is_attempt_in a k (some (g, now)) = in_window a k (guard_key g, now)

  -- How many requests of client `k` in the window that starts at `a` have come to their handlers.
  abbrev pub handled_in : (a : ℕ) (k : Key) → List (Call jwt) → Backend R server → ℕ
  handled_in a k [] b = 0
  handled_in a k (c ∷ cs) b =
      let (reply, b') = handle bcrypt jwt no_credentials R json server c b in
      (if is_attempt_in a k (attempt_of c b) && is_handled reply then 1 else 0)
      + handled_in a k cs b'

  abbrev with_attempt : Option (Guard × ℕ) → List (Guard × ℕ) → List (Guard × ℕ)
  with_attempt none rest = rest
  with_attempt (some x) rest = x ∷ rest

  abbrev attempts : List (Call jwt) → Backend R server → List (Guard × ℕ)
  attempts [] b = []
  attempts (c ∷ cs) b =
      with_attempt (attempt_of c b)
        (attempts cs (handle bcrypt jwt no_credentials R json server c b).1)

  -- A handler that always runs to a reply, and does not touch the limits.
  record Handles (handler : Backend R server → Reply jwt × Backend R server) : Type 0 where
    replies : (b : Backend R server) → is_handled (handler b).0 ≡ true
    keeps : (b : Backend R server) → (handler b).1.limiter ≡ b.limiter

  user_handler-Handles :
      (c : UserCall) (user_id : ℕ)
      → Handles (user_handler bcrypt jwt no_credentials R json server c user_id)
  unfolding user_handler
  user_handler-Handles (post_booking schedule_id seat_id key env) user_id = record {
    replies = λ b. refl;
    keeps = λ b. refl;
  }
  user_handler-Handles (post_pay booking_id key draw hex env) user_id = record {
    replies = λ b. refl;
    keeps = λ b. refl;
  }
  user_handler-Handles (post_refund booking_id hex env) user_id = record {
    replies = λ b. refl;
    keeps = λ b. refl;
  }

  account_handler-Handles :
      (c : AccountCall jwt) (now : ℕ)
      → Handles (account_handler bcrypt jwt no_credentials R json server c now)
  unfolding account_handler
  account_handler-Handles (post_register email password full_name phone salt env) now = record {
    replies = λ b. refl;
    keeps = λ b. refl;
  }
  account_handler-Handles (post_login email password env) now = record {
    replies = λ b. refl;
    keeps = λ b. refl;
  }
  account_handler-Handles (post_refresh token env) now = record {
    replies = λ b. refl;
    keeps = λ b. refl;
  }

  -- Behind a limit, the handler runs where the guard passes, and the limiter is the guard's.
  behind_lem :
      (g : Guard) (now : ℕ) (handler : Backend R server → Reply jwt × Backend R server)
      (b : Backend R server)
      → Handles handler
      → let result = behind bcrypt jwt no_credentials R json server g now handler b in
        let guarded = run_guard server g now b.limiter in
        (is_handled result.0 ≡ passes guarded.0) × (result.1.limiter ≡ guarded.1)
  behind_lem g now handler b h =
      go (run_guard server g now b.limiter).0 (run_guard server g now b.limiter).1
    where
      go :
          (v : Verdict) (limiter : Option server.State)
          → let result : Reply jwt × Backend R server = elim v [
            | pass headers ↦ handler (record b { limiter = limiter })
            | too_many text headers ↦ (limited text headers, record b { limiter = limiter })
          ] in
            (is_handled result.0 ≡ passes v) × (result.1.limiter ≡ limiter)
      go (pass headers) limiter = (h.replies _, h.keeps _)
      go (too_many text headers) limiter = (refl, refl)

  module _ (a : ℕ) (k : Key) where
    abbrev passed_of : List (Guard × ℕ) → Option server.State → ℕ
    passed_of requests limiter = passed_in a k requests (run_guards server requests limiter).0

    abbrev Agrees : List (Call jwt) → Backend R server → Type 0
    Agrees cs b = handled_in a k cs b ≡ passed_of (attempts cs b) b.limiter

    user-Agrees :
        (token : Option jwt.Token) (now : ℕ) (c : UserCall) (cs : List (Call jwt))
        (b : Backend R server)
        → ((b' : Backend R server) → Agrees cs b')
        → Agrees (by_user token now c ∷ cs) b
    unfolding run_guards handle
    user-Agrees token now c cs b rest =
        go (user_of bcrypt jwt no_credentials token now b.world.db) refl
      where
        go :
            (user : Result User)
            → user_of bcrypt jwt no_credentials token now b.world.db ≡ user
            → Agrees (by_user token now c ∷ cs) b
        go (err e) h =
            let none_more : 0 + handled_in a k cs b ≡ handled_in a k cs b = omega arith in
            rw h (none_more ∙ rest b)
        go (ok user) h =
            let handler = user_handler bcrypt jwt no_credentials R json server c user.id in
            let f =
              behind_lem (limit_for c user.id) now handler b (user_handler-Handles c user.id) in
            let b' =
              (behind bcrypt jwt no_credentials R json server (limit_for c user.id) now handler
                b).1 in
            ground (arith, h, f.0, ap (passed_of (attempts cs b')) f.1, rest b')

    account-Agrees :
        (client : Option String) (now : ℕ) (c : AccountCall jwt) (cs : List (Call jwt))
        (b : Backend R server)
        → ((b' : Backend R server) → Agrees cs b')
        → Agrees (by_client client now c ∷ cs) b
    unfolding run_guards handle
    account-Agrees client now c cs b rest =
        let handler = account_handler bcrypt jwt no_credentials R json server c now in
        let f = behind_lem (Ratelimit.auth client) now handler b (account_handler-Handles c now) in
        let b' =
          (behind bcrypt jwt no_credentials R json server (Ratelimit.auth client) now handler
            b).1 in
        ground (arith, f.0, ap (passed_of (attempts cs b')) f.1, rest b')

    handled-passed : (cs : List (Call jwt)) (b : Backend R server) → Agrees cs b
    unfolding run_guards
    handled-passed [] b = refl
    handled-passed (by_user token now c ∷ cs) b = user-Agrees token now c cs b (handled-passed cs)
    handled-passed (by_client client now c ∷ cs) b =
        account-Agrees client now c cs b (handled-passed cs)

  with_attempt-Increasing :
      (last now : ℕ) (c : UserCall) (user : Result User) (rest : List (Guard × ℕ))
      → last < now
      → Increasing now rest
      → Increasing last (with_attempt (guard_for c now user) rest)
  with_attempt-Increasing last now c (ok user) rest later inc = (later, inc)
  with_attempt-Increasing last now c (err e) rest later inc =
      Increasing-later last now rest (omega (arith, later)) inc

  attempts-Increasing :
      (last : ℕ) (cs : List (Call jwt)) (b : Backend R server)
      → InOrder last cs
      → Increasing last (attempts cs b)
  attempts-Increasing last [] b h = tt
  attempts-Increasing last (by_client client now c ∷ cs) b h =
      (h.0, attempts-Increasing now cs _ h.1)
  attempts-Increasing last (by_user token now c ∷ cs) b h =
      with_attempt-Increasing last now c (user_of bcrypt jwt no_credentials token now b.world.db) _
        h.0 (attempts-Increasing now cs _ h.1)

  -- Over any sequence of requests to the guarded routes at increasing times, with a Redis that answers
  -- and holds no attempts at first, no more requests of one client that fall into one window come to
  -- their handlers than its limit: five bookings and three payments or refunds of a user in 60 seconds,
  -- ten account requests of an address in 300, wherever the window starts, whatever the tokens, and
  -- whatever the handlers do.
  pub handled_in_window_bounded :
      (cs : List (Call jwt)) (w : World) (cache : R.State) (s : server.State) (a : ℕ) (k : Key)
      → IsUp server
      → ((j : Key) → server.view j s ≡ nothing)
      → InOrder 0 cs
      → handled_in a k cs (record { world = w; cache = cache; limiter = some s }) ≤ limit_of k
  handled_in_window_bounded cs w cache s a k up empty inc =
      let b : Backend R server = record { world = w; cache = cache; limiter = some s } in
      rw (handled-passed a k cs b) (
        passed_in_window_bounded server up (attempts cs b) s a k empty
          (attempts-Increasing 0 cs b inc))
