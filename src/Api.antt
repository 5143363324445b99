-- ===== src/Api.antt =====
-- The routes of backend/app/bookings/router.py and backend/app/auth/router.py that a rate limit
-- guards, with what FastAPI runs before the handler: first the user of the token, then the limit.
pub mod Permits
pub mod Effects
pub mod Limits
use railbook.Base.{ℕ, String, Option, none, some, List, [], ◌∷◌}
use railbook.Base.Outcome.{Error, Result, ok, err}
use railbook.Models.{User, Db, Env}
use railbook.Auth
use railbook.Auth.{Bcrypt, Jwt, TokenResponse, get_current_user}
use railbook.Bookings.Queries.{BookingResponse}
use railbook.Ratelimit.{Verdict, pass, too_many, LimitHeaders, Guard, run_guard}
use railbook.Ratelimit
use railbook.Redis.{Redis, Json}
use railbook.Redis.SortedSets.{Server}
use railbook.Routes
use railbook.Routes.{Served}
use railbook.System.{World, commit_or}
use railbook.Trains.{SeatAvailability}

-- The routes for a user who is signed in, and those for anybody.
pub data UserCall : Type 0 where
  post_booking : (schedule_id seat_id idempotency_key : ℕ) → Env → UserCall
  post_pay : (booking_id idempotency_key draw : ℕ) → String → Env → UserCall
  post_refund : (booking_id : ℕ) → String → Env → UserCall

pub data AccountCall (jwt : Jwt) : Type 0 where
  post_register :
      (email password full_name : String) → Option String → (salt : ℕ) → Env → AccountCall jwt
  post_login : (email password : String) → Env → AccountCall jwt
  post_refresh : jwt.Token → Env → AccountCall jwt

-- A request with its time. `token` is that of the `Authorization` header, if there is one, and
-- `client` the address.
pub data Call (jwt : Jwt) : Type 0 where
  by_user : (token : Option jwt.Token) (now : ℕ) → UserCall → Call jwt
  by_client : (client : Option String) (now : ℕ) → AccountCall jwt → Call jwt

-- `dependencies=[Depends(rate_limit_…)]` of a route.
abbrev pub limit_for : UserCall → (user_id : ℕ) → Guard
limit_for (post_booking _ _ _ _) user_id = Ratelimit.booking user_id
limit_for (post_pay _ _ _ _ _) user_id = Ratelimit.payment user_id
limit_for (post_refund _ _ _) user_id = Ratelimit.payment user_id

-- `handled` and `signed_in` are what the handler answers or raises; `refused` is the error of the
-- user's dependency, and `limited` the 429.
pub data Reply (jwt : Jwt) : Type 0 where
  handled : Result BookingResponse → Reply jwt
  signed_in : Result (TokenResponse jwt) → Reply jwt
  refused : Error → Reply jwt
  limited : String → Option LimitHeaders → Reply jwt

pub record Backend (R : Redis) (server : Server) : Type 0 where
  pub world : World
  pub cache : R.State
  pub limiter : Option server.State

-- `no_credentials` is what `HTTPBearer` raises without a header.
module _ (bcrypt : Bcrypt) (jwt : Jwt) (no_credentials : Error) where
  -- `Depends(get_current_user)`
  unfoldable pub user_of : Option jwt.Token → (now : ℕ) → Db → Result User
  user_of none now db = err no_credentials
  user_of (some token) now db = get_current_user jwt now token db

  module _ (R : Redis) (json : Json SeatAvailability) (server : Server) where
    -- `Depends(rate_limit_…)` before the handler.
    abbrev pub behind :
        Guard
        → (now : ℕ) (handler : Backend R server → Reply jwt × Backend R server) → Backend R server
        → Reply jwt × Backend R server
    behind g now handler b =
        let (verdict, limiter) = run_guard server g now b.limiter in
        let b' : Backend R server = record b { limiter = limiter } in
        elim verdict [
          | pass headers ↦ handler b'
          | too_many text headers ↦ (limited text headers, b')
        ]

    abbrev pub as_user :
        Result User
        → (User → Backend R server → Reply jwt × Backend R server)
        → Backend R server
        → Reply jwt × Backend R server
    as_user (err e) handler b = (refused e, b)
    as_user (ok user) handler b = handler user b

    abbrev pub after : Served R json → Backend R server → Reply jwt × Backend R server
    after s b =
        (handled s.answer, record b { world = record b.world { db = s.db }; cache = s.cache })

    abbrev pub tokens_in : Result (TokenResponse jwt × Db) → Result (TokenResponse jwt)
    tokens_in (ok (tokens, _)) = ok tokens
    tokens_in (err e) = err e

    unfoldable pub user_handler :
        UserCall → (user_id : ℕ) → Backend R server → Reply jwt × Backend R server
    user_handler (post_booking schedule_id seat_id key env) user_id b =
        after (Routes.create R json user_id schedule_id seat_id key env b.world.db b.cache) b
    user_handler (post_pay booking_id key draw hex env) user_id b =
        let (s, g) =
          Routes.pay R json booking_id user_id key draw hex env b.world.db b.world.gateway
            b.cache in
        after s (record b { world = record b.world { gateway = g } })
    user_handler (post_refund booking_id hex env) user_id b =
        after (Routes.refund R json booking_id user_id hex env b.world.db b.cache) b

    unfoldable pub account_handler :
        AccountCall jwt → (now : ℕ) → Backend R server → Reply jwt × Backend R server
    account_handler (post_register email password full_name phone salt env) now b =
        let result = Auth.register bcrypt jwt email password full_name phone salt env b.world.db in
        (
          signed_in (tokens_in result),
          record b { world = record b.world { db = commit_or result b.world.db } },
        )
    account_handler (post_login email password env) now b =
        (signed_in (Auth.login bcrypt jwt email password env b.world.db), b)
    account_handler (post_refresh token env) now b =
        (signed_in (Auth.refresh jwt token now env b.world.db), b)

    unfoldable pub handle : Call jwt → Backend R server → Reply jwt × Backend R server
    unfolding user_of user_handler account_handler
    handle (by_user token now c) b =
        as_user (user_of token now b.world.db)
          (λ user. behind (limit_for c user.id) now (user_handler c user.id)) b
    handle (by_client client now c) b = behind (Ratelimit.auth client) now (account_handler c now) b

    -- The replies to a sequence of requests, and the backend after them.
    unfoldable pub run_calls :
        List (Call jwt) → Backend R server → List (Reply jwt) × Backend R server
    unfolding handle
    run_calls [] b = ([], b)
    run_calls (c ∷ cs) b =
        let (reply, b₁) = handle c b in let (replies, b₂) = run_calls cs b₁ in (reply ∷ replies, b₂)
