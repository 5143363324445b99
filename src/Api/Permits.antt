-- ===== src/Api/Permits.antt =====
-- What a single request to the guarded routes may change.
use railbook.Base.{◌≡◌, refl, true, String, Option, ◌⊎◌, inl, inr, ℕ}
use railbook.Base.Outcome.{Error, Result, ok, err}
use railbook.Models.{User}
use railbook.Auth.{Bcrypt, Jwt}
use railbook.Ratelimit
use railbook.Ratelimit.{Verdict, pass, too_many, passes, Guard, run_guard}
use railbook.Redis.{Redis, Json}
use railbook.Redis.SortedSets.{Server}
use railbook.Routes.{create, pay, refund}
use railbook.System
use railbook.System.{World, Request, serve, run}
use railbook.Trains.{SeatAvailability}
use railbook.Api.{
  UserCall, post_booking, post_pay, post_refund, AccountCall, post_register, post_login,
  post_refresh, Call, by_user, by_client, Reply, limited, Backend, user_of, limit_for, behind,
  as_user, user_handler, account_handler, handle,
}

module _ (bcrypt : Bcrypt) (jwt : Jwt) (no_credentials : Error) (R : Redis)
    (json : Json SeatAvailability) (server : Server) where
  -- What a handler does to the database and the gateway, if it is one that may change them.
  abbrev pub user_request : UserCall → (user_id : ℕ) → Request
  user_request (post_booking schedule_id seat_id key env) user_id =
      System.create user_id schedule_id seat_id key env
  user_request (post_pay booking_id key draw hex env) user_id =
      System.pay booking_id user_id key draw hex env
  user_request (post_refund booking_id hex env) user_id = System.refund booking_id user_id hex env

  -- The change that a request may make: that of its own handler, for the user of its token, where the
  -- limit lets it through.
  abbrev pub Permits : Call jwt → Backend R server → Request → Type 0
  Permits (by_user token now c) b q =
      (user : User) × (user_of bcrypt jwt no_credentials token now b.world.db ≡ ok user)
      × (passes (run_guard server (limit_for c user.id) now b.limiter).0 ≡ true)
      × (q ≡ user_request c user.id)
  Permits (by_client client now (post_register email password full_name phone salt env)) b q =
      (passes (run_guard server (Ratelimit.auth client) now b.limiter).0 ≡ true)
      × (q ≡ System.register email password full_name phone salt env)
  Permits (by_client client now (post_login email password env)) b q = ⊥
  Permits (by_client client now (post_refresh token env)) b q = ⊥

  abbrev pub Effect : Call jwt → Backend R server → World → Type 0
  Effect c b w = (w ≡ b.world) ⊎ ((q : Request) × Permits c b q × (w ≡ serve bcrypt jwt q b.world))

  behind_keeps :
      (P : World → Type 0) (g : Guard) (now : ℕ)
      (handler : Backend R server → Reply jwt × Backend R server) (b : Backend R server)
      → P b.world
      → (passes (run_guard server g now b.limiter).0 ≡ true
          → (limiter : Option server.State) → P (handler (record b { limiter = limiter })).1.world)
      → P (behind bcrypt jwt no_credentials R json server g now handler b).1.world
  behind_keeps P g now handler b stopped through =
      go (run_guard server g now b.limiter).0 (run_guard server g now b.limiter).1 through
    where
      go :
          (v : Verdict) (limiter : Option server.State)
          → (passes v ≡ true
              → (limiter : Option server.State)
              → P (handler (record b { limiter = limiter })).1.world)
          → P
              (elim v as (λ _. Reply jwt × Backend R server) [
                | pass headers ↦ handler (record b { limiter = limiter })
                | too_many text headers ↦ (limited text headers, record b { limiter = limiter })
              ]).1.world
      go (pass headers) limiter h = h refl limiter
      go (too_many text headers) limiter h = stopped

  as_user_keeps :
      (P : World → Type 0) (result : Result User)
      (handler : User → Backend R server → Reply jwt × Backend R server) (b : Backend R server)
      → P b.world
      → ((user : User) → result ≡ ok user → P (handler user b).1.world)
      → P (as_user bcrypt jwt no_credentials R json server result handler b).1.world
  as_user_keeps P (err e) handler b stopped through = stopped
  as_user_keeps P (ok user) handler b stopped through = through user refl

  pub user_handler-request :
      (c : UserCall) (user_id : ℕ) (b : Backend R server)
      → (user_handler bcrypt jwt no_credentials R json server c user_id b).1.world
        ≡ serve bcrypt jwt (user_request c user_id) b.world
  unfolding user_handler create pay refund serve
  user_handler-request (post_booking schedule_id seat_id key env) user_id b = refl
  user_handler-request (post_pay booking_id key draw hex env) user_id b = refl
  user_handler-request (post_refund booking_id hex env) user_id b = refl

  account-Effect :
      (client : Option String) (now : ℕ) (c : AccountCall jwt) (b : Backend R server)
      (limiter : Option server.State)
      → passes (run_guard server (Ratelimit.auth client) now b.limiter).0 ≡ true
      → Effect
          (by_client client now c)
          b
          (account_handler bcrypt jwt no_credentials R json server c now
            (record b { limiter = limiter })).1.world
  unfolding account_handler serve
  account-Effect client now (post_register email password full_name phone salt env) b limiter
        passed =
      inr (System.register email password full_name phone salt env, (passed, refl), refl)
  account-Effect client now (post_login email password env) b limiter passed = inl refl
  account-Effect client now (post_refresh token env) b limiter passed = inl refl

  -- A request changes the database and the gateway as its handler does, for the user of its token and
  -- within the limit, or not at all.
  pub handle-Effect :
      (c : Call jwt) (b : Backend R server)
      → Effect c b (handle bcrypt jwt no_credentials R json server c b).1.world
  unfolding handle
  handle-Effect (by_user token now c) b =
      let P = Effect (by_user token now c) b in
      as_user_keeps P (user_of bcrypt jwt no_credentials token now b.world.db)
        (λ user.
          behind bcrypt jwt no_credentials R json server (limit_for c user.id) now
            (user_handler bcrypt jwt no_credentials R json server c user.id))
        b (inl refl)
        (λ user known.
          behind_keeps P (limit_for c user.id) now
            (user_handler bcrypt jwt no_credentials R json server c user.id) b (inl refl)
            (λ passed limiter. inr (
              user_request c user.id,
              (user, known, passed, refl),
              user_handler-request c user.id _,
            )))
  handle-Effect (by_client client now c) b =
      behind_keeps (Effect (by_client client now c) b) (Ratelimit.auth client) now
        (account_handler bcrypt jwt no_credentials R json server c now) b (inl refl)
        (λ passed limiter. account-Effect client now c b limiter passed)
