-- ===== src/Loadgen/Booked.antt =====
-- Requests that the guards let through.
use railbook.Base.{ℕ, ◌≡◌, refl, true, Option, some}
use railbook.Base.Outcome.{Error, ok}
use railbook.Base.Rows.{has_row}
use railbook.Base.Rows.Keys.{has_row_of_select}
use railbook.Models.{User, Db, Env}
use railbook.Auth.{Bcrypt, Jwt}
use railbook.Bookings.Create.{create_booking}
use railbook.Auth.Tokens.{get_current_user-row}
use railbook.Ratelimit
use railbook.Ratelimit.{Verdict, pass, too_many, passes, Guard, run_guard}
use railbook.Redis.{Redis, Json}
use railbook.Redis.SortedSets
use railbook.Routes.{create}
use railbook.System.{commit_or}
use railbook.Trains.{SeatAvailability}
use railbook.Api.{
  post_booking, by_user, Reply, limited, Backend, user_of, behind, user_handler, handle,
}

module _ (bcrypt : Bcrypt) (jwt : Jwt) (no_credentials : Error) (R : Redis)
    (json : Json SeatAvailability) (server : SortedSets.Server) where
  pub behind-passes :
      (g : Guard) (now : ℕ) (handler : Backend R server → Reply jwt × Backend R server)
      (b : Backend R server)
      → passes (run_guard server g now b.limiter).0 ≡ true
      → behind bcrypt jwt no_credentials R json server g now handler b
        ≡ handler (record b { limiter = (run_guard server g now b.limiter).1 })
  behind-passes g now handler b through =
      go (run_guard server g now b.limiter).0 (run_guard server g now b.limiter).1 through
    where
      go :
          (v : Verdict) (limiter : Option server.State)
          → passes v ≡ true
          → elim v as (λ _. Reply jwt × Backend R server) [
            | pass headers ↦ handler (record b { limiter = limiter })
            | too_many text headers ↦ (limited text headers, record b { limiter = limiter })
          ]
            ≡ handler (record b { limiter = limiter })
      go (pass headers) limiter h = refl
      go (too_many text headers) limiter h = cc

  -- The user of a token has a row.
  pub user_of-known :
      (token : jwt.Token) (now : ℕ) (db : Db) (user : User)
      → user_of bcrypt jwt no_credentials (some token) now db ≡ ok user
      → has_row (λ u. u.id) user.id db.users ≡ true
  unfolding user_of
  user_of-known token now db user h =
      let (k, one) = get_current_user-row jwt db token now user h in
      has_row_of_select (λ u. u.id) k db.users one

  -- What a booking request that is let through does to the tables.
  pub post_booking-world :
      (k seat_id key : ℕ) (env : Env) (now : ℕ) (token : jwt.Token) (user : User)
      (b : Backend R server)
      → user_of bcrypt jwt no_credentials (some token) now b.world.db ≡ ok user
      → passes (run_guard server (Ratelimit.booking user.id) now b.limiter).0 ≡ true
      → (handle bcrypt jwt no_credentials R json server
          (by_user (some token) now (post_booking k seat_id key env))
          b).1.world
        ≡ record b.world {
          db = commit_or (create_booking user.id k seat_id key env b.world.db) b.world.db;
        }
  unfolding handle user_handler create
  post_booking-world k seat_id key env now token user b signed through =
      rw
        (
          signed,
          behind-passes (Ratelimit.booking user.id) now
              (user_handler bcrypt jwt no_credentials R json server (post_booking k seat_id key env)
                user.id)
              b through,
        )
        refl
