-- ===== src/Loadgen/Checks.antt =====
-- The integrity checker after a run of the load test.
use railbook.Base.{ℕ, ◌≡◌, refl, String, Bool, true, Option, arith}
use railbook.Base.Outcome.{Result, ok, err}
use railbook.Base.Rows.{has_row}
use railbook.Base.Rows.Laws.{has_row-append}
use railbook.Models.{User, Booking, Db, Env}
use railbook.Bookings.Cleanup.{system_user_id, cleanup_pass}
use railbook.Integrity.{IsValid}
use railbook.Routes.Users.{create_booking-users, pay_booking-users, cleanup_pass-users}
use railbook.Auth.{Bcrypt, Jwt, TokenResponse, new_user, register}
use railbook.Auth.Accounts.{register-Registered}
use railbook.System
use railbook.System.{World, Request, commit_or, serve}
use railbook.System.Validity.{serve-IsValid}

-- The row of the system user.
abbrev pub HasSystem : Db → Type 0
HasSystem db = has_row (λ (u : User). u.id) system_user_id db.users ≡ true

commit_or-HasSystem :
    (result : Result (Booking × Db)) (db : Db)
    → HasSystem db
    → ((r : Booking × Db) → result ≡ ok r → r.1.users ≡ db.users)
    → HasSystem (commit_or result db)
commit_or-HasSystem (ok r) db h same = rw (same r refl) h
commit_or-HasSystem (err e) db h same = h

pub cleanup_pass-HasSystem :
    (now : ℕ) (locked : ℕ → Bool) (db : Db) → HasSystem db → HasSystem (cleanup_pass now locked db)
cleanup_pass-HasSystem now locked db h = rw (cleanup_pass-users now locked db) h

module _ (bcrypt : Bcrypt) (jwt : Jwt) where
  register-HasSystem :
      (email password full_name : String) (phone : Option String) (salt : ℕ) (env : Env) (db : Db)
      (result : Result (TokenResponse jwt × Db))
      → register bcrypt jwt email password full_name phone salt env db ≡ result
      → HasSystem db
      → HasSystem (commit_or result db)
  register-HasSystem email password full_name phone salt env db (ok r) h system =
      let c = register-Registered bcrypt jwt email password full_name phone salt env db h in
      rw c.result (
        ground (
          arith,
          system,
          has_row-append (λ (u : User). u.id) system_user_id db.users
              (new_user email c.hash full_name phone env),
        ))
  register-HasSystem email password full_name phone salt env db (err e) h system = system

  -- What the tasks and the cleanup may rely on between two requests.
  abbrev pub Sound : World → Type 0
  Sound w = IsValid w.db × HasSystem w.db

  pub create-Sound :
      (user_id schedule_id seat_id key : ℕ) (env : Env) (w : World)
      → Sound w
      → Sound (serve bcrypt jwt (System.create user_id schedule_id seat_id key env) w)
  unfolding serve
  create-Sound user_id schedule_id seat_id key env w h = (
    serve-IsValid bcrypt jwt (System.create user_id schedule_id seat_id key env) w h.0,
    commit_or-HasSystem _ w.db h.1
        (λ r e. create_booking-users user_id schedule_id seat_id key env w.db r h.0 e),
  )

  pub pay-Sound :
      (booking_id user_id key draw : ℕ) (hex : String) (env : Env) (w : World)
      → Sound w
      → Sound (serve bcrypt jwt (System.pay booking_id user_id key draw hex env) w)
  unfolding serve
  pay-Sound booking_id user_id key draw hex env w h = (
    serve-IsValid bcrypt jwt (System.pay booking_id user_id key draw hex env) w h.0,
    commit_or-HasSystem _ w.db h.1
        (λ r e. pay_booking-users booking_id user_id key draw hex env w.db w.gateway r e),
  )

  pub register-Sound :
      (email password full_name : String) (phone : Option String) (salt : ℕ) (env : Env) (w : World)
      → Sound w
      → Sound (serve bcrypt jwt (System.register email password full_name phone salt env) w)
  unfolding serve
  register-Sound email password full_name phone salt env w h = (
    serve-IsValid bcrypt jwt (System.register email password full_name phone salt env) w h.0,
    register-HasSystem email password full_name phone salt env w.db _ refl h.1,
  )
