-- ===== src/System.antt =====
-- The backend as a whole: the database and the gateway, and whatever changes them, one after
-- another. A handler that answers has committed; one that raises leaves the database alone.
pub mod Validity
use railbook.Base.{ℕ, String, Bool, Option, List, [], ◌∷◌}
use railbook.Base.Outcome.{Result, ok, err}
use railbook.Models.{Booking, Db, Env}
use railbook.Payments.{RefundResult, MockPaymentGateway}
use railbook.Bookings.Create.{create_booking}
use railbook.Bookings.Pay.{pay_booking}
use railbook.Bookings.Refund.{refund_booking}
use railbook.Bookings.Cleanup.{cleanup_pass}
use railbook.Auth
use railbook.Auth.{Bcrypt, Jwt}
use railbook.Payments.Settings.{ConfigUpdate, update_config}
use railbook.Seed.{seed_database}

pub record World : Type 0 where
  pub db : Db
  pub gateway : MockPaymentGateway

-- The start of the backend, which seeds the tables; `create`, `pay` and `refund` of
-- backend/app/bookings/router.py, each with the id of the user who is signed in; `register` of
-- backend/app/auth/router.py; `update_config` of backend/app/demo/router.py; and a pass of the
-- cleanup task.
pub data Request : Type 0 where
  start : (ids salts : ℕ → ℕ) (now tx_time : ℕ) → Request
  create : (user_id schedule_id seat_id idempotency_key : ℕ) → Env → Request
  pay : (booking_id user_id idempotency_key draw : ℕ) → String → Env → Request
  refund : (booking_id user_id : ℕ) → String → Env → Request
  register : (email password full_name : String) → Option String → (salt : ℕ) → Env → Request
  configure : ConfigUpdate → Request
  cleanup : (now : ℕ) → (ℕ → Bool) → Request

-- The database after the session of a request has ended.
abbrev pub commit_or {ℓ} : {A : Type ℓ} → Result (A × Db) → Db → Db
commit_or (ok (_, db')) db = db'
commit_or (err _) db = db

abbrev pub without_answer {ℓ} : {A : Type ℓ} → Result (Booking × A × Db) → Result (Booking × Db)
without_answer (ok (b, _, db')) = ok (b, db')
without_answer (err e) = err e

abbrev pub seeded_or : Result Db → Db → Db
seeded_or (ok db') db = db'
seeded_or (err _) db = db

module _ (bcrypt : Bcrypt) (jwt : Jwt) where
  unfoldable pub serve : Request → World → World
  serve (start ids salts now tx_time) w = record w {
    db = seeded_or (seed_database bcrypt ids salts now tx_time w.db) w.db;
  }
  serve (create user_id schedule_id seat_id idempotency_key env) w = record w {
    db = commit_or (create_booking user_id schedule_id seat_id idempotency_key env w.db) w.db;
  }
  serve (pay booking_id user_id idempotency_key draw hex env) w =
      let (r, g) = pay_booking booking_id user_id idempotency_key draw hex env w.db w.gateway in
      record { db = commit_or r w.db; gateway = g }
  serve (refund booking_id user_id hex env) w = record w {
    db = commit_or (without_answer (refund_booking booking_id user_id hex env w.db)) w.db;
  }
  serve (register email password full_name phone salt env) w = record w {
    db = commit_or (Auth.register bcrypt jwt email password full_name phone salt env w.db) w.db;
  }
  serve (configure config) w = record w { gateway = (update_config config w.gateway).1 }
  serve (cleanup now locked) w = record w { db = cleanup_pass now locked w.db }

  unfoldable pub run : List Request → World → World
  unfolding serve
  run [] w = w
  run (r ∷ rs) w = run rs (serve r w)
