-- ===== src/Routes/Reached.antt =====
-- The routes in the states that sequences of requests reach.
use railbook.Base.{ℕ, ◌≡◌, refl, String, Bool, Option, List, [], ◌∷◌, subst}
use railbook.Base.Outcome.{Result, ok, err, ok-injective, await-eq-ok}
use railbook.Models.{Booking, Db, Env}
use railbook.Bookings.Create.{create_booking}
use railbook.Bookings.Pay.{pay_booking}
use railbook.Bookings.Refund.{refund_booking}
use railbook.Bookings.Cleanup.{expired_rows, release, release_all, committed, cleanup_pass}
use railbook.Redis.{Redis, Json}
use railbook.Trains.{SeatAvailability}
use railbook.Auth.{Bcrypt, Jwt, TokenResponse, register}
use railbook.Auth.Accounts.{register-Registered}
use railbook.Seed.Runs.{seed_database-refers}
use railbook.Integrity.{IsValid, TimetableIsValid}
use railbook.Integrity.Cleanups.{release-eq-ok}
use railbook.System
use railbook.System.{World, Request, commit_or, without_answer, seeded_or, serve, run}
use railbook.System.Validity.{serve-IsValid, run-IsValid}
use railbook.Routes.{create, pay, refund}
use railbook.Routes.Answers.{Answers, Knows, create-Knows, pay-Knows, refund-Knows, routes_answer}

commit_or-Timetable :
    (result : Result (Booking × Db)) (db : Db)
    → TimetableIsValid db
    → Knows result
    → TimetableIsValid (commit_or result db)
commit_or-Timetable (ok (b, db')) db t k = k.0
commit_or-Timetable (err e) db t k = t

seed_commit-Timetable :
    (result : Result Db) (db : Db)
    → TimetableIsValid db
    → ((db' : Db) → result ≡ ok db' → TimetableIsValid db')
    → TimetableIsValid (seeded_or result db)
seed_commit-Timetable (ok db') db t h = h db' refl
seed_commit-Timetable (err e) db t h = t

release_all-Timetable :
    (now : ℕ) (bs : List Booking) (db : Db) {db' : Db}
    → TimetableIsValid db
    → release_all now bs db ≡ ok db'
    → TimetableIsValid db'
unfolding release_all
release_all-Timetable now [] db t h = subst TimetableIsValid (ok-injective h) t
release_all-Timetable now (b ∷ bs) db t h =
    let (db₁, rest, first) = await-eq-ok (release_all now bs) (release now b db) h in
    release_all-Timetable now bs db₁
      (rw (release-eq-ok now b db first)
        (record { trains = t.trains; compartments = t.compartments; schedules = t.schedules }))
      rest

cleanup_pass-Timetable :
    (now : ℕ) (locked : ℕ → Bool) (db : Db)
    → TimetableIsValid db
    → TimetableIsValid (cleanup_pass now locked db)
unfolding cleanup_pass
cleanup_pass-Timetable now locked db t = go (release_all now (expired_rows now locked db) db) refl
  where
    go :
        (r : Result Db)
        → release_all now (expired_rows now locked db) db ≡ r
        → TimetableIsValid (committed r db)
    go (ok db') e = release_all-Timetable now (expired_rows now locked db) db t e
    go (err e) _ = t

module _ (bcrypt : Bcrypt) (jwt : Jwt) where
  register-Timetable :
      (email password full_name : String) (phone : Option String) (salt : ℕ) (env : Env) (db : Db)
      (result : Result (TokenResponse jwt × Db))
      → register bcrypt jwt email password full_name phone salt env db ≡ result
      → TimetableIsValid db
      → TimetableIsValid (commit_or result db)
  register-Timetable email password full_name phone salt env db (ok r) h t =
      let c = register-Registered bcrypt jwt email password full_name phone salt env db h in
      rw c.result
        (record { trains = t.trains; compartments = t.compartments; schedules = t.schedules })
  register-Timetable email password full_name phone salt env db (err e) h t = t

  serve-Timetable :
      (q : Request) (w : World)
      → IsValid w.db
      → TimetableIsValid w.db
      → TimetableIsValid (serve bcrypt jwt q w).db
  unfolding serve
  serve-Timetable (System.start ids salts now tx_time) w v t =
      seed_commit-Timetable _ w.db t
        (λ db' h. seed_database-refers bcrypt ids salts now tx_time w.db t h)
  serve-Timetable (System.create u s k key env) w v t =
      commit_or-Timetable _ w.db t (create-Knows w.db v t u s k key env _ refl)
  serve-Timetable (System.pay b u key draw hex env) w v t =
      commit_or-Timetable _ w.db t (pay-Knows w.db v t b u hex env key draw w.gateway _ refl)
  serve-Timetable (System.refund b u hex env) w v t =
      commit_or-Timetable _ w.db t (refund-Knows w.db v t b u hex env _ refl)
  serve-Timetable (System.register email password full_name phone salt env) w v t =
      register-Timetable email password full_name phone salt env w.db _ refl t
  serve-Timetable (System.configure config) w v t = t
  serve-Timetable (System.cleanup now locked) w v t = cleanup_pass-Timetable now locked w.db t

  pub run-Timetable :
      (qs : List Request) (w : World)
      → IsValid w.db
      → TimetableIsValid w.db
      → TimetableIsValid (run bcrypt jwt qs w).db
  unfolding run
  run-Timetable [] w v t = t
  run-Timetable (q ∷ qs) w v t =
      run-Timetable qs (serve bcrypt jwt q w) (serve-IsValid bcrypt jwt q w v)
        (serve-Timetable q w v t)

  module _ (R : Redis) (json : Json SeatAvailability) where
    -- From valid tables with a valid timetable, after any sequence of starts, bookings, payments,
    -- refunds, registrations, changes of the gateway's settings and cleanup passes, a route answers
    -- with the details of the booking that its service returns wherever the service answers, and
    -- with the service's error wherever the service raises: looking up the details never raises
    -- after a commit.
    pub run-routes_answer :
        (qs : List Request) (w : World) (schedule_id seat_id booking_id user_id key draw : ℕ)
        (hex : String) (env : Env) (cache : R.State)
        → IsValid w.db
        → TimetableIsValid w.db
        → let w' = run bcrypt jwt qs w in
          Answers
            (create_booking user_id schedule_id seat_id key env w'.db)
            (create R json user_id schedule_id seat_id key env w'.db cache).answer
          × Answers
              (pay_booking booking_id user_id key draw hex env w'.db w'.gateway).0
              (pay R json booking_id user_id key draw hex env w'.db w'.gateway cache).0.answer
          × Answers
              (without_answer (refund_booking booking_id user_id hex env w'.db))
              (refund R json booking_id user_id hex env w'.db cache).answer
    run-routes_answer qs w schedule_id seat_id booking_id user_id key draw hex env cache v t =
        let w' = run bcrypt jwt qs w in
        routes_answer R json schedule_id seat_id booking_id user_id key draw hex env w'.db
          w'.gateway cache (run-IsValid bcrypt jwt qs w v) (run-Timetable qs w v t)
