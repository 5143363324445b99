-- ===== src/System/Validity.antt =====
-- Every sequence of requests keeps the tables valid.
use railbook.Base.{◌≡◌, refl, Option, List, [], ◌∷◌}
use railbook.Base.Outcome.{Result, ok, err}
use railbook.Models.{Booking, Db}
use railbook.Payments.{RefundResult}
use railbook.Integrity.{IsValid}
use railbook.Integrity.Creates.{create_booking-IsValid}
use railbook.Integrity.Pays.{pay_booking-IsValid}
use railbook.Integrity.Refunds.{refund_booking-IsValid}
use railbook.Integrity.Cleanups.{cleanup_pass-IsValid}
use railbook.Auth.{Bcrypt, Jwt}
use railbook.Auth.Accounts.{register-IsValid}
use railbook.Seed.Runs.{seed_database_keeps}
use railbook.System.{
  World, Request, start, create, pay, refund, register, configure, cleanup, commit_or,
  without_answer, seeded_or, serve, run,
}

-- A transaction that keeps the tables valid where it answers keeps them so in any case.
commit_or-IsValid {ℓ} :
    {A : Type ℓ} (r : Result (A × Db)) (db : Db)
    → IsValid db
    → ((x : A × Db) → r ≡ ok x → IsValid x.1)
    → IsValid (commit_or r db)
commit_or-IsValid (ok (b, db')) db v h = h (b, db') refl
commit_or-IsValid (err e) db v h = v

refund_commit-IsValid :
    (r : Result (Booking × Option RefundResult × Db)) (db : Db)
    → IsValid db
    → ((x : Booking × Option RefundResult × Db) → r ≡ ok x → IsValid x.2)
    → IsValid (commit_or (without_answer r) db)
refund_commit-IsValid (ok x) db v h = h x refl
refund_commit-IsValid (err e) db v h = v

seed_commit-IsValid :
    (r : Result Db) (db : Db)
    → IsValid db
    → ((db' : Db) → r ≡ ok db' → IsValid db')
    → IsValid (seeded_or r db)
seed_commit-IsValid (ok db') db v h = h db' refl
seed_commit-IsValid (err e) db v h = v

module _ (bcrypt : Bcrypt) (jwt : Jwt) where
  pub serve-IsValid : (q : Request) (w : World) → IsValid w.db → IsValid (serve bcrypt jwt q w).db
  unfolding serve
  serve-IsValid (start ids salts now tx_time) w v =
      seed_commit-IsValid _ w.db v
        (λ db' h. seed_database_keeps bcrypt ids salts now tx_time w.db v h)
  serve-IsValid (create u s t k env) w v =
      commit_or-IsValid _ w.db v (λ x h. create_booking-IsValid u s t k env w.db v h)
  serve-IsValid (pay b u k draw hex env) w v =
      commit_or-IsValid _ w.db v (λ x h. pay_booking-IsValid b u k draw hex env w.db w.gateway v h)
  serve-IsValid (refund b u hex env) w v =
      refund_commit-IsValid _ w.db v (λ x h. refund_booking-IsValid b u hex env w.db v h)
  serve-IsValid (register email password full_name phone salt env) w v =
      commit_or-IsValid _ w.db v
        (λ x h. register-IsValid bcrypt jwt email password full_name phone salt env w.db v h)
  serve-IsValid (configure config) w v = v
  serve-IsValid (cleanup now locked) w v = cleanup_pass-IsValid now locked w.db v

  -- From valid tables, any sequence of starts, bookings, payments, refunds, registrations, changes of
  -- the gateway's settings and cleanup passes, by any users, at any times and with any outcomes at the
  -- gateway, ends in valid tables.
  pub run-IsValid :
      (qs : List Request) (w : World) → IsValid w.db → IsValid (run bcrypt jwt qs w).db
  unfolding run
  run-IsValid [] w v = v
  run-IsValid (q ∷ qs) w v = run-IsValid qs (serve bcrypt jwt q w) (serve-IsValid q w v)
