-- ===== src/Tests/Bookings.antt =====
-- The theorems on reservations and on whole runs, at concrete inputs.
use railbook.Base.{arith, ◌≡◌, refl, false, none, some, map, List, [], ◌∷◌}
use railbook.Base.Outcome.{ok, err, integrity_error, multiple_results}
use railbook.Models.{hours}
use railbook.Models.Constraints.{insert_booking, insert_payment, insert_audit}
use railbook.Audit.{log_audit}
use railbook.Payments.{charge}
use railbook.Payments.Settings.{infinity}
use railbook.Bookings.Create.{
  new_booking, seat_price, remove_old, add_reserved, reserve_seat, create_booking,
}
use railbook.Bookings.Pay.{payable, settle_success, prepare, finish, pay_booking}
use railbook.Bookings.Cleanup.{release, release_all, cleanup_pass}
use railbook.Integrity.{IsValid}
use railbook.Integrity.Creates.{Reservation, reserved_db}
use railbook.Integrity.Cleanups.Exact.{expire_row, cleanup_pass-eq-map}
use railbook.System.{World, Request, start, register, configure, create, pay, cleanup, serve, run}
use railbook.System.Validity.{run-IsValid}
use railbook.Guarantees.Reservations.{
  create_booking-Reservation, create_booking_succeeds, rebooking_refused, two_overlaps_raise,
}
use railbook.Guarantees.Retries.{create_booking_again}
use railbook.Tests.Crypto.{bcrypt, jwt}
use railbook.Tests.Data.{railway, railway-IsValid, opening, schedule, env_at}

abbrev day : List Request
day =
    create 1 10 30 500 (env_at 0 100)
    ∷ create 1 11 31 501 (env_at 1 101)
    ∷ pay 100 1 600 7 "0badcafe" (env_at 2 200)
    ∷ cleanup (hours 1) (λ _. false)
    ∷ []

-- With a start, an account and a gateway that declines first.
abbrev whole_day : List Request
whole_day =
    start (λ i. i) (λ i. i) 0 0
    ∷ register "new@example.com" "secret" "New" none 0 (env_at 0 3)
    ∷ configure (record { failure_rate = some infinity; latency_ms = none })
    ∷ pay 100 1 601 7 "0badcafe" (env_at 2 200)
    ∷ day

run-IsValid_example : IsValid (run bcrypt jwt whole_day opening).db
run-IsValid_example = run-IsValid bcrypt jwt whole_day opening railway-IsValid

create_booking-Reservation_example : Reservation 1 10 30 500 (env_at 0 100) railway (
  new_booking 1 10 30 500 150000 (env_at 0 100),
  reserved_db (new_booking 1 10 30 500 150000 (env_at 0 100)) (env_at 0 100) railway,
)
unfolding create_booking reserve_seat seat_price remove_old add_reserved insert_booking log_audit
    insert_audit
create_booking-Reservation_example =
    create_booking-Reservation 1 10 30 500 (env_at 0 100) railway railway-IsValid refl refl

create_booking_succeeds_example :
    create_booking 1 10 30 500 (env_at 0 100) railway
    ≡ ok (
      new_booking 1 10 30 500 150000 (env_at 0 100),
      reserved_db (new_booking 1 10 30 500 150000 (env_at 0 100)) (env_at 0 100) railway,
    )
unfolding seat_price
create_booking_succeeds_example =
    create_booking_succeeds 1 10 30 500 (env_at 0 100) railway (schedule 10 100 105) 150000 refl
      refl refl refl refl refl refl

-- The booking of seat 31 has expired and was cancelled.
rebooking_refused_example :
    create_booking 2 11 31 502 (env_at (hours 2) 300) (run bcrypt jwt day opening).db
    ≡ err integrity_error
unfolding run serve create_booking reserve_seat seat_price remove_old add_reserved insert_booking
    log_audit insert_audit pay_booking prepare payable finish charge settle_success insert_payment
    cleanup_pass release_all release
rebooking_refused_example =
    rebooking_refused 2 11 31 502 (env_at (hours 2) 300) (run bcrypt jwt day opening).db
      (schedule 11 124 129) 150000 _ (run-IsValid bcrypt jwt day opening railway-IsValid) refl refl
      refl refl refl refl

abbrev two_days : World
two_days =
    run bcrypt jwt (create 1 10 30 500 (env_at 0 100) ∷ create 1 11 31 501 (env_at 1 101) ∷ [])
      opening

two_overlaps_raise_example :
    create_booking 1 12 32 502 (env_at 2 102) two_days.db ≡ err multiple_results
unfolding run serve create_booking reserve_seat seat_price remove_old add_reserved insert_booking
    log_audit insert_audit
two_overlaps_raise_example =
    two_overlaps_raise 1 12 32 502 (env_at 2 102) two_days.db (schedule 12 102 126)
      (new_booking 1 10 30 500 150000 (env_at 0 100))
      (new_booking 1 11 31 501 150000 (env_at 1 101))
      (run-IsValid bcrypt jwt
        (create 1 10 30 500 (env_at 0 100) ∷ create 1 11 31 501 (env_at 1 101) ∷ []) opening
        railway-IsValid)
      refl refl refl refl (λ same. absurd (omega arith)) refl refl

create_booking_again_example :
    create_booking 2 11 31 500
      (env_at 9 109)
      (reserved_db (new_booking 1 10 30 500 150000 (env_at 0 100)) (env_at 0 100) railway)
    ≡ ok (
      new_booking 1 10 30 500 150000 (env_at 0 100),
      reserved_db (new_booking 1 10 30 500 150000 (env_at 0 100)) (env_at 0 100) railway,
    )
unfolding create_booking reserve_seat seat_price remove_old add_reserved insert_booking log_audit
    insert_audit
create_booking_again_example =
    create_booking_again 1 10 30 500 (env_at 0 100) railway
      (
        new_booking 1 10 30 500 150000 (env_at 0 100),
        reserved_db (new_booking 1 10 30 500 150000 (env_at 0 100)) (env_at 0 100) railway,
      )
      2 11 31 (env_at 9 109) railway-IsValid refl

cleanup_pass-eq-map_example :
    ((cleanup_pass (hours 1) (λ _. false) two_days.db).bookings
      ≡ map (expire_row (hours 1) (λ _. false)) two_days.db.bookings)
    × ((cleanup_pass (hours 1) (λ _. false) two_days.db).payments ≡ two_days.db.payments)
unfolding run serve create_booking reserve_seat seat_price remove_old add_reserved insert_booking
    log_audit insert_audit
cleanup_pass-eq-map_example =
    cleanup_pass-eq-map (hours 1) (λ _. false) two_days.db
      (run-IsValid bcrypt jwt
        (create 1 10 30 500 (env_at 0 100) ∷ create 1 11 31 501 (env_at 1 101) ∷ []) opening
        railway-IsValid)
      refl
