-- ===== src/Tests/Runs.antt =====
-- Runs by evaluation.
use railbook.Base.{◌≡◌, refl, false, map, List, [], ◌∷◌}
use railbook.Base.Outcome.{err}
use railbook.Models.{Status, hours}
use railbook.Models.Constraints.{insert_booking, insert_payment, insert_audit}
use railbook.Audit.{log_audit}
use railbook.Payments.{charge}
use railbook.Bookings.Create.{
  seat_price, remove_old, add_reserved, reserve_seat, create_booking, seat_taken,
}
use railbook.Bookings.Pay.{payable, settle_success, prepare, finish, pay_booking}
use railbook.Bookings.Refund.{refundable, refund_booking}
use railbook.Bookings.Cleanup.{release, release_all, cleanup_pass}
use railbook.System.{World, create, pay, refund, cleanup, serve, run}
use railbook.Tests.Crypto.{bcrypt, jwt}
use railbook.Tests.Data.{opening, env_at}

abbrev statuses : World → List Status
statuses w = map (λ b. b.status) w.db.bookings

-- Booked, paid and refunded; booked and left to expire.
life :
    statuses (
      run bcrypt jwt
        (create 1 10 30 500 (env_at 0 100)
          ∷ create 1 11 31 501 (env_at 1 101)
          ∷ pay 100 1 600 7 "0badcafe" (env_at 2 200)
          ∷ cleanup (hours 1) (λ _. false)
          ∷ refund 100 1 "0badcafe" (env_at (hours 2) 300)
          ∷ [])
        opening)
    ≡ Status.refunded ∷ Status.cancelled ∷ []
unfolding run serve create_booking reserve_seat seat_price remove_old add_reserved insert_booking
    log_audit insert_audit pay_booking prepare payable finish charge settle_success insert_payment
    refund_booking refundable cleanup_pass release_all release
life = refl

taken :
    create_booking 2 10 30 501
      (env_at 1 101)
      (run bcrypt jwt (create 1 10 30 500 (env_at 0 100) ∷ []) opening).db
    ≡ err seat_taken
unfolding run serve create_booking reserve_seat seat_price remove_old add_reserved insert_booking
    log_audit insert_audit
taken = refl
