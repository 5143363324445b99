-- ===== src/Tests/Payments.antt =====
-- The theorems on payments and refunds, at concrete inputs.
use railbook.Base.{◌+◌, ◌≡◌, ◌≢◌, refl, ap, some, [], ◌∷◌, ◌⊎◌, ◌==◌}
use railbook.Base.Outcome.{Result, ok, err}
use railbook.Base.Rows.{select}
use railbook.Models.{Status, Booking, Payment, Db, hours}
use railbook.Models.Constraints.{insert_booking, insert_audit}
use railbook.Audit.{log_audit}
use railbook.Payments
use railbook.Payments.{PaymentResult, MockPaymentGateway, payment_gateway, accepted, charge}
use railbook.Payments.Gateway.{Charge, charges_after, charge_one, charge_once}
use railbook.Bookings.Create.{
  new_booking, seat_price, remove_old, add_reserved, reserve_seat, create_booking,
}
use railbook.Bookings.Pay.{wrong_status, payable, prepare, pay_booking}
use railbook.Bookings.Refund.{mark_refunded, refundable, refund_booking}
use railbook.Integrity.{IsValid}
use railbook.Integrity.Creates.{reserved_db, create_booking-IsValid}
use railbook.Integrity.Attempts.{Prepared}
use railbook.Integrity.PayCases.{gateway_cases}
use railbook.Integrity.Refunds.{refunded_db}
use railbook.Guarantees.Retries.{pay_booking_again, reused_key_is_foreign}
use railbook.Guarantees.Attempts.{pay_booking-outcome}
use railbook.Guarantees.Refunds.{PaidBy, refund_booking_succeeds, refund_booking_again}
use railbook.Tests.Data.{schedule, env_at, reservation, booked, paid, pays, paid-IsValid}

pay_booking-outcome_example :
    pay_booking 100 1 600 7 "0badcafe" (env_at 2 200) booked payment_gateway
    ≡ (ok paid, record payment_gateway { processed = (600, accepted "0badcafe") ∷ [] })
pay_booking-outcome_example =
    pay_booking-outcome 100 1 600 7 "0badcafe" (env_at 2 200) booked payment_gateway reservation
      refl refl refl refl refl refl refl refl

gateway_cases_example :
    ((pay_booking 100 2 600 7 "0badcafe" (env_at 2 200) booked payment_gateway).1 ≡ payment_gateway)
    ⊎ ((booking : Booking) × (before : Db) × Prepared 100 2 600
          (env_at 2 200)
          booked
          booking
          before)
gateway_cases_example = gateway_cases 100 2 600 7 "0badcafe" (env_at 2 200) booked payment_gateway

pay_booking_again_example :
    pay_booking 100 1 600 9 "1badcafe" (env_at 4 300) paid.1 payment_gateway
    ≡ (err (wrong_status Status.confirmed "reserved"), payment_gateway)
pay_booking_again_example =
    pay_booking_again 100 1 600 7 "0badcafe" (env_at 2 200) booked payment_gateway paid 600 9
      "1badcafe" (env_at 4 300) payment_gateway
      (ap (λ (z : Result (Booking × Db) × MockPaymentGateway). z.0) pays) (λ e. cc)

abbrev refunded : Db
refunded = refunded_db paid.0 1 (env_at 6 400) paid.1

-- The departure is exactly an hour away.
refund_booking_succeeds_example :
    (p : Payment) × PaidBy paid.0 paid.1 p
    × (refund_booking 100 1 "0badcafe" (env_at (hours 99) 400) paid.1
        ≡ ok (
          mark_refunded (hours 99 + 1) paid.0,
          some (Payments.refund p.gateway_ref "0badcafe"),
          refunded_db paid.0 1 (env_at (hours 99) 400) paid.1,
        ))
refund_booking_succeeds_example =
    refund_booking_succeeds 100 1 "0badcafe" (env_at (hours 99) 400) paid.1 paid.0
      (schedule 10 100 105) paid-IsValid refl refl refl refl refl refl

refund_booking_again_example :
    refund_booking 100 1 "0badcafe" (env_at 8 500) refunded
    ≡ err (wrong_status Status.refunded "confirmed")
unfolding refund_booking refundable log_audit insert_audit
refund_booking_again_example =
    refund_booking_again 100 1 "0badcafe" (env_at 6 400) paid.1
      (mark_refunded 7 paid.0, some (Payments.refund (some "MOCK-0badcafe") "0badcafe"), refunded)
      "0badcafe" (env_at 8 500) refl

-- A second reservation, for which the key of the first payment is used again.
abbrev second : Booking × Db
second =
    let b = new_booking 1 11 31 501 150000 (env_at 4 101) in
    (b, reserved_db b (env_at 4 101) paid.1)

second-IsValid : IsValid second.1
unfolding create_booking reserve_seat seat_price remove_old add_reserved insert_booking log_audit
    insert_audit
second-IsValid =
    create_booking-IsValid 1 11 31 501 (env_at 4 101) paid.1 {r = second} paid-IsValid refl

reused_key_is_foreign_example :
    (second.0.status ≡ Status.reserved)
    × ((p : Payment) × (select (λ x. x.idempotency_key == 600) second.1.payments ≡ p ∷ [])
        × (p.booking_id ≢ 101))
unfolding prepare payable
reused_key_is_foreign_example =
    reused_key_is_foreign 101 1 600 (env_at 5 300) second.1 second.0 second-IsValid refl

abbrev first_charge : Charge
first_charge = record { amount = 150000; key = 600; draw = 7; hex = "0badcafe" }

charge_once_example :
    let later =
      charges_after
        (record first_charge { key = 601 } ∷ [])
        (charge_one first_charge payment_gateway).1 in
    charge_one (record first_charge { draw = 0; hex = "ffffffff" }) later
    ≡ ((charge_one first_charge payment_gateway).0, later)
charge_once_example =
    charge_once first_charge payment_gateway (record first_charge { key = 601 } ∷ [])
      (record first_charge { draw = 0; hex = "ffffffff" }) refl
