-- ===== src/Bookings/Refund.antt =====
-- `refund_booking` of backend/app/bookings/service.py, up to the commit.
use railbook.Base.{ℕ, ◌+◌, String, Bool, not, ◌&&◌, Option, none, some, ◌==◌, ltb}
use railbook.Base.Outcome.{
  Error, Result, ok, http, attribute_error, ◌>>=◌, ◌>>◌, raise_if, or_raise,
}
use railbook.Base.Rows.{get_row, select}
use railbook.Models.{Action, Status, same_status, is_success, Payment, Booking, Db, Env, hours}
use railbook.Models.Constraints.{scalar_one_or_none, update_booking}
use railbook.Audit.{log_audit}
use railbook.Payments
use railbook.Payments.{RefundResult}
use railbook.Bookings.{get_schedule}
use railbook.Bookings.Pay.{booking_not_found, not_your_booking, wrong_status}

abbrev pub too_late : Error
too_late = http 400 "Cannot refund within 1 hour of departure"

-- The booking that the guards of `refund_booking` let through.
unfoldable pub refundable : (booking_id user_id now : ℕ) → Db → Result Booking
refundable booking_id user_id now db = do
  booking ← or_raise (get_row (λ b. b.id) booking_id db.bookings) booking_not_found
  raise_if (not (booking.user_id == user_id)) not_your_booking
  raise_if (not (same_status booking.status Status.confirmed))
      (wrong_status booking.status "confirmed")
  schedule ← or_raise (get_schedule booking.schedule_id db) attribute_error
  raise_if (ltb schedule.departure_time (now + hours 1)) too_late
  ok booking

-- The successful payments of a booking.
abbrev pub is_charge_of : ℕ → Payment → Bool
is_charge_of k p = (p.booking_id == k) && is_success p.status

-- `if payment: await payment_gateway.refund(payment.gateway_ref)`
abbrev pub refund_payment : Option Payment → String → Option RefundResult
refund_payment none hex = none
refund_payment (some payment) hex = some (Payments.refund payment.gateway_ref hex)

abbrev pub mark_refunded : ℕ → Booking → Booking
mark_refunded now b = record b { status = Status.refunded; cancelled_at = some now }

-- Besides the booking, the answer of the gateway, which the handler does not look at.
unfoldable pub refund_booking :
    (booking_id user_id : ℕ) (hex : String) → Env → Db → Result (Booking × Option RefundResult × Db)
refund_booking booking_id user_id hex env db = do
  booking ← refundable booking_id user_id (env.clock 0) db
  payment ← scalar_one_or_none (select (is_charge_of booking.id) db.payments)
  db₁ ←
      log_audit booking.id user_id Action.refunded (some Status.confirmed) Status.refunded none
        env.ip_address env.tx_time (update_booking booking.id (mark_refunded (env.clock 1)) db)
  ok (mark_refunded (env.clock 1) booking, refund_payment payment hex, db₁)
