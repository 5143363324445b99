-- ===== src/Integrity/Refunds.antt =====
-- `refund_booking` keeps `IsValid`.
use railbook.Base.{ℕ, ◌+◌, ◌≡◌, refl, ap, Option, some, [], ◌∷◌, ◌++◌, arith, String}
use railbook.Base.Outcome.{ok}
use railbook.Base.Rows.{get_row, select, update_row}
use railbook.Base.Rows.Laws.{All-get, get_self}
use railbook.Models.{Status, Action, Booking, Payment, Db, Env, empty}
use railbook.Models.Constraints.{insert_audit, scalar_one_or_none}
use railbook.Audit.{log_audit}
use railbook.Payments.{RefundResult}
use railbook.Bookings.Refund.{
  is_charge_of, refundable, refund_payment, mark_refunded, refund_booking,
}
use railbook.Integrity.{RowIsValid, IsValid}
use railbook.Integrity.Attempts.{entry}
use railbook.Integrity.Changes.Updates.{Restamps, Settles, changed-IsValid}

abbrev pub refunded_db : Booking → ℕ → Env → Db → Db
refunded_db booking user_id env db = record db {
  bookings = update_row (λ b. b.id) booking.id (mark_refunded (env.clock 1)) db.bookings;
  audit_trail =
      db.audit_trail
      ++ entry booking user_id Action.refunded Status.confirmed Status.refunded empty env db ∷ [];
  audit_seq = db.audit_seq + 1;
}

-- What a refund that is answered has done.
pub record Refunded (booking_id user_id : ℕ) (hex : String) (env : Env) (db : Db)
    (r : Booking × Option RefundResult × Db) : Type 0 where
  pub booking : Booking
  pub payment : Option Payment
  pub found : get_row (λ b. b.id) booking_id db.bookings ≡ some booking
  pub owner : booking.user_id ≡ user_id
  pub is_confirmed : booking.status ≡ Status.confirmed
  pub charge : scalar_one_or_none (select (is_charge_of booking.id) db.payments) ≡ ok payment
  pub result : r ≡ (
    mark_refunded (env.clock 1) booking,
    refund_payment payment hex,
    refunded_db booking user_id env db,
  )

pub refund_booking-Refunded :
    (booking_id user_id : ℕ) (hex : String) (env : Env) (db : Db)
    {r : Booking × Option RefundResult × Db}
    → refund_booking booking_id user_id hex env db ≡ ok r
    → Refunded booking_id user_id hex env db r
unfolding refund_booking refundable log_audit insert_audit
refund_booking-Refunded booking_id user_id hex env db h = ground arith

-- A refund that is answered leaves the tables valid.
pub refund_booking-IsValid :
    (booking_id user_id : ℕ) (hex : String) (env : Env) (db : Db)
    {r : Booking × Option RefundResult × Db}
    → IsValid db
    → refund_booking booking_id user_id hex env db ≡ ok r
    → IsValid r.2
refund_booking-IsValid booking_id user_id hex env db {r} v h =
    rw (ap (λ (z : Booking × Option RefundResult × Db). z.2) c.result) (
      changed-IsValid db c.booking.id _ _ c.booking Status.refunded db.payments v found refunds
        settled refl (ground (arith, c.is_confirmed)))
  where
    c : Refunded booking_id user_id hex env db r
    c = refund_booking-Refunded booking_id user_id hex env db h

    found : get_row (λ x. x.id) c.booking.id db.bookings ≡ some c.booking
    found = get_self (λ (x : Booking). x.id) booking_id db.bookings c.found

    row : RowIsValid db.payments db.audit_trail c.booking
    row = All-get (λ x. x.id) c.booking.id _ db.bookings v.rows found

    refunds : Restamps (mark_refunded (env.clock 1)) c.booking.status Status.refunded
    refunds = record {
      id = λ x. refl;
      user_id = λ x. refl;
      schedule_id = λ x. refl;
      seat_id = λ x. refl;
      idempotency_key = λ x. refl;
      total_amount = λ x. refl;
      status = λ x. refl;
      stamp = λ x h. ground (arith, c.is_confirmed);
      narrows = λ h. refl;
    }

    settled : Settles db c.booking.id Status.refunded db.payments
    settled = record {
      others = λ j ne. (refl, refl);
      charged = ground (arith, row.charged, c.is_confirmed);
      attempted = ground (arith, row.attempted, c.is_confirmed);
      paid = v.paid;
      distinct = v.payments_distinct;
    }
