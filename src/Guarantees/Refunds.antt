-- ===== src/Guarantees/Refunds.antt =====
-- `refund_booking`: what a refund comes to, and that there is one at most.
use railbook.Base.{ℕ, ◌+◌, ◌≡◌, refl, true, false, Option, some, [], ◌∷◌, arith, ltb, subst, String}
use railbook.Base.Outcome.{ok, err}
use railbook.Base.Rows.{count_rows, get_row, has_row, select, All}
use railbook.Base.Rows.Laws.{
  All-get, get_self, has_row-update, has_row_of_get, key_of_get, get_row-update_self,
}
use railbook.Base.Rows.Selects.{All-select, select_one_of_count}
use railbook.Models.{Status, Schedule, Booking, Payment, Db, Env, hours}
use railbook.Models.Constraints.{insert_audit}
use railbook.Audit.{log_audit}
use railbook.Payments
use railbook.Payments.{RefundResult}
use railbook.Bookings.{get_schedule}
use railbook.Bookings.Pay.{wrong_status}
use railbook.Bookings.Refund.{is_charge_of, mark_refunded, refundable, refund_booking}
use railbook.Integrity.{RowIsValid, PaymentIsValid, IsValid}
use railbook.Integrity.Refunds.{refunded_db, Refunded, refund_booking-Refunded}

-- A confirmed booking with its one successful payment.
pub record PaidBy (b : Booking) (db : Db) (p : Payment) : Type 0 where
  pub only : select (is_charge_of b.id) db.payments ≡ p ∷ []
  pub in_full : p.amount ≡ b.total_amount

-- In a valid database a confirmed booking has exactly one successful payment, over its amount.
pub confirmed-PaidBy :
    (booking_id : ℕ) (db : Db) (b : Booking)
    → IsValid db
    → get_row (λ x. x.id) booking_id db.bookings ≡ some b
    → b.status ≡ Status.confirmed
    → (p : Payment) × PaidBy b db p
confirmed-PaidBy booking_id db b v found is_confirmed =
    let (p, only) = select_one_of_count (is_charge_of b.id) db.payments one_charge in
    (
      p,
      record {
        only = only;
        in_full =
            amount p
              (subst (All (λ x. (is_charge_of b.id x ≡ true) × PaymentIsValid db.bookings x)) only
                (All-select (is_charge_of b.id) _ db.payments v.paid)).0;
      },
    )
  where
    row : RowIsValid db.payments db.audit_trail b
    row = All-get (λ x. x.id) booking_id _ db.bookings v.rows found

    one_charge : count_rows (is_charge_of b.id) db.payments ≡ 1
    one_charge = ground (arith, row.charged, is_confirmed)

    amount :
        (p : Payment)
        → (is_charge_of b.id p ≡ true) × PaymentIsValid db.bookings p
        → p.amount ≡ b.total_amount
    amount p h =
        ground
          (arith, get_self (λ (x : Booking). x.id) booking_id db.bookings {x = b} found, h.0, h.1)

module _ (booking_id user_id : ℕ) (hex : String) (env : Env) (db : Db) (b : Booking) (s : Schedule)
    (v : IsValid db) (found : get_row (λ x. x.id) booking_id db.bookings ≡ some b)
    (owner : b.user_id ≡ user_id) (is_confirmed : b.status ≡ Status.confirmed)
    (scheduled : get_schedule b.schedule_id db ≡ some s)
    (early : ltb s.departure_time (env.clock 0 + hours 1) ≡ false)
    (known : has_row (λ u. u.id) user_id db.users ≡ true) where
  -- In a valid database, a refund of a confirmed booking by its owner, with the departure an hour
  -- away or more, exactly an hour included, is answered: the gateway is asked to refund the one successful payment of the
  -- booking, which is over its whole amount, and the booking is refunded, with one audit entry more
  -- and nothing else changed.
  pub refund_booking_succeeds :
      (p : Payment) × PaidBy b db p
      × (refund_booking booking_id user_id hex env db
          ≡ ok (
            mark_refunded (env.clock 1) b,
            some (Payments.refund p.gateway_ref hex),
            refunded_db b user_id env db,
          ))
  unfolding refund_booking refundable log_audit insert_audit
  refund_booking_succeeds =
      let (p, paid) = confirmed-PaidBy booking_id db b v found is_confirmed in
      (p, paid, answer p paid.only)
    where
      answer :
          (p : Payment)
          → select (is_charge_of b.id) db.payments ≡ p ∷ []
          → refund_booking booking_id user_id hex env db
            ≡ ok (
              mark_refunded (env.clock 1) b,
              some (Payments.refund p.gateway_ref hex),
              refunded_db b user_id env db,
            )
      answer p only = ground (
        arith,
        has_row-update (λ (x : Booking). x.id) b.id (mark_refunded (env.clock 1)) (λ x. refl) b.id
            db.bookings,
        has_row_of_get (λ (x : Booking). x.id) booking_id db.bookings {x = b} found,
        key_of_get (λ (x : Booking). x.id) booking_id db.bookings {x = b} found,
      )

-- A booking is refunded once: after a refund that was answered, the same user's next one, at any
-- time, is a 400 that says so.
pub refund_booking_again :
    (booking_id user_id : ℕ) (hex : String) (env : Env) (db : Db)
    (r : Booking × Option RefundResult × Db) (hex' : String) (env' : Env)
    → refund_booking booking_id user_id hex env db ≡ ok r
    → refund_booking booking_id user_id hex' env' r.2
      ≡ err (wrong_status Status.refunded "confirmed")
unfolding refund_booking refundable
refund_booking_again booking_id user_id hex env db r hex' env' h = rw c.result (
    ground (
      arith,
      get_row-update_self (λ (x : Booking). x.id) (mark_refunded (env.clock 1)) (λ x. refl)
          booking_id db.bookings c.booking c.found,
      c.owner,
    ))
  where
    c : Refunded booking_id user_id hex env db r
    c = refund_booking-Refunded booking_id user_id hex env db h
