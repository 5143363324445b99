-- ===== src/Integrity/Pays.antt =====
-- `pay_booking` keeps `IsValid`, on every way in which it answers.
use railbook.Base.{ℕ, ◌+◌, ◌≡◌, refl, ap, false, none, some, [], ◌∷◌, ◌++◌, arith, String}
use railbook.Base.Outcome.{Result, ok, err, ok-injective}
use railbook.Base.Rows.{any_row, get_row, update_row}
use railbook.Base.Rows.Laws.{get_self, key_of_get}
use railbook.Models.{
  Status, Action, PaymentStatus, AuditTrail, Booking, Payment, Db, Env, with_gateway_ref,
  with_failure_reason,
}
use railbook.Models.Constraints.{payment_clash, insert_payment, insert_audit}
use railbook.Audit.{log_audit}
use railbook.Payments.{PaymentResult, MockPaymentGateway}
use railbook.Bookings.Pay.{
  mark_confirmed, mark_cancelled, payment_row, settle_success, settle_failure, settle, Step,
  already, to_charge, prepare, finish, pay_booking,
}
use railbook.Integrity.{IsValid}
use railbook.Integrity.Changes.Updates.{Restamps, changed-IsValid}
use railbook.Integrity.Attempts.{entry, Prepared, prepare-Prepared, settled}
use railbook.Integrity.Changes.Notes.{noted-IsValid}

-- The row that a successful, and a declined, charge leaves in `payments`.
abbrev pub success_row : Booking → ℕ → PaymentResult → Env → Payment
success_row booking key result env = record (payment_row booking key result env) {
  status = PaymentStatus.success;
  failure_reason = none;
}

abbrev pub failed_row : Booking → ℕ → PaymentResult → Env → Payment
failed_row booking key result env = record (payment_row booking key result env) {
  status = PaymentStatus.failed;
  gateway_ref = none;
}

-- The database after a payment `p` of `booking` with the entry `e`, where `f` is the UPDATE.
abbrev pub paid_db : Booking → (Booking → Booking) → Payment → AuditTrail → Db → Db
paid_db booking f p e db = record db {
  bookings = update_row (λ b. b.id) booking.id f db.bookings;
  payments = db.payments ++ p ∷ [];
  audit_trail = db.audit_trail ++ e ∷ [];
  audit_seq = db.audit_seq + 1;
}

module _ (booking : Booking) (user_id key : ℕ) (result : PaymentResult) (env : Env) (db : Db) where
  abbrev pub confirmed_db : Db
  confirmed_db =
      paid_db booking (mark_confirmed (env.clock 1)) (success_row booking key result env)
        (entry booking user_id Action.confirmed Status.reserved Status.confirmed
          (with_gateway_ref result.gateway_ref) env db)
        db

  abbrev pub cancelled_db : Db
  cancelled_db =
      paid_db booking (mark_cancelled (env.clock 1)) (failed_row booking key result env)
        (entry booking user_id Action.payment_failed Status.reserved Status.cancelled
          (with_failure_reason result.failure_reason) env db)
        db

  pub settle_success-eq-ok :
      {r : Booking × Db}
      → settle_success booking user_id key result env db ≡ ok r
      → (any_row (λ x. payment_clash x (success_row booking key result env)) db.payments ≡ false)
        × (r ≡ (mark_confirmed (env.clock 1) booking, confirmed_db))
  unfolding settle_success insert_payment log_audit insert_audit
  settle_success-eq-ok h = ground arith

  pub settle_failure-eq-ok :
      {r : Booking × Db}
      → settle_failure booking user_id key result env db ≡ ok r
      → (any_row (λ x. payment_clash x (failed_row booking key result env)) db.payments ≡ false)
        × (r ≡ (mark_cancelled (env.clock 1) booking, cancelled_db))
  unfolding settle_failure insert_payment log_audit insert_audit
  settle_failure-eq-ok h = ground arith

  module _ (v : IsValid db) (found : get_row (λ x. x.id) booking.id db.bookings ≡ some booking)
      (is_reserved : booking.status ≡ Status.reserved) where
    confirms : Restamps (mark_confirmed (env.clock 1)) booking.status Status.confirmed
    confirms = record {
      id = λ x. refl;
      user_id = λ x. refl;
      schedule_id = λ x. refl;
      seat_id = λ x. refl;
      idempotency_key = λ x. refl;
      total_amount = λ x. refl;
      status = λ x. refl;
      stamp = λ x h. refl;
      narrows = λ h. ground arith;
    }

    cancels : Restamps (mark_cancelled (env.clock 1)) booking.status Status.cancelled
    cancels = record {
      id = λ x. refl;
      user_id = λ x. refl;
      schedule_id = λ x. refl;
      seat_id = λ x. refl;
      idempotency_key = λ x. refl;
      total_amount = λ x. refl;
      status = λ x. refl;
      stamp = λ x h. ground arith;
      narrows = λ h. refl;
    }

    settle_success-IsValid :
        {r : Booking × Db} → settle_success booking user_id key result env db ≡ ok r → IsValid r.1
    settle_success-IsValid h =
        let (free, e) = settle_success-eq-ok h in
        rw (ap (λ (z : Booking × Db). z.1) e) (
          changed-IsValid db booking.id _ _ booking Status.confirmed _ v found confirms
            (settled db booking.id booking (success_row booking key result env) Status.confirmed v
              found is_reserved refl refl free refl refl)
            refl (ground arith))

    settle_failure-IsValid :
        {r : Booking × Db} → settle_failure booking user_id key result env db ≡ ok r → IsValid r.1
    settle_failure-IsValid h =
        let (free, e) = settle_failure-eq-ok h in
        rw (ap (λ (z : Booking × Db). z.1) e) (
          changed-IsValid db booking.id _ _ booking Status.cancelled _ v found cancels
            (settled db booking.id booking (failed_row booking key result env) Status.cancelled v
              found is_reserved refl refl free refl refl)
            refl (ground arith))

    pub settle-IsValid :
        (s : PaymentStatus) {r : Booking × Db}
        → settle s booking user_id key result env db ≡ ok r
        → IsValid r.1
    settle-IsValid PaymentStatus.success h = settle_success-IsValid h
    settle-IsValid PaymentStatus.pending h = settle_failure-IsValid h
    settle-IsValid PaymentStatus.failed h = settle_failure-IsValid h

-- The attempt is recorded first, and the database stays valid.
pub attempted_db-IsValid :
    (booking_id user_id idempotency_key : ℕ) (env : Env) (db : Db) {booking : Booking} {db₁ : Db}
    → IsValid db
    → Prepared booking_id user_id idempotency_key env db booking db₁
    → IsValid db₁
attempted_db-IsValid booking_id user_id idempotency_key env db {booking} v c = rw c.attempt (
    noted-IsValid db booking_id _ booking v c.found
      (key_of_get (λ (x : Booking). x.id) booking_id db.bookings c.found)
      (ground (arith, c.is_reserved)))

-- A payment request that is answered leaves the tables valid.
pub pay_booking-IsValid :
    (booking_id user_id idempotency_key draw : ℕ) (hex : String) (env : Env) (db : Db)
    (g : MockPaymentGateway) {r : Booking × Db}
    → IsValid db
    → (pay_booking booking_id user_id idempotency_key draw hex env db g).0 ≡ ok r
    → IsValid r.1
unfolding pay_booking finish
pay_booking-IsValid booking_id user_id idempotency_key draw hex env db g {r} v =
    go (prepare booking_id user_id idempotency_key env db) refl
  where
    go :
        (s : Result Step)
        → prepare booking_id user_id idempotency_key env db ≡ s
        → (finish user_id idempotency_key draw hex env db g s).0 ≡ ok r
        → IsValid r.1
    go (err e) p h = cc
    go (ok (already booking)) p h = rw (← (ok-injective h)) v
    go (ok (to_charge booking db₁)) p h =
        let c = prepare-Prepared booking_id user_id idempotency_key env db p in
        settle-IsValid booking user_id idempotency_key _ env db₁
          (attempted_db-IsValid booking_id user_id idempotency_key env db v c)
          (rw c.attempt (get_self (λ (x : Booking). x.id) booking_id db.bookings c.found))
          c.is_reserved _ h
