-- ===== src/Guarantees/Attempts.antt =====
-- `pay_booking`: the outcome of a payment that comes through, and when the gateway is charged.
use railbook.Base.{
  ℕ, ◌≡◌, refl, Bool, true, false, none, some, List, [], ◌∷◌, arith, ◌==◌, ltb, String,
  if◌then◌else◌,
}
use railbook.Base.Outcome.{ok}
use railbook.Base.Rows.{any_row, get_row, has_row, select, update_row}
use railbook.Base.Rows.Laws.{has_row-update, has_row_of_get, key_of_get}
use railbook.Models.{Status, Booking, Payment, Db, Env}
use railbook.Models.Constraints.{payment_clash, insert_payment, insert_audit}
use railbook.Audit.{log_audit}
use railbook.Payments.{
  PaymentResult, MockPaymentGateway, lookup_processed, charge, declined, accepted,
}
use railbook.Bookings.Pay.{
  is_past, payable, mark_confirmed, mark_cancelled, settle_success, settle_failure, to_charge,
  prepare, finish, pay_booking,
}
use railbook.Integrity.Attempts.{attempted_db}
use railbook.Integrity.Pays.{success_row, failed_row, confirmed_db, cancelled_db}

-- The answer of the gateway to a new key.
abbrev pub outcome : (draw : ℕ) → String → MockPaymentGateway → PaymentResult
outcome draw hex g = if ltb draw g.failure_rate then declined else accepted hex

no_payment_clash :
    (p : Payment) (ps : List Payment)
    → has_row (λ x. x.id) p.id ps ≡ false
    → select (λ x. x.idempotency_key == p.idempotency_key) ps ≡ []
    → any_row (λ x. payment_clash x p) ps ≡ false
no_payment_clash p [] id key = refl
no_payment_clash p (x ∷ ps) id key = ground (arith, no_payment_clash p ps)

-- What a settled payment leaves behind: the booking as returned, and the database.
abbrev pub paid_result :
    Bool → Booking → (user_id key : ℕ) → PaymentResult → Env → Db → Booking × Db
paid_result is_declined b user_id key result env db =
    if is_declined
    then (mark_cancelled (env.clock 1) b, cancelled_db b user_id key result env db)
    else (mark_confirmed (env.clock 1) b, confirmed_db b user_id key result env db)

module _ (booking_id user_id key draw : ℕ) (hex : String) (env : Env) (db : Db)
    (g : MockPaymentGateway) (b : Booking)
    (found : get_row (λ x. x.id) booking_id db.bookings ≡ some b) (owner : b.user_id ≡ user_id)
    (is_reserved : b.status ≡ Status.reserved)
    (in_time : is_past b.expires_at (env.clock 0) ≡ false)
    (unused : select (λ p. p.idempotency_key == key) db.payments ≡ [])
    (known : has_row (λ u. u.id) user_id db.users ≡ true) where
  prepare_lem :
      prepare booking_id user_id key env db ≡ ok (to_charge b (attempted_db b user_id env db))
  unfolding prepare payable log_audit insert_audit
  prepare_lem = ground (
    arith,
    has_row_of_get (λ (x : Booking). x.id) booking_id db.bookings {x = b},
    key_of_get (λ (x : Booking). x.id) booking_id db.bookings {x = b},
  )

  booking_there :
      (f : Booking → Booking)
      → ((x : Booking) → (f x).id ≡ x.id)
      → has_row (λ x. x.id) b.id (update_row (λ x. x.id) b.id f db.bookings) ≡ true
  booking_there f keeps = ground (
    arith,
    has_row-update (λ (x : Booking). x.id) b.id f keeps b.id db.bookings,
    has_row_of_get (λ (x : Booking). x.id) booking_id db.bookings {x = b} found,
    key_of_get (λ (x : Booking). x.id) booking_id db.bookings {x = b} found,
  )

  module _ (new_charge : lookup_processed key g.processed ≡ none)
      (fresh : has_row (λ (p : Payment). p.id) (env.uuid 0) db.payments ≡ false) where
    -- A payment of a reserved, unexpired booking by its owner, with a key that neither the payments
    -- table nor the gateway has seen, is charged once and answered: declined where the draw is below
    -- the failure rate, and then the booking is cancelled; otherwise confirmed. Either way one
    -- payment row over the booking's amount and two audit entries are added, the gateway remembers
    -- the answer, and nothing else changes.
    pub pay_booking-outcome : pay_booking booking_id user_id key draw hex env db g ≡ (
      ok (
          paid_result
            (ltb draw g.failure_rate)
            b
            user_id
            key
            (outcome draw hex g)
            env
            (attempted_db b user_id env db)),
      record g { processed = (key, outcome draw hex g) ∷ g.processed },
    )
    unfolding pay_booking finish charge settle_success settle_failure insert_payment log_audit
        insert_audit
    pay_booking-outcome = rw prepare_lem (
        ground (
          arith,
          booking_there (mark_confirmed (env.clock 1)) (λ x. refl),
          booking_there (mark_cancelled (env.clock 1)) (λ x. refl),
          no_payment_clash (success_row b key (outcome draw hex g) env) db.payments fresh unused,
          no_payment_clash (failed_row b key (outcome draw hex g) env) db.payments fresh unused,
        ))
