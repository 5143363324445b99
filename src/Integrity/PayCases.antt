-- ===== src/Integrity/PayCases.antt =====
-- The ways in which `pay_booking` answers.
use railbook.Base.{ℕ, ◌≡◌, refl, sym, ap, false, some, [], ◌∷◌, ◌⊎◌, inl, inr, arith, ◌==◌, String}
use railbook.Base.Outcome.{Result, ok, err, ok-injective}
use railbook.Base.Rows.{get_row, select}
use railbook.Base.Rows.Laws.{get_row-update_self}
use railbook.Models.{Status, PaymentStatus, Booking, Payment, Db, Env}
use railbook.Models.Constraints.{insert_audit}
use railbook.Audit.{log_audit}
use railbook.Payments.{PaymentResult, MockPaymentGateway, charge}
use railbook.Bookings.Pay.{
  is_past, payable, mark_confirmed, mark_cancelled, settle, Step, already, to_charge, prepare,
  finish, pay_booking,
}
use railbook.Integrity.Attempts.{Prepared, prepare-Prepared}
use railbook.Integrity.Pays.{confirmed_db, cancelled_db, settle_success-eq-ok, settle_failure-eq-ok}

-- The idempotency key has a payment: the booking comes back as it is.
pub record Returned (booking_id user_id key : ℕ) (env : Env) (db : Db) (booking : Booking)
    : Type 0 where
  pub payment : Payment
  pub found : get_row (λ b. b.id) booking_id db.bookings ≡ some booking
  pub owner : booking.user_id ≡ user_id
  pub is_reserved : booking.status ≡ Status.reserved
  pub in_time : is_past booking.expires_at (env.clock 0) ≡ false
  pub used : select (λ p. p.idempotency_key == key) db.payments ≡ payment ∷ []

pub prepare-Returned :
    (booking_id user_id key : ℕ) (env : Env) (db : Db) {booking : Booking}
    → prepare booking_id user_id key env db ≡ ok (already booking)
    → Returned booking_id user_id key env db booking
unfolding prepare payable log_audit insert_audit
prepare-Returned booking_id user_id key env db h = ground arith

module _ (booking_id user_id key draw : ℕ) (hex : String) (env : Env) (db : Db)
    (g : MockPaymentGateway) where
  -- The charge went through the gateway, and its outcome was written down.
  pub record Charged (r : Booking × Db) : Type 0 where
    pub booking : Booking
    pub before : Db
    pub prepared : Prepared booking_id user_id key env db booking before
    pub settled :
        settle
          (charge booking.total_amount key draw hex g).0.status
          booking
          user_id
          key
          (charge booking.total_amount key draw hex g).0
          env
          before
        ≡ ok r

  -- Every answer is one of the two; an error, or a returned booking, has charged nothing.
  pub pay_cases :
      {r : Booking × Db}
      → (pay_booking booking_id user_id key draw hex env db g).0 ≡ ok r
      → (Returned booking_id user_id key env db r.0 × (r.1 ≡ db)) ⊎ Charged r
  unfolding pay_booking finish
  pay_cases {r} = go (prepare booking_id user_id key env db) refl
    where
      go :
          (s : Result Step)
          → prepare booking_id user_id key env db ≡ s
          → (finish user_id key draw hex env db g s).0 ≡ ok r
          → (Returned booking_id user_id key env db r.0 × (r.1 ≡ db)) ⊎ Charged r
      go (err e) p h = cc
      go (ok (already booking)) p h = inl (
        rw (← (ap (λ (z : Booking × Db). z.0) (ok-injective h)))
            (prepare-Returned booking_id user_id key env db p),
        sym (ap (λ (z : Booking × Db). z.1) (ok-injective h)),
      )
      go (ok (to_charge booking before)) p h = inr (record {
        booking = booking;
        before = before;
        prepared = prepare-Prepared booking_id user_id key env db p;
        settled = h;
      })

  -- Nothing is charged unless the booking was found, is the user's, reserved, not expired, and the
  -- key has no payment.
  pub gateway_cases :
      ((pay_booking booking_id user_id key draw hex env db g).1 ≡ g)
      ⊎ ((booking : Booking) × (before : Db) × Prepared booking_id user_id key env db booking
            before)
  unfolding pay_booking finish
  gateway_cases = go (prepare booking_id user_id key env db) refl
    where
      go :
          (s : Result Step)
          → prepare booking_id user_id key env db ≡ s
          → ((finish user_id key draw hex env db g s).1 ≡ g)
            ⊎ ((booking : Booking) × (before : Db) × Prepared booking_id user_id key env db booking
                  before)
      go (err e) p = inl refl
      go (ok (already booking)) p = inl refl
      go (ok (to_charge booking before)) p =
          inr (booking, before, prepare-Prepared booking_id user_id key env db p)

-- The two shapes of a settled payment.
pub settle_cases :
    (s : PaymentStatus) (b : Booking) (user_id key : ℕ) (result : PaymentResult) (env : Env)
    (db : Db) {r : Booking × Db}
    → settle s b user_id key result env db ≡ ok r
    → (r ≡ (mark_confirmed (env.clock 1) b, confirmed_db b user_id key result env db))
      ⊎ (r ≡ (mark_cancelled (env.clock 1) b, cancelled_db b user_id key result env db))
settle_cases PaymentStatus.success b user_id key result env db h =
    inl (settle_success-eq-ok b user_id key result env db h).1
settle_cases PaymentStatus.pending b user_id key result env db h =
    inr (settle_failure-eq-ok b user_id key result env db h).1
settle_cases PaymentStatus.failed b user_id key result env db h =
    inr (settle_failure-eq-ok b user_id key result env db h).1

-- After an answer, the table has the booking as it was returned.
pub row_after_payment :
    (booking_id user_id key draw : ℕ) (hex : String) (env : Env) (db : Db) (g : MockPaymentGateway)
    (r : Booking × Db)
    → (pay_booking booking_id user_id key draw hex env db g).0 ≡ ok r
    → get_row (λ b. b.id) booking_id r.1.bookings ≡ some r.0
row_after_payment booking_id user_id key draw hex env db g r h =
    elim (pay_cases booking_id user_id key draw hex env db g h) [
      | inl (c, same) ↦ rw same c.found
      | inr c ↦ elim (settle_cases _ c.booking user_id key _ env c.before c.settled) [
        | inl e ↦
            rw (e, c.prepared.attempt)
              (get_row-update_self (λ (b : Booking). b.id) (mark_confirmed (env.clock 1))
                (λ b. refl) booking_id db.bookings c.booking c.prepared.found)
        | inr e ↦
            rw (e, c.prepared.attempt)
              (get_row-update_self (λ (b : Booking). b.id) (mark_cancelled (env.clock 1))
                (λ b. refl) booking_id db.bookings c.booking c.prepared.found)
      ]
    ]

pub owner_after_payment :
    (booking_id user_id key draw : ℕ) (hex : String) (env : Env) (db : Db) (g : MockPaymentGateway)
    (r : Booking × Db)
    → (pay_booking booking_id user_id key draw hex env db g).0 ≡ ok r
    → r.0.user_id ≡ user_id
owner_after_payment booking_id user_id key draw hex env db g r h =
    elim (pay_cases booking_id user_id key draw hex env db g h) [
      | inl (c, same) ↦ c.owner
      | inr c ↦ elim (settle_cases _ c.booking user_id key _ env c.before c.settled) [
        | inl e ↦ rw e c.prepared.owner
        | inr e ↦ rw e c.prepared.owner
      ]
    ]
