-- ===== src/Bookings/Pay.antt =====
-- `pay_booking` of backend/app/bookings/service.py, up to the commit. The gateway is no part of the
-- transaction: a charge stays processed also where the database raises.
use Prim.Native.String.{◌++◌}
use railbook.Base.{ℕ, String, Bool, false, not, Option, none, some, ◌==◌, ltb}
use railbook.Base.Outcome.{Error, Result, ok, err, http, ◌>>=◌, ◌>>◌, raise_if, or_raise}
use railbook.Base.Rows.{get_row, select}
use railbook.Models.{
  Action, Status, same_status, status_text, PaymentStatus, Payment, Booking, Db, Env,
  with_gateway_ref, with_failure_reason,
}
use railbook.Models.Constraints.{scalar_one_or_none, update_booking, insert_payment}
use railbook.Audit.{log_audit}
use railbook.Payments.{PaymentResult, MockPaymentGateway, charge}

abbrev pub booking_not_found : Error
booking_not_found = http 404 "Booking not found"

abbrev pub not_your_booking : Error
not_your_booking = http 403 "Not your booking"

abbrev pub wrong_status : Status → String → Error
wrong_status s wanted = http 400 ("Booking is " ++ (status_text s ++ (", not " ++ wanted)))

abbrev pub reservation_expired : Error
reservation_expired = http 400 "Reservation expired"

-- `t and t < now`
abbrev pub is_past : Option ℕ → ℕ → Bool
is_past none now = false
is_past (some t) now = ltb t now

-- The booking that the guards of `pay_booking` let through.
unfoldable pub payable : (booking_id user_id now : ℕ) → Db → Result Booking
payable booking_id user_id now db = do
  booking ← or_raise (get_row (λ b. b.id) booking_id db.bookings) booking_not_found
  raise_if (not (booking.user_id == user_id)) not_your_booking
  raise_if (not (same_status booking.status Status.reserved))
      (wrong_status booking.status "reserved")
  raise_if (is_past booking.expires_at now) reservation_expired
  ok booking

-- The columns that the outcome of a charge sets.
abbrev pub mark_confirmed : ℕ → Booking → Booking
mark_confirmed now b = record b { status = Status.confirmed; confirmed_at = some now }

abbrev pub mark_cancelled : ℕ → Booking → Booking
mark_cancelled now b = record b { status = Status.cancelled; cancelled_at = some now }

abbrev pub payment_row : Booking → (idempotency_key : ℕ) → PaymentResult → Env → Payment
payment_row booking idempotency_key result env = record {
  id = env.uuid 0;
  booking_id = booking.id;
  idempotency_key = idempotency_key;
  amount = booking.total_amount;
  status = result.status;
  gateway_ref = result.gateway_ref;
  attempted_at = env.tx_time;
  completed_at = some (env.clock 2);
  failure_reason = result.failure_reason;
}

unfoldable pub settle_success :
    Booking → (user_id idempotency_key : ℕ) → PaymentResult → Env → Db → Result (Booking × Db)
unfolding insert_payment log_audit
settle_success booking user_id idempotency_key result env db = do
  db₁ ←
      insert_payment
        (record (payment_row booking idempotency_key result env) {
          status = PaymentStatus.success;
          failure_reason = none;
        })
        (update_booking booking.id (mark_confirmed (env.clock 1)) db)
  db₂ ←
      log_audit booking.id user_id Action.confirmed (some Status.reserved) Status.confirmed
        (some (with_gateway_ref result.gateway_ref)) env.ip_address env.tx_time db₁
  ok (mark_confirmed (env.clock 1) booking, db₂)

unfoldable pub settle_failure :
    Booking → (user_id idempotency_key : ℕ) → PaymentResult → Env → Db → Result (Booking × Db)
unfolding insert_payment log_audit
settle_failure booking user_id idempotency_key result env db = do
  db₁ ←
      insert_payment
        (record (payment_row booking idempotency_key result env) {
          status = PaymentStatus.failed;
          gateway_ref = none;
        })
        (update_booking booking.id (mark_cancelled (env.clock 1)) db)
  db₂ ←
      log_audit booking.id user_id Action.payment_failed (some Status.reserved) Status.cancelled
        (some (with_failure_reason result.failure_reason)) env.ip_address env.tx_time db₁
  ok (mark_cancelled (env.clock 1) booking, db₂)

-- `if charge_result.status == "success"`
abbrev pub settle :
    PaymentStatus
    → Booking
    → (user_id idempotency_key : ℕ) → PaymentResult
    → Env
    → Db
    → Result (Booking × Db)
settle PaymentStatus.success booking user_id key result env db =
    settle_success booking user_id key result env db
settle _ booking user_id key result env db = settle_failure booking user_id key result env db

-- The guards, the payment idempotency check, and the first audit entry: the booking to be charged
-- with the database to go on with, or the booking to return at once.
pub data Step : Type 0 where
  already : Booking → Step
  to_charge : Booking → Db → Step

unfoldable pub prepare : (booking_id user_id idempotency_key : ℕ) → Env → Db → Result Step
prepare booking_id user_id idempotency_key env db = do
  booking ← payable booking_id user_id (env.clock 0) db
  existing ← scalar_one_or_none (select (λ p. p.idempotency_key == idempotency_key) db.payments)
  elim existing [
    | some payment ↦ ok (already booking)
    | none ↦ do
      db₁ ←
          log_audit booking.id user_id Action.payment_attempted (some Status.reserved)
            Status.reserved none env.ip_address env.tx_time db
      ok (to_charge booking db₁)
  ]

-- The charge, and what its outcome does.
unfoldable pub finish :
    (user_id idempotency_key draw : ℕ) (hex : String)
    → Env
    → Db
    → MockPaymentGateway
    → Result Step
    → Result (Booking × Db) × MockPaymentGateway
finish user_id key draw hex env db g (err e) = (err e, g)
finish user_id key draw hex env db g (ok (already booking)) = (ok (booking, db), g)
finish user_id key draw hex env db g (ok (to_charge booking db₁)) =
    let (result, g') = charge booking.total_amount key draw hex g in
    (settle result.status booking user_id key result env db₁, g')

unfoldable pub pay_booking :
    (booking_id user_id idempotency_key draw : ℕ) (hex : String)
    → Env
    → Db
    → MockPaymentGateway
    → Result (Booking × Db) × MockPaymentGateway
pay_booking booking_id user_id idempotency_key draw hex env db g =
    finish user_id idempotency_key draw hex env db g
      (prepare booking_id user_id idempotency_key env db)
