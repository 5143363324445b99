-- ===== src/Routes.antt =====
-- `create`, `pay` and `refund` of backend/app/bookings/router.py for the user who is signed in: the
-- service with its commit, `_invalidate_seat_cache` after the commit, and the details of the booking
-- from the tables as they are then.
pub mod Answers
pub mod Users
pub mod Reached
pub mod Fresh
use railbook.Base.{ℕ, String, Option, ◌==◌, if◌then◌else◌}
use railbook.Base.Outcome.{Result, ok, err}
use railbook.Base.Rows.{any_row}
use railbook.Models.{Booking, Db, Env}
use railbook.Payments.{MockPaymentGateway}
use railbook.Bookings.Create.{create_booking}
use railbook.Bookings.Pay.{pay_booking}
use railbook.Bookings.Refund.{refund_booking}
use railbook.Bookings.Queries.{BookingResponse, enrich_booking}
use railbook.Redis.{Redis, Json}
use railbook.Trains.{SeatAvailability, invalidate_seat_cache}
use railbook.System.{commit_or, without_answer}

-- `return await enrich_booking(session, booking)`
abbrev pub details : Result (Booking × Db) → Result BookingResponse
details (ok (b, db)) = enrich_booking db b
details (err e) = err e

module _ (R : Redis) (json : Json SeatAvailability) where
  -- What a route leaves behind.
  pub record Served : Type 0 where
    pub answer : Result BookingResponse
    pub db : Db
    pub cache : R.State

  -- `await _invalidate_seat_cache(…)` at the end of a service that answers.
  abbrev pub invalidated : (Booking → ℕ) → Result (Booking × Db) → R.State → R.State
  invalidated schedule_of (ok (b, _)) cache = invalidate_seat_cache R json (schedule_of b) cache
  invalidated schedule_of (err _) cache = cache

  abbrev pub served : Result (Booking × Db) → Db → R.State → Served
  served result db cache = record {
    answer = details result;
    db = commit_or result db;
    cache = cache;
  }

  -- A key that is already used returns before the commit and the invalidation.
  unfoldable pub create :
      (user_id schedule_id seat_id idempotency_key : ℕ) → Env → Db → R.State → Served
  create user_id schedule_id seat_id idempotency_key env db cache =
      let result = create_booking user_id schedule_id seat_id idempotency_key env db in
      served result db (
        if any_row (λ b. b.idempotency_key == idempotency_key) db.bookings
        then cache
        else invalidated (λ _. schedule_id) result cache)

  unfoldable pub pay :
      (booking_id user_id idempotency_key draw : ℕ) (hex : String)
      → Env
      → Db
      → MockPaymentGateway
      → R.State
      → Served × MockPaymentGateway
  pay booking_id user_id idempotency_key draw hex env db g cache =
      let (result, g') = pay_booking booking_id user_id idempotency_key draw hex env db g in
      (
        served result db (
            if any_row (λ p. p.idempotency_key == idempotency_key) db.payments
            then cache
            else invalidated (λ b. b.schedule_id) result cache),
        g',
      )

  unfoldable pub refund : (booking_id user_id : ℕ) (hex : String) → Env → Db → R.State → Served
  refund booking_id user_id hex env db cache =
      let result = without_answer (refund_booking booking_id user_id hex env db) in
      served result db (invalidated (λ b. b.schedule_id) result cache)
