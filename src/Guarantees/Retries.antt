-- ===== src/Guarantees/Retries.antt =====
-- The same request once more, and the idempotency keys.
use railbook.Base.{
  ℕ, ◌≡◌, ◌≢◌, refl, sym, ◌∙◌, subst, List, [], ◌∷◌, arith, ◌==◌, ne_of_test, String,
}
use railbook.Base.Outcome.{ok, err, ok-injective}
use railbook.Base.Rows.{count_rows, select, All}
use railbook.Base.Rows.Laws.{All-get, All-map}
use railbook.Base.Rows.Selects.{select-append, All_select, All_of_select_none, select_none_of_count}
use railbook.Models.{Status, Booking, Payment, Db, Env}
use railbook.Payments.{MockPaymentGateway}
use railbook.Bookings.Create.{new_booking, create_booking}
use railbook.Bookings.Pay.{payable, wrong_status, prepare, already, finish, pay_booking}
use railbook.Integrity.{RowIsValid, IsValid}
use railbook.Integrity.Creates.{reserved_db}
use railbook.Integrity.PayCases.{Returned, prepare-Returned, row_after_payment, owner_after_payment}
use railbook.Guarantees.Reservations.{with_key, create_booking-Reservation}

-- The booking that a request with a used key returns.
used_key :
    (user_id schedule_id seat_id key : ℕ) (env : Env) (db : Db) (b : Booking)
    → with_key key db ≡ b ∷ []
    → create_booking user_id schedule_id seat_id key env db ≡ ok (b, db)
unfolding create_booking
used_key user_id schedule_id seat_id key env db b h = ground arith

twice_used :
    (user_id schedule_id seat_id key : ℕ) (env : Env) (db : Db) (x y : Booking) (l : List Booking)
    (r : Booking × Db)
    → with_key key db ≡ x ∷ y ∷ l
    → create_booking user_id schedule_id seat_id key env db ≢ ok r
unfolding create_booking
twice_used user_id schedule_id seat_id key env db x y l r e h = ground arith

key_of_new :
    (b : Booking) (env : Env) (db : Db)
    → with_key b.idempotency_key db ≡ []
    → with_key b.idempotency_key (reserved_db b env db) ≡ b ∷ []
key_of_new b env db unused =
    ground
      (arith, select-append (λ (x : Booking). x.idempotency_key == b.idempotency_key) db.bookings b)

key_afterwards :
    (user_id schedule_id seat_id key : ℕ) (env : Env) (db : Db) (r : Booking × Db)
    → IsValid db
    → create_booking user_id schedule_id seat_id key env db ≡ ok r
    → with_key key r.1 ≡ r.0 ∷ []
key_afterwards user_id schedule_id seat_id key env db r v h = go (with_key key db) refl
  where
    go : (l : List Booking) → with_key key db ≡ l → with_key key r.1 ≡ r.0 ∷ []
    go [] e =
        let c = create_booking-Reservation user_id schedule_id seat_id key env db v e h in
        rw c.added.result
          (key_of_new (new_booking user_id schedule_id seat_id key c.price env) env db e)
    go (x ∷ []) e =
        let same : ◌≡◌ {A = Booking × Db} (x, db) r =
          ok-injective (sym (used_key user_id schedule_id seat_id key env db x e) ∙ h) in
        subst (λ (z : Booking × Db). with_key key z.1 ≡ z.0 ∷ []) same e
    go (x ∷ y ∷ l) e = absurd (twice_used user_id schedule_id seat_id key env db x y l r e h)

-- After a booking request that was answered, any further request with its idempotency key, by any
-- user and for any seat, returns the same booking and changes nothing.
pub create_booking_again :
    (user_id schedule_id seat_id key : ℕ) (env : Env) (db : Db) (r : Booking × Db)
    (user_id' schedule_id' seat_id' : ℕ) (env' : Env)
    → IsValid db
    → create_booking user_id schedule_id seat_id key env db ≡ ok r
    → create_booking user_id' schedule_id' seat_id' key env' r.1 ≡ ok r
create_booking_again user_id schedule_id seat_id key env db r user_id' schedule_id' seat_id' env' v
      h =
    used_key user_id' schedule_id' seat_id' key env' r.1 r.0
      (key_afterwards user_id schedule_id seat_id key env db r v h)

-- A booking that a payment has settled is not charged again: after an answer that left it
-- confirmed or cancelled, any further payment of it by the same user, with the same key or another,
-- is a 400 that names its status, and does not reach the gateway.
pub pay_booking_again :
    (booking_id user_id key draw : ℕ) (hex : String) (env : Env) (db : Db) (g : MockPaymentGateway)
    (r : Booking × Db) (key' draw' : ℕ) (hex' : String) (env' : Env) (g' : MockPaymentGateway)
    → (pay_booking booking_id user_id key draw hex env db g).0 ≡ ok r
    → r.0.status ≢ Status.reserved
    → pay_booking booking_id user_id key' draw' hex' env' r.1 g'
      ≡ (err (wrong_status r.0.status "reserved"), g')
unfolding pay_booking prepare payable finish
pay_booking_again booking_id user_id key draw hex env db g r key' draw' hex' env' g' h settled =
    ground (
      arith,
      row_after_payment booking_id user_id key draw hex env db g r h,
      owner_after_payment booking_id user_id key draw hex env db g r h,
    )

-- The payment idempotency check never answers for the booking that was paid: in a valid database,
-- where a request is answered without a charge because its key has a payment, that payment is of
-- another booking, and the requested one is still reserved.
pub reused_key_is_foreign :
    (booking_id user_id key : ℕ) (env : Env) (db : Db) (booking : Booking)
    → IsValid db
    → prepare booking_id user_id key env db ≡ ok (already booking)
    → (booking.status ≡ Status.reserved)
      × ((p : Payment) × (select (λ x. x.idempotency_key == key) db.payments ≡ p ∷ [])
          × (p.booking_id ≢ booking.id))
reused_key_is_foreign booking_id user_id key env db booking v h =
    (c.is_reserved, (c.payment, c.used, foreign))
  where
    c : Returned booking_id user_id key env db booking
    c = prepare-Returned booking_id user_id key env db h

    row : RowIsValid db.payments db.audit_trail booking
    row = All-get (λ x. x.id) booking_id _ db.bookings v.rows c.found

    unpaid : count_rows (λ p. p.booking_id == booking.id) db.payments ≡ 0
    unpaid = ground (arith, row.attempted, c.is_reserved)

    others : All (λ p. p.booking_id ≢ booking.id) db.payments
    others =
        All-map _ _ (λ p e. ne_of_test p.booking_id booking.id e) db.payments
          (All_of_select_none (λ p. p.booking_id == booking.id) db.payments
            (select_none_of_count (λ p. p.booking_id == booking.id) db.payments unpaid))

    foreign : c.payment.booking_id ≢ booking.id
    foreign =
        (subst (All (λ p. p.booking_id ≢ booking.id)) c.used
          (All_select (λ x. x.idempotency_key == key) _ db.payments others)).0
