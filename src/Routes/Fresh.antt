-- ===== src/Routes/Fresh.antt =====
-- The seat availability after a route.
use railbook.Base.{
  ℕ, ◌≡◌, refl, String, true, Option, some, [], ◌∷◌, ◌⊎◌, inl, inr, arith, Bool-cases, ◌==◌,
}
use railbook.Base.Outcome.{Result, ok, err}
use railbook.Base.Rows.{any_row, select, get_row}
use railbook.Base.Rows.Selects.{List-cases, select_any}
use railbook.Models.{Booking, Payment, Db, Env}
use railbook.Payments.{RefundResult, MockPaymentGateway}
use railbook.Bookings.Create.{create_booking}
use railbook.Bookings.Pay.{pay_booking}
use railbook.Bookings.Refund.{refund_booking}
use railbook.Redis.{Redis, Json, seats}
use railbook.Trains.{SeatAvailability, OrderBy, query, get_seat_availability}
use railbook.Trains.Cache.{fresh_after_invalidation}
use railbook.System.{commit_or, without_answer}
use railbook.Integrity.PayCases.{pay_cases, settle_cases}
use railbook.Integrity.Refunds.{refund_booking-Refunded}
use railbook.Routes.{Served, invalidated, served, create, pay, refund}

-- A key that is already used leaves the tables alone.
create_keeps :
    (user_id schedule_id seat_id key : ℕ) (env : Env) (db : Db)
    → any_row (λ b. b.idempotency_key == key) db.bookings ≡ true
    → commit_or (create_booking user_id schedule_id seat_id key env db) db ≡ db
unfolding create_booking
create_keeps user_id schedule_id seat_id key env db used =
    let with_key = λ (b : Booking). b.idempotency_key == key in
    elim (List-cases (select with_key db.bookings)) [
      | inl none_found ↦ absurd (cc (used, select_any with_key db.bookings none_found))
      | inr (x, [], found) ↦ ground (arith, found)
      | inr (x, y ∷ rest, found) ↦ ground (arith, found)
    ]

module _ (booking_id user_id key draw : ℕ) (hex : String) (env : Env) (db : Db)
    (g : MockPaymentGateway) where
  pay_keeps :
      (result : Result (Booking × Db))
      → (pay_booking booking_id user_id key draw hex env db g).0 ≡ result
      → any_row (λ p. p.idempotency_key == key) db.payments ≡ true
      → commit_or result db ≡ db
  pay_keeps (err e) h used = refl
  pay_keeps (ok r) h used = elim (pay_cases booking_id user_id key draw hex env db g h) [
    | inl (c, same) ↦ same
    | inr c ↦ absurd (
        cc (
          used,
          select_any (λ (p : Payment). p.idempotency_key == key) db.payments c.prepared.unused,
        ))
  ]

  pay_schedule :
      (b : Booking)
      → get_row (λ x. x.id) booking_id db.bookings ≡ some b
      → (r : Booking) (db' : Db)
      → (pay_booking booking_id user_id key draw hex env db g).0 ≡ ok (r, db')
      → r.schedule_id ≡ b.schedule_id
  pay_schedule b found r db' h = elim (pay_cases booking_id user_id key draw hex env db g h) [
    | inl (c, same) ↦ ground (arith, c.found)
    | inr c ↦ elim (settle_cases _ c.booking user_id key _ env c.before c.settled) [
      | inl e ↦ ground (arith, e, c.prepared.found)
      | inr e ↦ ground (arith, e, c.prepared.found)
    ]
  ]

refund_schedule :
    (booking_id user_id : ℕ) (hex : String) (env : Env) (db : Db) (b : Booking)
    → get_row (λ x. x.id) booking_id db.bookings ≡ some b
    → (r : Booking) (db' : Db)
    → without_answer (refund_booking booking_id user_id hex env db) ≡ ok (r, db')
    → r.schedule_id ≡ b.schedule_id
refund_schedule booking_id user_id hex env db b found r db' =
    go (refund_booking booking_id user_id hex env db) refl
  where
    go :
        (result : Result (Booking × Option RefundResult × Db))
        → refund_booking booking_id user_id hex env db ≡ result
        → without_answer result ≡ ok (r, db')
        → r.schedule_id ≡ b.schedule_id
    go (err e) h = λ w. cc
    go (ok x) h = λ w.
        let c = refund_booking-Refunded booking_id user_id hex env db h in
        ground (arith, w, c.result, c.found)

module _ (R : Redis) (json : Json SeatAvailability) (order : OrderBy) where
  -- The tables are as they were, or the next request for the seats of a schedule is answered from
  -- the tables as they are now.
  abbrev pub IsFresh : (schedule_id : ℕ) → Db → Served R json → Type 0
  IsFresh schedule_id db s =
      (s.db ≡ db)
      ⊎ ((from to : ℕ)
          → (get_seat_availability R json order s.db schedule_id (some s.cache) from to).0
            ≡ query order s.db schedule_id)

  module _ (cache : R.State)
      (removes : (k : ℕ) → (s : R.State) × (R.delete (seats k) cache ≡ some s)) where
    served-IsFresh :
        (schedule_of : Booking → ℕ) (k : ℕ) (result : Result (Booking × Db)) (db : Db)
        → ((b : Booking) (db' : Db) → result ≡ ok (b, db') → schedule_of b ≡ k)
        → IsFresh k db (served R json result db (invalidated R json schedule_of result cache))
    served-IsFresh schedule_of k (err e) db h = inl refl
    served-IsFresh schedule_of k (ok (b, db')) db h = inr (λ from to.
        rw (h b db' refl) (fresh_after_invalidation R json order db' k from to cache (removes k).1))

    create-IsFresh :
        (user_id schedule_id seat_id key : ℕ) (env : Env) (db : Db)
        → IsFresh schedule_id db (create R json user_id schedule_id seat_id key env db cache)
    unfolding create
    create-IsFresh user_id schedule_id seat_id key env db =
        elim (Bool-cases (any_row (λ (b : Booking). b.idempotency_key == key) db.bookings)) [
          | inl used ↦ inl (create_keeps user_id schedule_id seat_id key env db used)
          | inr unused ↦ rw unused (
              served-IsFresh (λ _. schedule_id) schedule_id
                (create_booking user_id schedule_id seat_id key env db) db (λ b db' h. refl))
        ]

    pay-IsFresh :
        (booking_id user_id key draw : ℕ) (hex : String) (env : Env) (db : Db)
        (g : MockPaymentGateway) (b : Booking)
        → get_row (λ x. x.id) booking_id db.bookings ≡ some b
        → IsFresh b.schedule_id db (pay R json booking_id user_id key draw hex env db g cache).0
    unfolding pay
    pay-IsFresh booking_id user_id key draw hex env db g b found =
        elim (Bool-cases (any_row (λ (p : Payment). p.idempotency_key == key) db.payments)) [
          | inl used ↦ inl (pay_keeps booking_id user_id key draw hex env db g _ refl used)
          | inr unused ↦ rw unused (
              served-IsFresh (λ x. x.schedule_id) b.schedule_id
                (pay_booking booking_id user_id key draw hex env db g).0 db
                (pay_schedule booking_id user_id key draw hex env db g b found))
        ]

    -- Where Redis carries out the deletions, a route leaves the tables as they were, or the next
    -- request for the seats of its schedule, whenever it comes, is answered from the tables as they
    -- are now, whatever was cached: for a new booking the schedule asked for, for a payment and a
    -- refund of a booking that exists the schedule of the booking.
    pub routes-IsFresh :
        (user_id schedule_id seat_id booking_id key draw : ℕ) (hex : String) (env : Env) (db : Db)
        (g : MockPaymentGateway) (b : Booking)
        → get_row (λ x. x.id) booking_id db.bookings ≡ some b
        → IsFresh schedule_id db (create R json user_id schedule_id seat_id key env db cache)
          × IsFresh b.schedule_id db (pay R json booking_id user_id key draw hex env db g cache).0
          × IsFresh b.schedule_id db (refund R json booking_id user_id hex env db cache)
    unfolding refund
    routes-IsFresh user_id schedule_id seat_id booking_id key draw hex env db g b found = (
      create-IsFresh user_id schedule_id seat_id key env db,
      pay-IsFresh booking_id user_id key draw hex env db g b found,
      served-IsFresh (λ x. x.schedule_id) b.schedule_id
          (without_answer (refund_booking booking_id user_id hex env db)) db
          (refund_schedule booking_id user_id hex env db b found),
    )
