-- ===== src/Routes/Answers.antt =====
-- A route that has changed the tables answers with the booking's details.
use railbook.Base.{ℕ, ◌≡◌, refl, String, true, Option, some, arith, ◌⊎◌, inl, inr, subst, ◌==◌}
use railbook.Base.Outcome.{Result, ok, err}
use railbook.Base.Rows.{get_row, select, All}
use railbook.Base.Rows.Laws.{All-get}
use railbook.Base.Rows.Selects.{All_select}
use railbook.Models.{Booking, Db, Env}
use railbook.Models.Constraints.{booking_refs, scalar_one_or_none, scalar_some}
use railbook.Payments.{RefundResult, MockPaymentGateway}
use railbook.Bookings.Create.{reserve_seat, create_booking}
use railbook.Bookings.Pay.{pay_booking}
use railbook.Bookings.Refund.{refund_booking}
use railbook.Bookings.Queries.{BookingResponse}
use railbook.Redis.{Redis, Json}
use railbook.Trains.{SeatAvailability}
use railbook.System.{without_answer}
use railbook.Integrity.{IsValid, TimetableIsValid}
use railbook.Integrity.Creates.{reserve_seat-Reservation}
use railbook.Integrity.PayCases.{pay_cases, settle_cases}
use railbook.Integrity.Refunds.{refund_booking-Refunded}
use railbook.Guarantees.Queries.{enrich_answers}
use railbook.Routes.{details, create, pay, refund}

-- What a route answers where its service has the given result: the details of that booking, or the
-- service's error.
abbrev pub Answers : Result (Booking × Db) → Result BookingResponse → Type 0
Answers (ok (b, _)) answer = (r : BookingResponse) × (answer ≡ ok r) × (r.booking ≡ b)
Answers (err e) answer = answer ≡ err e

-- The tables after a service know the booking that it returns.
abbrev pub Knows : Result (Booking × Db) → Type 0
Knows (ok (b, db)) = TimetableIsValid db × (booking_refs db b ≡ true)
Knows (err _) = Unit

details_answer : (result : Result (Booking × Db)) → Knows result → Answers result (details result)
details_answer (ok (b, db)) k = enrich_answers db k.0 b k.1
details_answer (err e) k = refl

abbrev RefsOk : Db → Booking → Type 0
RefsOk db b = booking_refs db b ≡ true

-- An answered request has reused a booking, or reserved the seat.
module _ (user_id schedule_id seat_id key : ℕ) (env : Env) (db : Db) where
  pub create_ways :
      {r : Booking × Db}
      → create_booking user_id schedule_id seat_id key env db ≡ ok r
      → ((scalar_one_or_none (select (λ b. b.idempotency_key == key) db.bookings) ≡ ok (some r.0))
          × (r.1 ≡ db))
        ⊎ (reserve_seat user_id schedule_id seat_id key env db ≡ ok r)
  unfolding create_booking
  create_ways h = ground arith

module _ (db : Db) (v : IsValid db) (t : TimetableIsValid db) where
  module _ (user_id schedule_id seat_id key : ℕ) (env : Env) where
    pub create-Knows :
        (result : Result (Booking × Db))
        → create_booking user_id schedule_id seat_id key env db ≡ result
        → Knows result
    create-Knows (err e) h = tt
    create-Knows (ok r) h = elim (create_ways user_id schedule_id seat_id key env db h) [
      | inl (reused, same) ↦ rw same (
        t,
        (subst (All (RefsOk db)) (scalar_some _ reused)
            (All_select (λ b. b.idempotency_key == key) (RefsOk db) db.bookings v.refer)).0,
      )
      | inr new ↦
          let c = reserve_seat-Reservation user_id schedule_id seat_id key env db v new in
          rw c.added.result (
            record { trains = t.trains; compartments = t.compartments; schedules = t.schedules },
            c.added.refers,
          )
    ]

  module _ (booking_id user_id : ℕ) (hex : String) (env : Env) where
    known : (b : Booking) → get_row (λ x. x.id) booking_id db.bookings ≡ some b → RefsOk db b
    known b found = All-get (λ x. x.id) booking_id (RefsOk db) db.bookings v.refer found

    pub pay-Knows :
        (key draw : ℕ) (g : MockPaymentGateway) (result : Result (Booking × Db))
        → (pay_booking booking_id user_id key draw hex env db g).0 ≡ result
        → Knows result
    pay-Knows key draw g (err e) h = tt
    pay-Knows key draw g (ok r) h = elim (pay_cases booking_id user_id key draw hex env db g h) [
      | inl (c, same) ↦ rw same (t, known r.0 c.found)
      | inr c ↦ elim (settle_cases _ c.booking user_id key _ env c.before c.settled) [
        | inl e ↦
            rw (e, c.prepared.attempt)
              (
                record {
                  trains = t.trains;
                  compartments = t.compartments;
                  schedules = t.schedules;
                },
                known c.booking c.prepared.found,
              )
        | inr e ↦
            rw (e, c.prepared.attempt)
              (
                record {
                  trains = t.trains;
                  compartments = t.compartments;
                  schedules = t.schedules;
                },
                known c.booking c.prepared.found,
              )
      ]
    ]

    pub refund-Knows :
        (result : Result (Booking × Option RefundResult × Db))
        → refund_booking booking_id user_id hex env db ≡ result
        → Knows (without_answer result)
    refund-Knows (err e) h = tt
    refund-Knows (ok r) h =
        let c = refund_booking-Refunded booking_id user_id hex env db h in
        rw c.result (
          record { trains = t.trains; compartments = t.compartments; schedules = t.schedules },
          known c.booking c.found,
        )

module _ (R : Redis) (json : Json SeatAvailability) where
  -- Each route answers what its service returns, with the details, or raises what its service raises.
  pub routes_answer :
      (schedule_id seat_id booking_id user_id key draw : ℕ) (hex : String) (env : Env) (db : Db)
      (g : MockPaymentGateway) (cache : R.State)
      → IsValid db
      → TimetableIsValid db
      → Answers
          (create_booking user_id schedule_id seat_id key env db)
          (create R json user_id schedule_id seat_id key env db cache).answer
        × Answers
            (pay_booking booking_id user_id key draw hex env db g).0
            (pay R json booking_id user_id key draw hex env db g cache).0.answer
        × Answers
            (without_answer (refund_booking booking_id user_id hex env db))
            (refund R json booking_id user_id hex env db cache).answer
  unfolding create pay refund
  routes_answer schedule_id seat_id booking_id user_id key draw hex env db g cache v t = (
    details_answer _ (create-Knows db v t user_id schedule_id seat_id key env _ refl),
    details_answer _ (pay-Knows db v t booking_id user_id hex env key draw g _ refl),
    details_answer _ (refund-Knows db v t booking_id user_id hex env _ refl),
  )
