-- ===== src/Trains/Bookings.antt =====
-- What a reservation does to the seat availability of its schedule.
use railbook.Base.{
  ℕ, ◌+◌, ◌≡◌, refl, ap, sym, ◌∙◌, true, false, Bool, not, ◌&&◌, some, List, [], ◌∷◌, arith, subst,
  inl, inr, Bool-cases, ◌==◌,
}
use railbook.Base.Outcome.{ok}
use railbook.Base.Rows.{select, any_row, count_rows, get_row, All, AllPairs}
use railbook.Base.Rows.Laws.{All-map, key_of_get}
use railbook.Base.Rows.Selects.{any_row-append}
use railbook.Models.{Train, Schedule, Seat, Booking, Db, Env}
use railbook.Bookings.{get_schedule}
use railbook.Bookings.Create.{is_at, new_booking, create_booking}
use railbook.Integrity.{IsValid}
use railbook.Integrity.Creates.{Reservation, reserved_db, create_booking-IsValid}
use railbook.Guarantees.Reservations.{with_key, create_booking-Reservation}
use railbook.Trains.{SeatAvailability, OrderBy, holds, query}
use railbook.Trains.Availability.{on_train, is_open, query_counts_seats}

module _ {ℓ} {A : Type ℓ} where
  module _ (key : A → ℕ) (k : ℕ) (p q : A → Bool)
      (differ : (y : A) → q y ≡ (p y && not (key y == k))) where
    count_rows_same :
        (xs : List A) → All (λ y. (key y == k) ≡ false) xs → count_rows p xs ≡ count_rows q xs
    count_rows_same [] h = refl
    count_rows_same (x ∷ xs) h = ground (arith, differ x, count_rows_same xs h.1)

    -- One row fewer passes, where the test is closed to one of them.
    count_rows_closed :
        (xs : List A) {x : A}
        → AllPairs (λ y z. (key z == key y) ≡ false) xs
        → get_row key k xs ≡ some x
        → p x ≡ true
        → count_rows p xs ≡ count_rows q xs + 1
    count_rows_closed [] d h pass = cc
    count_rows_closed (y ∷ xs) {x} d h pass = elim (Bool-cases (key y == k)) [
      | inl hit ↦ ground (
        arith,
        differ y,
        hit,
        count_rows_same xs,
        All-map (λ z. (key z == key y) ≡ false) (λ z. (key z == k) ≡ false) (λ z n. ground arith) xs
            d.0,
      )
      | inr miss ↦ ground (arith, differ y, miss, count_rows_closed xs {x = x} d.1)
    ]

no_holder :
    (schedule_id seat_id : ℕ) (seat : Seat) (xs : List Booking)
    → seat.id ≡ seat_id
    → select (is_at schedule_id seat_id) xs ≡ []
    → any_row (holds schedule_id seat) xs ≡ false
no_holder schedule_id seat_id seat [] e h = refl
no_holder schedule_id seat_id seat (x ∷ xs) e h =
    ground (arith, no_holder schedule_id seat_id seat xs)

-- Where the tables are valid and no two seats have one id, an answered request with a new key, for
-- a seat of the schedule's train, leaves the schedule with as many seats and one available seat
-- less, as the availability query counts them.
pub create_booking-query :
    (order : OrderBy) (user_id schedule_id seat_id key : ℕ) (env : Env) (db : Db) {r : Booking × Db}
    (schedule : Schedule) (train : Train) (seat : Seat)
    → IsValid db
    → AllPairs (λ (x : Seat) (y : Seat). (y.id == x.id) ≡ false) db.seats
    → get_schedule schedule_id db ≡ some schedule
    → get_row (λ t. t.id) schedule.train_id db.trains ≡ some train
    → get_row (λ s. s.id) seat_id db.seats ≡ some seat
    → on_train db schedule seat ≡ true
    → with_key key db ≡ []
    → create_booking user_id schedule_id seat_id key env db ≡ ok r
    → (before : SeatAvailability) × (after : SeatAvailability) × (query order db schedule_id
        ≡ ok (some before))
      × (query order r.1 schedule_id ≡ ok (some after))
      × (before.total_seats ≡ after.total_seats)
      × (before.available_seats ≡ after.available_seats + 1)
create_booking-query order user_id schedule_id seat_id key env db {r} schedule train seat v distinct
      found on held in_it unused h =
    rw c.added.result (
      before.0,
      after.0,
      before.1,
      after.1,
      before.2 ∙ sym after.2,
      before.3 ∙ closed ∙ ap (λ n. n + 1) (sym after.3),
    )
  where
    c : Reservation user_id schedule_id seat_id key env db r
    c = create_booking-Reservation user_id schedule_id seat_id key env db v unused h

    db' : Db
    db' = reserved_db (new_booking user_id schedule_id seat_id key c.price env) env db

    valid : IsValid db'
    valid =
        subst (λ (z : Booking × Db). IsValid z.1) c.added.result
          (create_booking-IsValid user_id schedule_id seat_id key env db v h)

    before :
        (p : SeatAvailability) × (query order db schedule_id ≡ ok (some p))
        × (p.total_seats ≡ count_rows (on_train db schedule) db.seats)
        × (p.available_seats ≡ count_rows (is_open db schedule) db.seats)
    before =
        let (p, answered, total, open_seats, _) =
          query_counts_seats order db schedule_id schedule train v found on in
        (p, answered, total, open_seats)

    after :
        (p : SeatAvailability) × (query order db' schedule_id ≡ ok (some p))
        × (p.total_seats ≡ count_rows (on_train db' schedule) db'.seats)
        × (p.available_seats ≡ count_rows (is_open db' schedule) db'.seats)
    after =
        let (p, answered, total, open_seats, _) =
          query_counts_seats order db' schedule_id schedule train valid found on in
        (p, answered, total, open_seats)

    differ : (y : Seat) → is_open db' schedule y ≡ (is_open db schedule y && not (y.id == seat_id))
    differ y = ground (
      arith,
      key_of_get (λ (x : Schedule). x.id) schedule_id db.schedules found,
      any_row-append (holds schedule.id y) db.bookings
          (new_booking user_id schedule_id seat_id key c.price env),
    )

    is_open_before : is_open db schedule seat ≡ true
    is_open_before = ground (
      arith,
      in_it,
      key_of_get (λ (x : Schedule). x.id) schedule_id db.schedules found,
      no_holder schedule_id seat_id seat db.bookings
          (key_of_get (λ (x : Seat). x.id) seat_id db.seats held) c.seat_free,
    )

    closed :
        count_rows (is_open db schedule) db.seats ≡ count_rows (is_open db' schedule) db.seats + 1
    closed =
        count_rows_closed (λ (x : Seat). x.id) seat_id (is_open db schedule) (is_open db' schedule)
          differ db.seats {x = seat} distinct held is_open_before
