-- ===== src/Demo/Races.antt =====
-- Two attempts on one free seat.
use railbook.Base.{
  ℕ, String, Option, List, ◌≡◌, ◌≢◌, refl, sym, inl, inr, Bool-cases, ◌∙◌, true, false, some, [],
  arith, ◌==◌, if◌then◌else◌,
}
use railbook.Base.Outcome.{Result, ok, err, integrity_error}
use railbook.Base.Rows.{select, has_row}
use railbook.Base.Rows.Selects.{select-append, any_row-append}
use railbook.Models.{User, Schedule, Booking, Db}
use railbook.Models.Constraints.{booking_clash, insert_booking}
use railbook.Bookings.{get_schedule, is_overlapping}
use railbook.Bookings.Create.{
  is_at, new_booking, seat_price, seat_taken, remove_old, add_reserved, reserve_seat,
  create_booking,
}
use railbook.Integrity.Creates.{reserved_db}
use railbook.Guarantees.Reservations.{with_key, create_booking_succeeds}
use railbook.Demo.{
  Side, Order, Rounding, Draw, side_of, is_demo_user, race_users, RaceResponse, race_response,
  race_condition, attempt_result, attempt, create_between, run_race,
}

-- A side that a request alone would give the seat.
pub record CanReserve (schedule_id seat_id : ℕ) (db : Db) (side : Side) : Type 0 where
  pub schedule : Schedule
  pub price : ℕ
  pub unused : with_key side.key db ≡ []
  pub free : select (is_at schedule_id seat_id) db.bookings ≡ []
  pub scheduled : get_schedule schedule_id db ≡ some schedule
  pub no_overlap : select (is_overlapping db side.user_id schedule) db.bookings ≡ []
  pub priced : seat_price seat_id db ≡ ok price
  pub known : has_row (λ u. u.id) side.user_id db.users ≡ true
  pub new_id : has_row (λ b. b.id) (side.env.uuid 0) db.bookings ≡ false

module _ (schedule_id seat_id : ℕ) (db : Db) where
  abbrev pub reservation_of : (side : Side) → CanReserve schedule_id seat_id db side → Booking
  reservation_of side c = new_booking side.user_id schedule_id seat_id side.key c.price side.env

  abbrev pub after_reservation : (side : Side) → CanReserve schedule_id seat_id db side → Db
  after_reservation side c = reserved_db (reservation_of side c) side.env db

  -- Where nothing comes between reading and writing, an attempt is a request.
  undisturbed :
      (side : Side)
      → attempt side schedule_id seat_id db db
        ≡ create_booking side.user_id schedule_id seat_id side.key side.env db
  unfolding create_between create_booking reserve_seat
  undisturbed side = refl

  first_wins :
      (side : Side) (c : CanReserve schedule_id seat_id db side)
      → attempt side schedule_id seat_id db db
        ≡ ok (reservation_of side c, after_reservation side c)
  first_wins side c =
      undisturbed side
      ∙ create_booking_succeeds side.user_id schedule_id seat_id side.key side.env db c.schedule
          c.price c.unused c.free c.scheduled c.no_overlap c.priced c.known c.new_id

  module _ (first second : Side) (f : CanReserve schedule_id seat_id db first)
      (s : CanReserve schedule_id seat_id db second) (differ : first.key ≢ second.key) where
    late_reader_refused :
        attempt second schedule_id seat_id (after_reservation first f) (after_reservation first f)
        ≡ err seat_taken
    unfolding create_between
    late_reader_refused = ground (
      arith,
      s.unused,
      s.free,
      select-append (λ (b : Booking). b.idempotency_key == second.key) db.bookings
          (reservation_of first f),
      select-append (is_at schedule_id seat_id) db.bookings (reservation_of first f),
    )

    early_reader_raises :
        attempt second schedule_id seat_id db (after_reservation first f) ≡ err integrity_error
    unfolding create_between remove_old add_reserved insert_booking
    early_reader_raises =
        let b = reservation_of second s in
        ground (
          arith,
          s.unused,
          s.free,
          s.scheduled,
          s.no_overlap,
          s.priced,
          any_row-append (λ x. booking_clash x b) db.bookings (reservation_of first f),
        )

  -- Two attempts with different keys on a seat that either could have reserved alone, in either
  -- order, and with the second reading before or after the first has written: the first to write
  -- wins and gets a 201, its reservation is all that is added, and the other gets a 409 where it read
  -- after the write, and a 500 where it read before.
  pub race_has_one_winner :
      (round : Rounding) (order : Order) (start : ℕ) (a b : Side)
      (for_a : CanReserve schedule_id seat_id db a) (for_b : CanReserve schedule_id seat_id db b)
      → a.key ≢ b.key
      → let (race, after) = run_race round order start a b schedule_id seat_id db in
        let lost : ℕ = if order.overlapped then 500 else 409 in
        (race.winner ≡ some (if order.a_first then "A" else "B"))
        × (race.attempt_a.status_code ≡ (if order.a_first then 201 else lost))
        × (race.attempt_b.status_code ≡ (if order.a_first then lost else 201))
        × (after ≡ (if order.a_first then after_reservation a for_a else after_reservation b for_b))
  unfolding run_race
  race_has_one_winner round order start a b for_a for_b differ = elim (Bool-cases order.a_first) [
    | inl e ↦
        rw (e, first_wins a for_a)
          (ground (
            arith,
            late_reader_refused a b for_a for_b differ,
            early_reader_raises a b for_a for_b differ,
          ))
    | inr e ↦
        rw (e, first_wins b for_b)
          (ground (
            arith,
            late_reader_refused b a for_b for_a (λ k. differ (sym k)),
            early_reader_raises b a for_b for_a (λ k. differ (sym k)),
          ))
  ]

result_time {ℓ} :
    {A : Type ℓ} (label : String) (elapsed_ms : ℕ) (r : Result A)
    → (attempt_result label elapsed_ms r).elapsed_ms ≡ elapsed_ms
result_time label elapsed_ms (ok a) = refl
result_time label elapsed_ms (err e) = ground arith

race_times :
    (round : Rounding) (order : Order) (start : ℕ) (a b : Side) (schedule_id seat_id : ℕ) (db : Db)
    → let race = (run_race round order start a b schedule_id seat_id db).0 in
      (race.attempt_a.elapsed_ms ≡ round start a.finished)
      × (race.attempt_b.elapsed_ms ≡ round start b.finished)
unfolding run_race
race_times round order start a b schedule_id seat_id db = elim (Bool-cases order.a_first) [
  | inl e ↦ rw e (result_time "A" _ _, result_time "B" _ _)
  | inr e ↦ rw e (result_time "A" _ _, result_time "B" _ _)
]

-- A request for a race between two users, given or found among the demo users, on a seat that either
-- could have reserved alone with the key that is drawn for it, in any order of their reads and
-- writes: it is answered with the first to write as the winner and a 201, a 409 or a 500 for the
-- other, which read after or before that write, and the time of each, and the winner's reservation
-- is all that is added to the tables.
pub race_condition_has_one_winner :
    (round : Rounding) (found : List User → List User) (order : Order) (user_a user_b : Option ℕ)
    (id_a id_b schedule_id seat_id start : ℕ) (for_a for_b : Draw) (db : Db)
    → race_users user_a user_b (found (select is_demo_user db.users)) ≡ ok (id_a, id_b)
    → (can_a : CanReserve schedule_id seat_id db (side_of id_a for_a))
      (can_b : CanReserve schedule_id seat_id db (side_of id_b for_b))
    → for_a.key ≢ for_b.key
    → let lost : ℕ = if order.overlapped then 500 else 409 in
      (response : RaceResponse) × (race_condition round found order user_a user_b schedule_id
          seat_id start for_a for_b db
        ≡ ok (
          response,
          if order.a_first
              then after_reservation schedule_id seat_id db (side_of id_a for_a) can_a
              else after_reservation schedule_id seat_id db (side_of id_b for_b) can_b,
        ))
      × (response.winner ≡ some (if order.a_first then "A" else "B"))
      × (response.attempt_a.status_code ≡ (if order.a_first then 201 else lost))
      × (response.attempt_b.status_code ≡ (if order.a_first then lost else 201))
      × (response.attempt_a.elapsed_ms ≡ round start for_a.finished)
      × (response.attempt_b.elapsed_ms ≡ round start for_b.finished)
unfolding race_condition
race_condition_has_one_winner round found order user_a user_b id_a id_b schedule_id seat_id start
      for_a for_b db users can_a can_b differ =
    let a = side_of id_a for_a in
    let b = side_of id_b for_b in
    let (wins, status_a, status_b, after) =
      race_has_one_winner schedule_id seat_id db round order start a b can_a can_b differ in
    let (time_a, time_b) = race_times round order start a b schedule_id seat_id db in
    (
      race_response (run_race round order start a b schedule_id seat_id db).0,
      rw (users, after) refl,
      wins,
      status_a,
      status_b,
      time_a,
      time_b,
    )
