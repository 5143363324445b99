-- ===== src/Guarantees/Reservations.antt =====
-- `create_booking`: what a new booking is, when it is made, and when it is refused.
use railbook.Base.{
  ℕ, refl, ◌≢◌, subst, ◌&&◌, if◌then◌else◌, ◌≡◌, true, false, some, List, [], ◌∷◌, inl, inr,
  Option-cases, arith, ◌==◌,
}
use railbook.Base.Outcome.{ok, err, integrity_error, multiple_results}
use railbook.Base.Rows.{get_row, has_row, select, any_row, All, AllPairs}
use railbook.Base.Rows.Keys.{selected_of_get}
use railbook.Base.Rows.Selects.{List-cases, All_pass, AllPairs-select, any_row-select}
use railbook.Models.Constraints.{scalar_one_or_none, booking_clash}
use railbook.Base.Rows.Laws.{has_row_of_get}
use railbook.Models.{Schedule, Booking, Db, Env, Seat}
use railbook.Bookings.{is_active, get_schedule, is_overlapping}
use railbook.Bookings.Create.{
  is_at, new_booking, seat_price, remove_old, reserve_seat, create_booking, seat_taken,
}
use railbook.Integrity.{IsValid}
use railbook.Integrity.Creates.{
  Reservation, reserved_db, reserve_seat-Reservation, add_reserved_lem, no_clash,
  remove_old_refused, row_at,
}

-- The booking with an idempotency key.
abbrev pub with_key : ℕ → Db → List Booking
with_key key db = select (λ b. b.idempotency_key == key) db.bookings

has_seat :
    (seat_id : ℕ) (db : Db) (price : ℕ)
    → seat_price seat_id db ≡ ok price
    → has_row (λ s. s.id) seat_id db.seats ≡ true
unfolding seat_price
has_seat seat_id db price h = elim (Option-cases (get_row (λ (s : Seat). s.id) seat_id db.seats)) [
  | inl e ↦ ground arith
  | inr (s, e) ↦ has_row_of_get (λ (x : Seat). x.id) seat_id db.seats e
]

-- A query that finds two keys raises.
two_rows_raise {ℓ} :
    {A : Type ℓ} (key : A → ℕ) (j k : ℕ) (xs : List A)
    → j ≢ k
    → any_row (λ x. key x == j) xs ≡ true
    → any_row (λ x. key x == k) xs ≡ true
    → scalar_one_or_none xs ≡ err multiple_results
two_rows_raise key j k [] differ at_j at_k = cc
two_rows_raise key j k (x ∷ []) differ at_j at_k = absurd (differ (ground arith))
two_rows_raise key j k (x ∷ y ∷ rest) differ at_j at_k = refl

-- A valid database has one booking of a seat for a schedule at most.
no_two_at :
    (schedule_id seat_id : ℕ) (db : Db) (b c : Booking) (rest : List Booking)
    → IsValid db
    → ¬ (select (is_at schedule_id seat_id) db.bookings ≡ b ∷ c ∷ rest)
no_two_at schedule_id seat_id db b c rest v h = ground (arith, at.0, at.1.0, apart.0.0)
  where
    at : All (λ x. is_at schedule_id seat_id x ≡ true) (b ∷ c ∷ rest)
    at =
        subst (All (λ x. is_at schedule_id seat_id x ≡ true)) h
          (All_pass (is_at schedule_id seat_id) db.bookings)

    apart : AllPairs (λ x y. booking_clash x y ≡ false) (b ∷ c ∷ rest)
    apart =
        subst (AllPairs (λ x y. booking_clash x y ≡ false)) h
          (AllPairs-select (is_at schedule_id seat_id) _ db.bookings v.distinct)

module _ (user_id schedule_id seat_id key : ℕ) (env : Env) (db : Db) where
  -- In a valid database, a request with a new idempotency key that is answered has found the seat
  -- without a booking and the user without an overlapping journey, and its result is the new
  -- reservation at the price of its compartment, with one booking and one audit entry added and
  -- nothing else changed.
  pub create_booking-Reservation :
      {r : Booking × Db}
      → IsValid db
      → with_key key db ≡ []
      → create_booking user_id schedule_id seat_id key env db ≡ ok r
      → Reservation user_id schedule_id seat_id key env db r
  unfolding create_booking
  create_booking-Reservation v unused h =
      reserve_seat-Reservation user_id schedule_id seat_id key env db v (ground arith)

  -- A request with a new key, for a schedule and a seat that exist, where the seat has no booking
  -- for the schedule, the user exists and has no overlapping journey, and the new row's id is not
  -- taken, is answered, and adds the reservation and its audit entry.
  pub create_booking_succeeds :
      (s : Schedule) (price : ℕ)
      → with_key key db ≡ []
      → select (is_at schedule_id seat_id) db.bookings ≡ []
      → get_schedule schedule_id db ≡ some s
      → select (is_overlapping db user_id s) db.bookings ≡ []
      → seat_price seat_id db ≡ ok price
      → has_row (λ u. u.id) user_id db.users ≡ true
      → has_row (λ b. b.id) (env.uuid 0) db.bookings ≡ false
      → let b = new_booking user_id schedule_id seat_id key price env in
        create_booking user_id schedule_id seat_id key env db ≡ ok (b, reserved_db b env db)
  unfolding create_booking reserve_seat remove_old
  create_booking_succeeds s price unused free scheduled alone priced known fresh = ground (
    arith,
    add_reserved_lem booking env db (no_clash booking db.bookings fresh unused free),
    has_row_of_get (λ (x : Schedule). x.id) schedule_id db.schedules {x = s},
    has_seat seat_id db price priced,
  )
    where
      booking : Booking
      booking = new_booking user_id schedule_id seat_id key price env

  -- In a valid database, a request for a seat whose booking was cancelled or refunded never
  -- succeeds: where every check passes, the old row cannot be deleted, and the request ends in an
  -- `IntegrityError`.
  pub rebooking_refused :
      (s : Schedule) (price : ℕ) (old : Booking)
      → IsValid db
      → with_key key db ≡ []
      → select (is_at schedule_id seat_id) db.bookings ≡ old ∷ []
      → is_active old.status ≡ false
      → get_schedule schedule_id db ≡ some s
      → select (is_overlapping db user_id s) db.bookings ≡ []
      → seat_price seat_id db ≡ ok price
      → create_booking user_id schedule_id seat_id key env db ≡ err integrity_error
  unfolding create_booking reserve_seat
  rebooking_refused s price old v unused found closed scheduled alone priced =
      ground (arith, remove_old_refused old db (row_at schedule_id seat_id old db v (rw found)).1)

  -- In a valid database, a user with two different active journeys that overlap the requested one
  -- never gets the 409 for it: a request with a new key for a schedule that exists is a 409 of the
  -- seat where the seat is held, and in every other state of the seat the query raises.
  pub two_overlaps_raise :
      (s : Schedule) (x y : Booking)
      → IsValid db
      → with_key key db ≡ []
      → get_schedule schedule_id db ≡ some s
      → get_row (λ b. b.id) x.id db.bookings ≡ some x
      → get_row (λ b. b.id) y.id db.bookings ≡ some y
      → x.id ≢ y.id
      → is_overlapping db user_id s x ≡ true
      → is_overlapping db user_id s y ≡ true
      → create_booking user_id schedule_id seat_id key env db
        ≡ err (
            if any_row (λ b. is_at schedule_id seat_id b && is_active b.status) db.bookings
            then seat_taken
            else multiple_results)
  unfolding create_booking reserve_seat
  two_overlaps_raise s x y v unused scheduled x_there y_there differ x_overlaps y_overlaps =
      elim (List-cases (select (is_at schedule_id seat_id) db.bookings)) [
        | inl free ↦ ground (arith, free, holder, two)
        | inr (b, [], taken) ↦ ground (arith, taken, holder, two)
        | inr (b, c ∷ rest, both) ↦ absurd (no_two_at schedule_id seat_id db b c rest v both)
      ]
    where
      two :
          scalar_one_or_none (select (is_overlapping db user_id s) db.bookings)
          ≡ err multiple_results
      two =
          two_rows_raise (λ (b : Booking). b.id) x.id y.id
            (select (is_overlapping db user_id s) db.bookings) differ
            (selected_of_get (λ (b : Booking). b.id) x.id (is_overlapping db user_id s) db.bookings
              x_there x_overlaps)
            (selected_of_get (λ (b : Booking). b.id) y.id (is_overlapping db user_id s) db.bookings
              y_there y_overlaps)

      holder :
          any_row (λ b. is_active b.status) (select (is_at schedule_id seat_id) db.bookings)
          ≡ any_row (λ b. is_at schedule_id seat_id b && is_active b.status) db.bookings
      holder = any_row-select (is_at schedule_id seat_id) (λ b. is_active b.status) db.bookings
