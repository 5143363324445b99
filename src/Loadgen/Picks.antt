-- ===== src/Loadgen/Picks.antt =====
-- The seat that the load test picks from a payload, against the tables.
use railbook.Base.{
  ℕ, ◌≡◌, ◌≢◌, ◌⊎◌, refl, ◌∙◌, ap, sym, Bool, true, false, ◌&&◌, none, some, List, [], ◌∷◌, map,
  arith, inl, inr, Bool-cases, Option-cases, ◌==◌, subst,
}
use railbook.Base.Outcome.{ok}
use railbook.Base.Rows.{select, count_rows, get_row, All, AllPairs}
use railbook.Base.Rows.Keys.{row_of_count}
use railbook.Base.Rows.Laws.{key_of_get, get_self}
use railbook.Base.Rows.Selects.{List-cases, select_any, All_of_none, All-select, AllPairs-select}
use railbook.Models.{Schedule, Compartment, Seat, Booking, Db}
use railbook.Models.Constraints.{booking_clash}
use railbook.Bookings.{is_active, calculate_price}
use railbook.Bookings.Create.{is_at, seat_price}
use railbook.Integrity.{IsValid}
use railbook.Trains.{
  SeatRow, OrderBy, holds, seat_row, rows_in, compartment_of, join_seats, is_free,
}
use railbook.Trains.Availability.{is_open, count_rows-++, rows_of_seats}
use railbook.Loadgen.{first_available}

abbrev picks : ℕ → SeatRow → Bool
picks k row = is_free row && (row.id == k)

first_available_counted :
    (k : ℕ) (rows : List SeatRow) → first_available rows ≡ some k → count_rows (picks k) rows ≢ 0
unfolding first_available
first_available_counted k [] h = cc
first_available_counted k (row ∷ rows) h = elim (Bool-cases (is_free row)) [
  | inl free ↦ ground (arith, free)
  | inr taken ↦ ground (arith, taken, first_available_counted k rows)
]

none_available : (rows : List SeatRow) → first_available rows ≡ none → count_rows is_free rows ≡ 0
unfolding first_available
none_available [] h = refl
none_available (row ∷ rows) h = ground (arith, none_available rows)

-- The rows of a seat that is held are none to pick.
held_rows :
    (k : ℕ) (seat : Seat) (c : Compartment) (bs : List Booking)
    → count_rows (picks k) (map (seat_row seat c) (map (λ (x : Booking). some x.status) bs)) ≡ 0
held_rows k seat c [] = refl
held_rows k seat c (b ∷ bs) = ground (arith, held_rows k seat c bs)

no_pick :
    (k : ℕ) (db : Db) (schedule : Schedule) (seat : Seat)
    → ((seat.id == k) && is_open db schedule seat) ≡ false
    → count_rows (picks k) (rows_in (compartment_of db seat) db schedule seat) ≡ 0
no_pick k db schedule seat closed = elim (Option-cases (compartment_of db seat)) [
  | inl e ↦ rw e refl
  | inr (c, e) ↦ elim (List-cases (select (holds schedule.id seat) db.bookings)) [
    | inl none_held ↦ ground (arith, e, none_held, select_any (holds schedule.id seat) db.bookings)
    | inr (x, xs, held) ↦ ground (arith, e, held, held_rows k seat c (x ∷ xs))
  ]
]

no_picks :
    (k : ℕ) (db : Db) (schedule : Schedule) (seats : List Seat)
    → count_rows (λ seat. (seat.id == k) && is_open db schedule seat) seats ≡ 0
    → count_rows (picks k) (join_seats db schedule seats) ≡ 0
unfolding join_seats
no_picks k db schedule [] h = refl
no_picks k db schedule (seat ∷ seats) h =
    let rows = rows_in (compartment_of db seat) db schedule seat in
    ground (
      arith,
      no_pick k db schedule seat (ground arith),
      no_picks k db schedule seats (ground arith),
      count_rows-++ (picks k) rows (join_seats db schedule seats),
    )

module _ (order : OrderBy) (db : Db) (schedule : Schedule) where
  -- The rows of the payload.
  abbrev pub rows : List SeatRow
  rows = order.sort (join_seats db schedule db.seats)

  -- The seat that is picked is a seat of the train that no active booking holds.
  pub picked_is_open :
      (k : ℕ)
      → AllPairs (λ (x : Seat) (y : Seat). (x.id == y.id) ≡ false) db.seats
      → first_available rows ≡ some k
      → (seat : Seat) × (first_available rows ≡ some seat.id)
        × (get_row (λ s. s.id) seat.id db.seats ≡ some seat)
        × (is_open db schedule seat ≡ true)
  picked_is_open k distinct h =
      let (seat, found, vacant) =
        row_of_count (λ (s : Seat). s.id) k (is_open db schedule) db.seats distinct
          (λ none_left. first_available_counted k rows h (
            order.count_rows-sort (picks k) (join_seats db schedule db.seats)
            ∙ no_picks k db schedule db.seats none_left)) in
      (
        seat,
        h ∙ ap some (sym (key_of_get (λ (s : Seat). s.id) k db.seats found)),
        get_self (λ (s : Seat). s.id) k db.seats found,
        vacant,
      )

  pub none_open :
      IsValid db → first_available rows ≡ none → count_rows (is_open db schedule) db.seats ≡ 0
  none_open v h =
      sym (rows_of_seats db v schedule db.seats).1
      ∙ sym (order.count_rows-sort is_free (join_seats db schedule db.seats))
      ∙ none_available rows h

-- The bookings of a seat that is open: none, or one that is no longer active.
pub bookings_of_open :
    (db : Db) (schedule : Schedule) (seat : Seat)
    → IsValid db
    → is_open db schedule seat ≡ true
    → (select (is_at schedule.id seat.id) db.bookings ≡ [])
      ⊎ ((old : Booking) × (select (is_at schedule.id seat.id) db.bookings ≡ old ∷ [])
          × (is_active old.status ≡ false))
bookings_of_open db schedule seat v vacant =
    elim (List-cases (select (is_at schedule.id seat.id) db.bookings)) [
      | inl none_there ↦ inl none_there
      | inr (old, [], found) ↦
          inr (old, found, ground (arith, subst (All (λ b. At b)) found all_at))
      | inr (x, y ∷ rest, found) ↦ absurd (
          two_apart x y rest (subst (All (λ b. At b)) found all_at)
            (subst (AllPairs (λ a b. booking_clash a b ≡ false)) found apart))
    ]
  where
    At : Booking → Type 0
    At b = (is_at schedule.id seat.id b ≡ true) × (holds schedule.id seat b ≡ false)

    all_at : All At (select (is_at schedule.id seat.id) db.bookings)
    all_at =
        All-select (is_at schedule.id seat.id) (λ b. holds schedule.id seat b ≡ false) db.bookings
          (All_of_none (holds schedule.id seat) db.bookings (ground arith))

    apart :
        AllPairs (λ a b. booking_clash a b ≡ false) (select (is_at schedule.id seat.id) db.bookings)
    apart = AllPairs-select (is_at schedule.id seat.id) _ db.bookings v.distinct

    two_apart :
        (x y : Booking) (rest : List Booking)
        → All At (x ∷ y ∷ rest)
        → ¬ (AllPairs (λ a b. booking_clash a b ≡ false) (x ∷ y ∷ rest))
    two_apart x y rest all d = ground (arith, all.0, all.1.0, d.0.0)

pub priced_where_open :
    (db : Db) (schedule : Schedule) (seat : Seat)
    → is_open db schedule seat ≡ true
    → get_row (λ s. s.id) seat.id db.seats ≡ some seat
    → (price : ℕ) × (seat_price seat.id db ≡ ok price)
unfolding seat_price
priced_where_open db schedule seat vacant held = elim (Option-cases (compartment_of db seat)) [
  | inl e ↦ ground (arith, e)
  | inr (c, e) ↦ (calculate_price c.comp_type, ground (arith, e, held))
]
