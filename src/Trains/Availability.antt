-- ===== src/Trains/Availability.antt =====
-- The counts of the seat availability, against the tables.
use railbook.Base.{
  ℕ, ◌+◌, ◌∙◌, ◌≡◌, refl, true, false, Bool, not, ◌&&◌, Option, none, some, List, [], ◌∷◌, ◌++◌,
  arith, subst, inl, inr, Option-cases, ◌==◌, if◌then◌else◌,
}
use railbook.Base.Outcome.{ok}
use railbook.Base.Rows.{length, select, any_row, count_rows, get_row, All, AllPairs}
use railbook.Base.Rows.Selects.{List-cases, All_pass, select_any, any_of_select, AllPairs-select}
use railbook.Models.{Status, Train, Schedule, Compartment, Seat, Booking, Db}
use railbook.Models.Constraints.{booking_clash}
use railbook.Bookings.{get_schedule}
use railbook.Integrity.{IsValid}
use railbook.Trains.{
  SeatAvailability, SeatRow, seat_row, OrderBy, holds, rows_in, compartment_of, join_seats, is_free,
  payload, query,
}

-- A seat of the schedule's train, and one of these that no active booking of the schedule holds.
abbrev pub in_train : Option Compartment → Schedule → Bool
in_train none schedule = false
in_train (some c) schedule = c.train_id == schedule.train_id

abbrev pub on_train : Db → Schedule → Seat → Bool
on_train db schedule seat = in_train (compartment_of db seat) schedule

abbrev pub is_open : Db → Schedule → Seat → Bool
is_open db schedule seat =
    on_train db schedule seat && not (any_row (holds schedule.id seat) db.bookings)

module _ {ℓ} {A : Type ℓ} where
  length_as_count : (xs : List A) → length xs ≡ count_rows (λ _. true) xs
  length_as_count [] = refl
  length_as_count (x ∷ xs) = ground (arith, length_as_count xs)

  pub count_rows-++ :
      (p : A → Bool) (xs ys : List A) → count_rows p (xs ++ ys) ≡ count_rows p xs + count_rows p ys
  count_rows-++ p [] ys = omega arith
  count_rows-++ p (x ∷ xs) ys = ground (arith, count_rows-++ p xs ys)

-- A seat has one active booking for a schedule at most.
one_holder :
    (db : Db)
    → IsValid db
    → (k : ℕ) (seat : Seat) (x y : Booking) (rest : List Booking)
    → ¬ (select (holds k seat) db.bookings ≡ x ∷ y ∷ rest)
one_holder db v k seat x y rest h = ground (arith, hits.0, hits.1.0, apart.0.0)
  where
    hits : All (λ b. holds k seat b ≡ true) (x ∷ y ∷ rest)
    hits = subst (All (λ b. holds k seat b ≡ true)) h (All_pass (holds k seat) db.bookings)

    apart : AllPairs (λ a b. booking_clash a b ≡ false) (x ∷ y ∷ rest)
    apart =
        subst (AllPairs (λ a b. booking_clash a b ≡ false)) h
          (AllPairs-select (holds k seat) _ db.bookings v.distinct)

-- The rows of one seat.
rows_of_seat :
    (db : Db)
    → IsValid db
    → (schedule : Schedule) (seat : Seat)
    → let rows = rows_in (compartment_of db seat) db schedule seat in
      (count_rows (λ _. true) rows ≡ (if on_train db schedule seat then 1 else 0))
      × (count_rows is_free rows ≡ (if is_open db schedule seat then 1 else 0))
rows_of_seat db v schedule seat = elim (Option-cases (compartment_of db seat)) [
  | inl e ↦ rw e (refl, refl)
  | inr (c, e) ↦ rw e (elim (List-cases (select (holds schedule.id seat) db.bookings)) [
    | inl none_held ↦ ground (arith, none_held, select_any (holds schedule.id seat) db.bookings)
    | inr (x, [], held) ↦
        ground (arith, held, any_of_select (holds schedule.id seat) db.bookings held)
    | inr (x, y ∷ rest, held) ↦ absurd (one_holder db v schedule.id seat x y rest held)
  ])
]

-- Summed over the seats.
pub rows_of_seats :
    (db : Db)
    → IsValid db
    → (schedule : Schedule) (xs : List Seat)
    → let rows = join_seats db schedule xs in
      (count_rows (λ _. true) rows ≡ count_rows (on_train db schedule) xs)
      × (count_rows is_free rows ≡ count_rows (is_open db schedule) xs)
unfolding join_seats
rows_of_seats db v schedule [] = (refl, refl)
rows_of_seats db v schedule (seat ∷ xs) =
    let rows = rows_in (compartment_of db seat) db schedule seat in
    ground (
      arith,
      rows_of_seat db v schedule seat,
      rows_of_seats db v schedule xs,
      count_rows-++ (λ _. true) rows (join_seats db schedule xs),
      count_rows-++ is_free rows (join_seats db schedule xs),
    )

-- The status of the first of some bookings.
abbrev pub first_status : List Booking → Option Status
first_status [] = none
first_status (b ∷ bs) = some b.status

abbrev pub row_or_none : Option Compartment → Db → Schedule → Seat → Option SeatRow
row_or_none none db schedule seat = none
row_or_none (some c) db schedule seat =
    if c.train_id == schedule.train_id
    then some (seat_row seat c (first_status (select (holds schedule.id seat) db.bookings)))
    else none

-- The one row of a seat of the schedule's train: its details and those of its compartment, and the
-- status of the active booking that holds it, or none.
abbrev pub row_of : Db → Schedule → Seat → Option SeatRow
row_of db schedule seat = row_or_none (compartment_of db seat) db schedule seat

abbrev pub row_passes : (SeatRow → Bool) → Option SeatRow → Bool
row_passes q none = false
row_passes q (some row) = q row

row_in_rows :
    (db : Db)
    → IsValid db
    → (schedule : Schedule) (seat : Seat) (q : SeatRow → Bool)
    → count_rows q (rows_in (compartment_of db seat) db schedule seat)
      ≡ (if row_passes q (row_of db schedule seat) then 1 else 0)
row_in_rows db v schedule seat q = elim (Option-cases (compartment_of db seat)) [
  | inl e ↦ rw e refl
  | inr (c, e) ↦ rw e (elim (List-cases (select (holds schedule.id seat) db.bookings)) [
    | inl none_held ↦ ground (arith, none_held)
    | inr (x, [], held) ↦ ground (arith, held)
    | inr (x, y ∷ rest, held) ↦ absurd (one_holder db v schedule.id seat x y rest held)
  ])
]

joined_rows :
    (db : Db)
    → IsValid db
    → (schedule : Schedule) (q : SeatRow → Bool) (xs : List Seat)
    → count_rows q (join_seats db schedule xs)
      ≡ count_rows (λ seat. row_passes q (row_of db schedule seat)) xs
unfolding join_seats
joined_rows db v schedule q [] = refl
joined_rows db v schedule q (seat ∷ xs) =
    let rows = rows_in (compartment_of db seat) db schedule seat in
    ground (
      arith,
      row_in_rows db v schedule seat q,
      joined_rows db v schedule q xs,
      count_rows-++ q rows (join_seats db schedule xs),
    )

-- The answer for a schedule and its train, without the cache, where the tables are valid: the totals
-- count the seats of the train, and those of them that no active booking of the schedule holds; and
-- the payload lists, in some order, exactly one row for each seat of the train, with the details of
-- the seat and of its compartment and the status of the active booking that holds it, if one does.
pub query_counts_seats :
    (order : OrderBy) (db : Db) (schedule_id : ℕ) (schedule : Schedule) (train : Train)
    → IsValid db
    → get_schedule schedule_id db ≡ some schedule
    → get_row (λ t. t.id) schedule.train_id db.trains ≡ some train
    → (p : SeatAvailability) × (query order db schedule_id ≡ ok (some p))
      × (p.total_seats ≡ count_rows (on_train db schedule) db.seats)
      × (p.available_seats ≡ count_rows (is_open db schedule) db.seats)
      × ((q : SeatRow → Bool)
          → count_rows q p.seats
            ≡ count_rows (λ seat. row_passes q (row_of db schedule seat)) db.seats)
unfolding query
query_counts_seats order db schedule_id schedule train v found on =
    (payload schedule train rows, ground (arith, found, on), total, open_seats, listed)
  where
    joined : List SeatRow
    joined = join_seats db schedule db.seats

    rows : List SeatRow
    rows = order.sort joined

    total : length rows ≡ count_rows (on_train db schedule) db.seats
    total =
        length_as_count rows
        ∙ order.count_rows-sort (λ _. true) joined
        ∙ (rows_of_seats db v schedule db.seats).0

    open_seats : count_rows is_free rows ≡ count_rows (is_open db schedule) db.seats
    open_seats = order.count_rows-sort is_free joined ∙ (rows_of_seats db v schedule db.seats).1

    listed :
        (q : SeatRow → Bool)
        → count_rows q rows ≡ count_rows (λ seat. row_passes q (row_of db schedule seat)) db.seats
    listed q = order.count_rows-sort q joined ∙ joined_rows db v schedule q db.seats
