-- ===== src/Admin/Occupancy.antt =====
-- The booked seats of the occupancy report, against the bookings.
use railbook.Base.{
  ℕ, ◌+◌, ◌≡◌, refl, ap, sym, ◌∙◌, Bool, true, false, ◌&&◌, List, [], ◌∷◌, map, arith, inl, inr,
  Bool-cases, ◌==◌, if◌then◌else◌,
}
use railbook.Base.Rows.{count_rows, has_row, All, AllPairs}
use railbook.Base.Rows.Laws.{All-map}
use railbook.Models.{Schedule, Booking, Db}
use railbook.Models.Constraints.{booking_refs}
use railbook.Bookings.{is_active}
use railbook.Integrity.{IsValid, TimetableIsValid}
use railbook.Admin.{OccupancyRow, booked, occupancy_row, ByDeparture, get_occupancy}

-- The booked seats of all the rows of the report.
abbrev pub sum_booked : List OccupancyRow → ℕ
sum_booked [] = 0
sum_booked (r ∷ rs) = r.booked_seats + sum_booked rs

-- The schedules of the list that a booking is for.
abbrev of_booking : Booking → Schedule → Bool
of_booking b s = b.schedule_id == s.id

-- The booked seats, counted from the bookings.
abbrev seats_of : List Schedule → List Booking → ℕ
seats_of ss [] = 0
seats_of ss (b ∷ bs) =
    (if is_active b.status then count_rows (of_booking b) ss else 0) + seats_of ss bs

none_of : (bs : List Booking) → seats_of [] bs ≡ 0
none_of [] = refl
none_of (b ∷ bs) = ground (arith, none_of bs)

one_more :
    (s : Schedule) (ss : List Schedule) (bs : List Booking)
    → seats_of (s ∷ ss) bs
      ≡ count_rows (λ b. (b.schedule_id == s.id) && is_active b.status) bs + seats_of ss bs
one_more s ss [] = refl
one_more s ss (b ∷ bs) = ground (arith, one_more s ss bs)

sum_seats :
    (db : Db) (ss : List Schedule)
    → sum_booked (map (occupancy_row db) ss) ≡ seats_of ss db.bookings
sum_seats db [] = sym (none_of db.bookings)
sum_seats db (s ∷ ss) =
    ap (λ n. booked db s + n) (sum_seats db ss) ∙ sym (one_more s ss db.bookings)

count_none :
    (k : ℕ) (ss : List Schedule)
    → All (λ s. (k == s.id) ≡ false) ss
    → count_rows (λ s. k == s.id) ss ≡ 0
count_none k [] h = refl
count_none k (s ∷ ss) h = ground (arith, count_none k ss h.1)

count_one :
    (k : ℕ) (ss : List Schedule)
    → AllPairs (λ x y. (x.id == y.id) ≡ false) ss
    → has_row (λ (s : Schedule). s.id) k ss ≡ true
    → count_rows (λ s. k == s.id) ss ≡ 1
count_one k [] d h = cc
count_one k (s ∷ ss) d h = elim (Bool-cases (s.id == k)) [
  | inl hit ↦ ground (
    arith,
    hit,
    count_none k ss (
        All-map (λ z. (s.id == z.id) ≡ false) (λ z. (k == z.id) ≡ false) (λ z n. ground arith) ss
          d.0),
  )
  | inr miss ↦ ground (arith, miss, count_one k ss d.1)
]

module _ (order : ByDeparture) (ss : List Schedule)
    (d : AllPairs (λ x y. (x.id == y.id) ≡ false) ss) where
  seats_active :
      (bs : List Booking)
      → All (λ b. has_row (λ (s : Schedule). s.id) b.schedule_id ss ≡ true) bs
      → seats_of (order.sort ss) bs ≡ count_rows (λ b. is_active b.status) bs
  seats_active [] h = refl
  seats_active (b ∷ bs) h =
      let once = order.count_rows-sort (of_booking b) ss ∙ count_one b.schedule_id ss d h.0 in
      ground (arith, once, seats_active bs h.1)

-- In valid tables with a valid timetable, the occupancy report counts each active booking in one
-- row, and no other booking: its booked seats add up to the active bookings.
pub get_occupancy-active :
    (order : ByDeparture) (db : Db)
    → IsValid db
    → TimetableIsValid db
    → sum_booked (get_occupancy order db) ≡ count_rows (λ b. is_active b.status) db.bookings
unfolding get_occupancy
get_occupancy-active order db v t =
    sum_seats db (order.sort db.schedules)
    ∙ seats_active order db.schedules t.schedules db.bookings (
        All-map (λ b. booking_refs db b ≡ true)
          (λ b. has_row (λ (s : Schedule). s.id) b.schedule_id db.schedules ≡ true)
          (λ b r. ground (arith, r)) db.bookings v.refer)
