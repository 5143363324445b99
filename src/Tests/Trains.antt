-- ===== src/Tests/Trains.antt =====
-- The theorems on seat availability at concrete inputs, with a Redis that never fails.
use railbook.Base.Rows.{count_rows}
use railbook.Base.{
  Bool, ℕ, ◌+◌, ◌≡◌, refl, ap, String, Option, none, some, [], arith, ltb, if◌then◌else◌,
}
use railbook.Base.Outcome.{ok}
use railbook.Models.{Train, seconds}
use railbook.Models.Constraints.{insert_booking, insert_audit}
use railbook.Audit.{log_audit}
use railbook.Bookings.Create.{seat_price, remove_old, add_reserved, reserve_seat, create_booking}
use railbook.Redis.{Key, seats, same_key, same_key_self, Redis, Json}
use railbook.Trains.{SeatRow, SeatAvailability, OrderBy, query}
use railbook.Trains.Availability.{row_of, row_passes, query_counts_seats}
use railbook.Trains.Bookings.{create_booking-query}
use railbook.Trains.Lists.{list_schedules, get_seats}
use railbook.Trains.Offers.{list_schedules-get_seats}
use railbook.Tests.Queries.{timetable}
use railbook.Tests.Data.{
  railway, railway-IsValid, booked, booked-IsValid, reservation, schedule, seat, env_at,
}

abbrev alive : ℕ → Option (String × ℕ) → Option String
alive now none = none
alive now (some (text, until)) = if ltb until now then none else some text

abbrev pub Cells : Type 0
Cells = Key → Option (String × ℕ)

abbrev entry : Key → Option Cells → Option (String × ℕ)
entry k none = none
entry k (some cells) = cells k

abbrev pub store : Redis
store = record {
  State = Cells;
  get = λ now k s. some (alive now (s k));
  set = λ now k v ex s. some (λ j. if same_key j k then some (v, now + seconds ex) else s j);
  delete = λ k s. some (λ j. if same_key j k then none else s j);
  found-set = λ now later k v ex s stored found early.
      ground (arith, same_key_self k, ap (entry k) stored, found);
  expired-set = λ now later k v ex s stored found late.
      ground (arith, same_key_self k, ap (entry k) stored, found);
  found-delete = λ now k s gone found. ground (arith, same_key_self k, ap (entry k) gone, found);
}

abbrev pub cells : Cells
cells = λ k. none

-- `ORDER BY` where the rows come in order.
abbrev pub in_order : OrderBy
in_order = record { sort = λ xs. xs; count_rows-sort = λ p xs. refl }

-- A payload, and the text that stands for it in the cache.
abbrev payload_before : SeatAvailability
payload_before = record {
  schedule_id = 10;
  train_name = "Subarna Express";
  total_seats = 0;
  available_seats = 0;
  seats = [];
}

abbrev pub json : Json SeatAvailability
json = record { dumps = λ p. "{}"; loads = λ text. some payload_before; dumps_nonempty = λ p. refl }

abbrev subarna : Train
subarna = record {
  id = 1;
  name = "Subarna Express";
  train_number = "SE-701";
  origin = "Dhaka";
  destination = "Chittagong";
}

query_counts_seats_example :
    (p : SeatAvailability) × (query in_order booked 10 ≡ ok (some p))
    × (p.total_seats ≡ 3)
    × (p.available_seats ≡ 2)
    × ((q : SeatRow → Bool)
        → count_rows q p.seats
          ≡ count_rows (λ s. row_passes q (row_of booked (schedule 10 100 105) s)) booked.seats)
query_counts_seats_example =
    query_counts_seats in_order booked 10 (schedule 10 100 105) subarna booked-IsValid refl refl

create_booking-query_example :
    (before : SeatAvailability) × (after : SeatAvailability) × (query in_order railway 10
      ≡ ok (some before))
    × (query in_order booked 10 ≡ ok (some after))
    × (before.total_seats ≡ after.total_seats)
    × (before.available_seats ≡ after.available_seats + 1)
unfolding create_booking reserve_seat seat_price remove_old add_reserved insert_booking log_audit
    insert_audit
create_booking-query_example =
    create_booking-query in_order 1 10 30 500 (env_at 0 100) railway {r = (reservation, booked)}
      (schedule 10 100 105) subarna (seat 30 20) railway-IsValid
      ((refl, (refl, tt)), ((refl, tt), (tt, tt))) refl refl refl refl refl refl

abbrev stored : Cells
stored = λ k. if same_key k (seats 10) then some ("{}", 0 + seconds 5) else none

-- The first of the three departures, with nothing in the cache.
list_schedules-get_seats_example :
    (p : SeatAvailability) × ((get_seats store json in_order booked 10 (some cells) 0 1).0 ≡ ok p)
    × (p.schedule_id ≡ 10)
    × (p.train_name ≡ "Subarna Express")
unfolding list_schedules
list_schedules-get_seats_example =
    list_schedules-get_seats store json in_order
      (record { sort = λ xs. xs; count_rows-sort = λ p xs. refl }) booked 1 0 10 0 1 subarna
      (some cells) timetable refl (λ h. omega (arith, h)) refl
