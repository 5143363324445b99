-- ===== src/Trains.antt =====
-- `get_seat_availability` of backend/app/trains/service.py, and `_invalidate_seat_cache` of
-- backend/app/bookings/service.py. `ORDER BY` is a parameter: the collation is the database's.
pub mod Availability
pub mod Bookings
pub mod Cache
pub mod Lists
pub mod Offers
use railbook.Base.{
  ℕ, ◌≡◌, String, Bool, not, ◌&&◌, Option, none, some, is_some, List, [], ◌∷◌, ◌++◌, map, ◌==◌,
  eq_text, if◌then◌else◌,
}
use railbook.Base.Outcome.{Result, ok, attribute_error, ◌>>=◌, or_raise}
use railbook.Base.Rows.{length, select, count_rows, get_row}
use railbook.Models.{Status, Train, Schedule, Compartment, Seat, Booking, Db}
use railbook.Bookings.{is_active, get_schedule}
use railbook.Redis.{Key, seats, Redis, Json}

pub record SeatRow : Type 0 where
  pub id : ℕ
  pub seat_number : ℕ
  pub position : String
  pub compartment_name : String
  pub comp_type : String
  pub booking_status : Option Status

pub record SeatAvailability : Type 0 where
  pub schedule_id : ℕ
  pub train_name : String
  pub total_seats : ℕ
  pub available_seats : ℕ
  pub seats : List SeatRow

-- `ORDER BY Compartment.name, Seat.seat_number`: the same rows, each as often as before.
pub record OrderBy : Type 0 where
  pub sort : List SeatRow → List SeatRow
  pub count_rows-sort :
      (p : SeatRow → Bool) (xs : List SeatRow) → count_rows p (sort xs) ≡ count_rows p xs

-- The condition of the outer join.
abbrev pub holds : (schedule_id : ℕ) → Seat → Booking → Bool
holds schedule_id seat b =
    (b.seat_id == seat.id) && ((b.schedule_id == schedule_id) && is_active b.status)

abbrev pub seat_row : Seat → Compartment → Option Status → SeatRow
seat_row seat c booking_status = record {
  id = seat.id;
  seat_number = seat.seat_number;
  position = seat.position;
  compartment_name = c.name;
  comp_type = c.comp_type;
  booking_status = booking_status;
}

-- A seat without a matching booking has one row, with NULL for the status.
abbrev pub statuses : List Booking → List (Option Status)
statuses [] = none ∷ []
statuses (b ∷ bs) = map (λ (x : Booking). some x.status) (b ∷ bs)

-- The join of one seat: its compartment has to be one of the schedule's train.
abbrev pub rows_in : Option Compartment → Db → Schedule → Seat → List SeatRow
rows_in none db schedule seat = []
rows_in (some c) db schedule seat =
    if c.train_id == schedule.train_id
    then map (seat_row seat c) (statuses (select (holds schedule.id seat) db.bookings))
    else []

abbrev pub compartment_of : Db → Seat → Option Compartment
compartment_of db seat = get_row (λ c. c.id) seat.compartment_id db.compartments

unfoldable pub join_seats : Db → Schedule → List Seat → List SeatRow
join_seats db schedule [] = []
join_seats db schedule (seat ∷ rest) =
    rows_in (compartment_of db seat) db schedule seat ++ join_seats db schedule rest

abbrev pub is_free : SeatRow → Bool
is_free row = not (is_some row.booking_status)

abbrev pub payload : Schedule → Train → List SeatRow → SeatAvailability
payload schedule train rows = record {
  schedule_id = schedule.id;
  train_name = train.name;
  total_seats = length rows;
  available_seats = count_rows is_free rows;
  seats = rows;
}

-- From `# Query DB` to the payload; `none` is the route's 404.
unfoldable pub query : OrderBy → Db → ℕ → Result (Option SeatAvailability)
query order db schedule_id = elim (get_schedule schedule_id db) [
  | none ↦ ok none
  | some schedule ↦ do
    train ← or_raise (get_row (λ t. t.id) schedule.train_id db.trains) attribute_error
    ok (some (payload schedule train (order.sort (join_seats db schedule db.seats))))
]

module _ (R : Redis) (json : Json SeatAvailability) where
  -- What the cache answers: an empty text counts as nothing, and a call that raises is logged.
  abbrev pub cached_text : Option (Option String) → Option SeatAvailability
  cached_text (some (some text)) = if eq_text text "" then none else json.loads text
  cached_text _ = none

  abbrev pub read_cache : Option R.State → (now schedule_id : ℕ) → Option SeatAvailability
  read_cache none now schedule_id = none
  read_cache (some s) now schedule_id = cached_text (R.get now (seats schedule_id) s)

  abbrev pub kept : R.State → Option R.State → R.State
  kept s none = s
  kept s (some s') = s'

  -- `redis.set(cache_key, json.dumps(payload), ex=5)`, for a payload that was computed.
  abbrev pub write_cache :
      Option R.State → (now schedule_id : ℕ) → Result (Option SeatAvailability) → Option R.State
  write_cache (some s) now schedule_id (ok (some p)) =
      some (kept s (R.set now (seats schedule_id) (json.dumps p) 5 s))
  write_cache redis now schedule_id other = redis

  abbrev pub cached_or :
      Option SeatAvailability
      → Result (Option SeatAvailability)
      → Option R.State
      → (now schedule_id : ℕ) → Result (Option SeatAvailability) × Option R.State
  cached_or (some p) other redis now schedule_id = (ok (some p), redis)
  cached_or none other redis now schedule_id = (other, write_cache redis now schedule_id other)

  -- The cache is read at `from`, and written at `to`.
  unfoldable pub get_seat_availability :
      OrderBy
      → Db
      → (schedule_id : ℕ) → Option R.State
      → (from to : ℕ) → Result (Option SeatAvailability) × Option R.State
  get_seat_availability order db schedule_id redis from to =
      cached_or (read_cache redis from schedule_id) (query order db schedule_id) redis to
        schedule_id

  -- Best effort: a call that raises leaves the cache as it was.
  unfoldable pub invalidate_seat_cache : ℕ → R.State → R.State
  invalidate_seat_cache schedule_id s = kept s (R.delete (seats schedule_id) s)
