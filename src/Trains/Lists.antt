-- ===== src/Trains/Lists.antt =====
-- `list_trains` and `list_schedules` of backend/app/trains/service.py, which the routes of router.py
-- return as they are, and the route `get_seats`.
use railbook.Base.{ℕ, ◌≡◌, Bool, ◌&&◌, Option, List, ◌==◌, ltb}
use railbook.Base.Outcome.{Result, ◌>>=◌, or_raise}
use railbook.Base.Rows.{select, count_rows}
use railbook.Models.{Train, Schedule, Db}
use railbook.Bookings.Create.{schedule_not_found}
use railbook.Redis.{Redis, Json}
use railbook.Trains.{SeatAvailability, OrderBy, get_seat_availability}

-- `ORDER BY`: the same rows, each as often as before.
pub record Ordering (A : Type 0) : Type 0 where
  pub sort : List A → List A
  pub count_rows-sort : (p : A → Bool) (xs : List A) → count_rows p (sort xs) ≡ count_rows p xs

unfoldable pub list_trains : Ordering Train → Db → List Train
list_trains order db = order.sort db.trains

-- The departures of a train that are still to come.
abbrev pub is_coming : (train_id now : ℕ) → Schedule → Bool
is_coming train_id now s = (s.train_id == train_id) && ltb now s.departure_time

unfoldable pub list_schedules : Ordering Schedule → (train_id now : ℕ) → Db → List Schedule
list_schedules order train_id now db = order.sort (select (is_coming train_id now) db.schedules)

-- A schedule that is not there is a 404.
unfoldable pub get_seats :
    (R : Redis)
    → Json SeatAvailability
    → OrderBy
    → Db
    → (schedule_id : ℕ) → Option R.State
    → (from to : ℕ) → Result SeatAvailability × Option R.State
get_seats R json order db schedule_id redis from to =
    let (result, redis') = get_seat_availability R json order db schedule_id redis from to in
    ((do found ← result; or_raise found schedule_not_found), redis')
