-- ===== src/Bookings/Create.antt =====
-- `create_booking` of backend/app/bookings/service.py, up to the commit. An exception leaves the
-- session without a commit, so it stands for the database as it was.
use railbook.Base.{ℕ, ◌+◌, Bool, false, ◌&&◌, Option, none, some, is_some, ◌==◌}
use railbook.Base.Outcome.{
  Error, Result, ok, http, attribute_error, ◌>>=◌, ◌>>◌, raise_if, or_raise,
}
use railbook.Base.Rows.{get_row, select}
use railbook.Models.{Action, Status, Booking, Db, Env, for_seat, minutes}
use railbook.Models.Constraints.{scalar_one_or_none, insert_booking, delete_booking}
use railbook.Audit.{log_audit}
use railbook.Bookings.{calculate_price, is_active, get_schedule, is_overlapping}

abbrev pub seat_taken : Error
seat_taken = http 409 "Seat already booked for this schedule"

abbrev pub schedule_not_found : Error
schedule_not_found = http 404 "Schedule not found"

abbrev pub overlapping_journey : Error
overlapping_journey = http 409 "You have an overlapping journey"

abbrev pub seat_not_found : Error
seat_not_found = http 404 "Seat not found"

-- `existing_booking and existing_booking.status in ("reserved", "confirmed")`
abbrev pub holds_seat : Option Booking → Bool
holds_seat none = false
holds_seat (some b) = is_active b.status

-- The query of step 2.
abbrev pub is_at : ℕ → ℕ → Booking → Bool
is_at schedule_id seat_id b = (b.schedule_id == schedule_id) && (b.seat_id == seat_id)

abbrev pub new_booking : (user_id schedule_id seat_id idempotency_key price : ℕ) → Env → Booking
new_booking user_id schedule_id seat_id idempotency_key price env = record {
  id = env.uuid 0;
  user_id = user_id;
  schedule_id = schedule_id;
  seat_id = seat_id;
  status = Status.reserved;
  idempotency_key = idempotency_key;
  reserved_at = env.tx_time;
  expires_at = some (env.clock 0 + minutes 5);
  confirmed_at = none;
  cancelled_at = none;
  total_amount = price;
}

-- Step 4: the price of the seat's compartment.
unfoldable pub seat_price : ℕ → Db → Result ℕ
unfolding calculate_price
seat_price seat_id db = do
  seat ← or_raise (get_row (λ s. s.id) seat_id db.seats) seat_not_found
  compartment ← or_raise (get_row (λ c. c.id) seat.compartment_id db.compartments) attribute_error
  ok (calculate_price compartment.comp_type)

-- A cancelled or refunded booking of the same seat is removed first.
unfoldable pub remove_old : Option Booking → Db → Result Db
unfolding delete_booking
remove_old none db = ok db
remove_old (some old) db = delete_booking old db

-- Steps 5 and 6: the row, and its audit entry in the same transaction.
unfoldable pub add_reserved : Booking → Env → Db → Result (Booking × Db)
unfolding insert_booking log_audit
add_reserved booking env db = do
  db₁ ← insert_booking booking db
  db₂ ←
      log_audit booking.id booking.user_id Action.reserved none Status.reserved
        (some (for_seat booking.schedule_id booking.seat_id)) env.ip_address env.tx_time db₁
  ok (booking, db₂)

-- Steps 2 to 6, for an idempotency key that no booking has.
unfoldable pub reserve_seat :
    (user_id schedule_id seat_id idempotency_key : ℕ) → Env → Db → Result (Booking × Db)
reserve_seat user_id schedule_id seat_id idempotency_key env db = do
  existing_booking ← scalar_one_or_none (select (is_at schedule_id seat_id) db.bookings)
  raise_if (holds_seat existing_booking) seat_taken
  schedule ← or_raise (get_schedule schedule_id db) schedule_not_found
  overlap ← scalar_one_or_none (select (is_overlapping db user_id schedule) db.bookings)
  raise_if (is_some overlap) overlapping_journey
  price ← seat_price seat_id db
  db₁ ← remove_old existing_booking db
  add_reserved (new_booking user_id schedule_id seat_id idempotency_key price env) env db₁

-- Step 1: a key that is already used returns its booking.
abbrev pub reuse_or : Option Booking → Db → Result (Booking × Db) → Result (Booking × Db)
reuse_or (some found) db other = ok (found, db)
reuse_or none db other = other

unfoldable pub create_booking :
    (user_id schedule_id seat_id idempotency_key : ℕ) → Env → Db → Result (Booking × Db)
create_booking user_id schedule_id seat_id idempotency_key env db = do
  existing ← scalar_one_or_none (select (λ b. b.idempotency_key == idempotency_key) db.bookings)
  reuse_or existing db (reserve_seat user_id schedule_id seat_id idempotency_key env db)
