-- ===== src/Bookings.antt =====
-- backend/app/bookings/service.py: what the handlers share.
pub mod Create
pub mod Pay
pub mod Refund
pub mod Queries
pub mod Cleanup
use railbook.Base.{
  ℕ, String, Bool, true, false, Option, none, some, List, [], ◌∷◌, ◌&&◌, ◌==◌, ltb, eq_text,
  if◌then◌else◌,
}
use railbook.Base.Rows.{get_row, select}
use railbook.Models.{Status, reserved, confirmed, Schedule, Booking, Db}

-- `Decimal("1500.00")` and `Decimal("800.00")`, in hundredths.
unfoldable pub calculate_price : String → ℕ
calculate_price comp_type = if eq_text comp_type "ac" then 150000 else 80000

-- `status in ("reserved", "confirmed")`
abbrev pub is_active : Status → Bool
is_active reserved = true
is_active confirmed = true
is_active _ = false

abbrev pub get_schedule : ℕ → Db → Option Schedule
get_schedule k db = get_row (λ s. s.id) k db.schedules

-- The two times of a journey: `a.departure_time < b.arrival_time` and
-- `a.arrival_time > b.departure_time`.
abbrev pub overlaps : Schedule → Schedule → Bool
overlaps a b = ltb a.departure_time b.arrival_time && ltb b.departure_time a.arrival_time

abbrev overlaps_found : Option Schedule → Schedule → Bool
overlaps_found none s = false
overlaps_found (some a) s = overlaps a s

-- The query of the journey overlap check: the user's active bookings, joined with their schedules.
abbrev pub is_overlapping : Db → ℕ → Schedule → Booking → Bool
is_overlapping db user_id schedule b =
    (b.user_id == user_id)
    && (is_active b.status && overlaps_found (get_schedule b.schedule_id db) schedule)
