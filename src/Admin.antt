-- ===== src/Admin.antt =====
-- backend/app/admin: `get_stats` and `get_occupancy` of service.py, and the lists of router.py. A sum
-- of amounts is in hundredths, a percentage in tenths. The routes answer to administrators only.
pub mod Revenue
pub mod Pages
pub mod Occupancy
pub mod Access
use railbook.Base.{
  ℕ, ◌+◌, ◌*◌, ◌/◌, ◌≡◌, String, Bool, ◌&&◌, Option, List, [], ◌∷◌, map, ◌==◌, leb, if◌then◌else◌,
}
use railbook.Base.Ints.{ℤ, pos, negsuc}
use railbook.Base.Outcome.{Result, ok, err, validation_error, database_error, ◌>>=◌}
use railbook.Base.Rows.{length, select, count_rows, take, drop}
use railbook.Models.{
  Status, same_status, is_success, Action, Metadata, AuditTrail, Schedule, Booking, Payment, Db,
}
use railbook.Bookings.{is_active}
use railbook.Bookings.Queries.{matches, NewestFirst}

-- `func.coalesce(func.sum(Payment.amount), 0)` over the successful payments.
unfoldable pub sum_amounts : List Payment → ℕ
sum_amounts [] = 0
sum_amounts (p ∷ ps) = (if is_success p.status then p.amount else 0) + sum_amounts ps

pub record Stats : Type 0 where
  pub total_bookings : ℕ
  pub confirmed_bookings : ℕ
  pub cancelled_bookings : ℕ
  pub refunded_bookings : ℕ
  pub total_revenue : ℕ

abbrev pub count_status : Status → Db → ℕ
count_status s db = count_rows (λ b. same_status b.status s) db.bookings

unfoldable pub get_stats : Db → Stats
unfolding sum_amounts
get_stats db = record {
  total_bookings = length db.bookings;
  confirmed_bookings = count_status Status.confirmed db;
  cancelled_bookings = count_status Status.cancelled db;
  refunded_bookings = count_status Status.refunded db;
  total_revenue = sum_amounts db.payments;
}

-- The rows of the occupancy report.
pub record OccupancyRow : Type 0 where
  pub schedule_id : ℕ
  pub departure_time : ℕ
  pub train_id : ℕ
  pub booked_seats : ℕ
  pub total_seats : ℕ
  pub occupancy_pct : ℕ

-- The active bookings that the outer join finds for a schedule.
abbrev pub booked : Db → Schedule → ℕ
booked db s = count_rows (λ b. (b.schedule_id == s.id) && is_active b.status) db.bookings

-- `round(booked / 50 * 100, 1)`, in tenths of a percent.
abbrev pub occupancy_row : Db → Schedule → OccupancyRow
occupancy_row db s = record {
  schedule_id = s.id;
  departure_time = s.departure_time;
  train_id = s.train_id;
  booked_seats = booked db s;
  total_seats = 50;
  occupancy_pct = booked db s * 1000 / 50;
}

-- `ORDER BY Schedule.departure_time`: the same schedules, each as often as before.
pub record ByDeparture : Type 0 where
  pub sort : List Schedule → List Schedule
  pub count_rows-sort :
      (p : Schedule → Bool) (xs : List Schedule) → count_rows p (sort xs) ≡ count_rows p xs

unfoldable pub get_occupancy : ByDeparture → Db → List OccupancyRow
get_occupancy order db = map (occupancy_row db) (order.sort db.schedules)

-- What the route shows of a booking.
pub record BookingSummary : Type 0 where
  pub id : ℕ
  pub user_id : ℕ
  pub schedule_id : ℕ
  pub seat_id : ℕ
  pub status : Status
  pub total_amount : ℕ
  pub reserved_at : ℕ
  pub confirmed_at : Option ℕ

abbrev pub summary : Booking → BookingSummary
summary b = record {
  id = b.id;
  user_id = b.user_id;
  schedule_id = b.schedule_id;
  seat_id = b.seat_id;
  status = b.status;
  total_amount = b.total_amount;
  reserved_at = b.reserved_at;
  confirmed_at = b.confirmed_at;
}

-- `Query(50, le=200)`: there is no lower bound, and the database refuses a negative limit.
abbrev pub limited : ℤ → Result ℕ
limited (pos n) = if leb n 200 then ok n else err validation_error
limited (negsuc n) = err database_error

-- `Query(0, ge=0)`
abbrev pub offset_from : ℤ → Result ℕ
offset_from (pos n) = ok n
offset_from (negsuc n) = err validation_error

unfoldable pub list_all_bookings :
    NewestFirst → (status : Option String) (limit offset : ℤ) → Db → Result (List BookingSummary)
list_all_bookings order status limit offset db = do
  start ← offset_from offset
  n ← limited limit
  ok (
      map summary
        (take n (drop start (order.sort (select (λ b. matches status b.status) db.bookings)))))

-- What the route shows of an audit entry: the address is left out.
pub record AuditSummary : Type 0 where
  pub id : ℕ
  pub booking_id : ℕ
  pub user_id : ℕ
  pub action : Action
  pub previous_status : Option Status
  pub new_status : Status
  pub metadata : Metadata
  pub created_at : ℕ

abbrev pub audit_summary : AuditTrail → AuditSummary
audit_summary e = record {
  id = e.id;
  booking_id = e.booking_id;
  user_id = e.user_id;
  action = e.action;
  previous_status = e.previous_status;
  new_status = e.new_status;
  metadata = e.metadata;
  created_at = e.created_at;
}

-- The query parameter `booking_id`: an empty text is no filter, and the database refuses a text that
-- is no UUID.
pub data AuditFilter : Type 0 where
  every_booking malformed : AuditFilter
  of_booking : ℕ → AuditFilter

abbrev pub filtered : AuditFilter → List AuditTrail → Result (List AuditTrail)
filtered every_booking es = ok es
filtered malformed es = err database_error
filtered (of_booking k) es = ok (select (λ e. e.booking_id == k) es)

-- `ORDER BY AuditTrail.created_at DESC`: the same entries, each as often as before.
pub record LatestFirst : Type 0 where
  pub sort : List AuditTrail → List AuditTrail
  pub count_rows-sort :
      (p : AuditTrail → Bool) (xs : List AuditTrail) → count_rows p (sort xs) ≡ count_rows p xs

unfoldable pub audit_trail :
    LatestFirst → AuditFilter → (limit : ℤ) → Db → Result (List AuditSummary)
audit_trail order booking_id limit db = do
  n ← limited limit
  wanted ← filtered booking_id db.audit_trail
  ok (map audit_summary (take n (order.sort wanted)))
