-- ===== src/Bookings/Queries.antt =====
-- The reading half of backend/app/bookings/service.py, and the routes of router.py that use it.
use railbook.Base.{
  ℕ, ◌≡◌, String, Bool, true, ◌&&◌, Option, none, some, List, [], ◌∷◌, ◌==◌, eq_text, if◌then◌else◌,
}
use railbook.Base.Outcome.{Result, ok, attribute_error, ◌>>=◌, or_raise}
use railbook.Base.Rows.{select, count_rows, get_row}
use railbook.Models.{Status, status_text, Train, Schedule, Compartment, Seat, Booking, Db}
use railbook.Models.Constraints.{scalar_one_or_none}
use railbook.Bookings.{get_schedule}

-- `BookingResponse`: the booking with details of its train and its seat.
pub record BookingResponse : Type 0 where
  pub booking : Booking
  pub train_name : String
  pub train_number : String
  pub origin : String
  pub destination : String
  pub compartment_name : String
  pub comp_type : String
  pub seat_number : ℕ
  pub departure_time : ℕ
  pub arrival_time : ℕ

abbrev pub response : Booking → Schedule → Train → Seat → Compartment → BookingResponse
response booking schedule train seat compartment = record {
  booking = booking;
  train_name = train.name;
  train_number = train.train_number;
  origin = train.origin;
  destination = train.destination;
  compartment_name = compartment.name;
  comp_type = compartment.comp_type;
  seat_number = seat.seat_number;
  departure_time = schedule.departure_time;
  arrival_time = schedule.arrival_time;
}

unfoldable pub enrich_booking : Db → Booking → Result BookingResponse
enrich_booking db booking = do
  schedule ← or_raise (get_schedule booking.schedule_id db) attribute_error
  train ← or_raise (get_row (λ t. t.id) schedule.train_id db.trains) attribute_error
  seat ← or_raise (get_row (λ s. s.id) booking.seat_id db.seats) attribute_error
  compartment ← or_raise (get_row (λ c. c.id) seat.compartment_id db.compartments) attribute_error
  ok (response booking schedule train seat compartment)

-- `[await enrich_booking(session, b) for b in bookings]`
unfoldable pub enrich_all : Db → List Booking → Result (List BookingResponse)
unfolding enrich_booking
enrich_all db [] = ok []
enrich_all db (b ∷ bs) = do r ← enrich_booking db b; rs ← enrich_all db bs; ok (r ∷ rs)

-- `if status_filter`: an empty filter is none. A filter that names no status matches nothing.
abbrev pub matches : Option String → Status → Bool
matches none s = true
matches (some wanted) s = if eq_text wanted "" then true else eq_text (status_text s) wanted

-- `ORDER BY reserved_at DESC`: the same rows, each as often.
pub record NewestFirst : Type 0 where
  pub sort : List Booking → List Booking
  pub count_rows-sort :
      (p : Booking → Bool) (xs : List Booking) → count_rows p (sort xs) ≡ count_rows p xs

unfoldable pub list_user_bookings : NewestFirst → (user_id : ℕ) → Option String → Db → List Booking
list_user_bookings order user_id status_filter db =
    order.sort (select (λ b. (b.user_id == user_id) && matches status_filter b.status) db.bookings)

unfoldable pub get_booking : (booking_id : ℕ) → Db → Result (Option Booking)
get_booking booking_id db = scalar_one_or_none (select (λ b. b.id == booking_id) db.bookings)

-- `list_bookings` and `get` of the router, for the user who is signed in.
unfoldable pub list_bookings :
    NewestFirst → (user_id : ℕ) → Option String → Db → Result (List BookingResponse)
unfolding enrich_all list_user_bookings
list_bookings order user_id status db = enrich_all db (list_user_bookings order user_id status db)

unfoldable pub get : (booking_id user_id : ℕ) → Db → Result BookingResponse
unfolding get_booking enrich_booking
get booking_id user_id db = do
  found ← get_booking booking_id db
  booking ← or_raise found attribute_error
  enrich_booking db booking
