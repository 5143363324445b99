-- ===== src/Tests/Queries.antt =====
-- The theorems on the reading routes at concrete inputs: one booking, of user 1.
use railbook.Base.{◌≡◌, refl, Bool, ◌&&◌, some, List, map, ◌==◌}
use railbook.Base.Outcome.{ok}
use railbook.Base.Rows.{count_rows}
use railbook.Models.{Booking}
use railbook.Bookings.Queries.{BookingResponse, matches, NewestFirst, list_bookings}
use railbook.Integrity.{TimetableIsValid}
use railbook.Guarantees.Queries.{list_bookings_answers}
use railbook.Tests.Data.{booked, booked-IsValid}

pub timetable : TimetableIsValid booked
timetable = record {
  trains = (refl, (refl, (refl, tt)));
  compartments = (refl, (refl, (refl, tt)));
  schedules = ((refl, (refl, tt)), ((refl, tt), (tt, tt)));
}

abbrev pub as_inserted : NewestFirst
as_inserted = record { sort = λ xs. xs; count_rows-sort = λ p xs. refl }

list_bookings_answers_example :
    (rs : List BookingResponse) × (list_bookings as_inserted 1 (some "reserved") booked ≡ ok rs)
    × ((q : Booking → Bool)
        → count_rows q (map (λ (r : BookingResponse). r.booking) rs)
          ≡ count_rows
              (λ b. q b && ((b.user_id == 1) && matches (some "reserved") b.status))
              booked.bookings)
list_bookings_answers_example =
    list_bookings_answers booked timetable as_inserted 1 (some "reserved") booked-IsValid
