-- ===== src/Tests/Admin.antt =====
-- The theorems on the statistics and the lists of the administrators, at concrete inputs.
use railbook.Base.{List, true, some, ◌+◌, ◌≡◌, refl, none, [], ◌∷◌, map, ◌==◌, ◌||◌, arith}
use railbook.Base.Outcome.{ok, err, http, validation_error, database_error}
use railbook.Base.Ints.{pos, negsuc}
use railbook.Base.Rows.{select, any_row}
use railbook.Models.{Status, User, Db}
use railbook.Integrity.{charges, IsValid}
use railbook.System
use railbook.System.{World, Request, run, serve}
use railbook.Auth.{create_access_token, register, require_admin, get_current_user, get_user_by_id}
use railbook.Api.{user_of}
use railbook.Admin.Access.{stats, admins, admin_answer, admin_handle, only_admins_answered}
use railbook.Models.Constraints.{insert_audit}
use railbook.Bookings.Create.{
  new_booking, create_booking, reserve_seat, seat_price, remove_old, add_reserved,
}
use railbook.Admin.{count_status, get_stats, summary, list_all_bookings, ByDeparture, get_occupancy}
use railbook.Admin.Revenue.{sum_prices, get_stats-bookings}
use railbook.Admin.Pages.{pages, pages-all_bookings}
use railbook.Admin.Occupancy.{sum_booked, get_occupancy-active}
use railbook.Tests.Crypto.{bcrypt, jwt}
use railbook.Tests.Data.{
  railway, opening, user, paid, paid-IsValid, booked, booked-IsValid, reservation, env_at,
}
use railbook.Tests.Queries.{as_inserted, timetable}

abbrev two_booked : Db
two_booked = record booked {
  bookings = new_booking 2 11 31 501 150000 (env_at 1 101) ∷ reservation ∷ [];
}

abbrev by_departure : ByDeparture
by_departure = record { sort = λ xs. xs; count_rows-sort = λ p xs. refl }

get_stats-bookings_example :
    let s = get_stats paid.1 in
    (s.total_bookings
      ≡ s.confirmed_bookings
        + s.cancelled_bookings
        + s.refunded_bookings
        + count_status Status.reserved paid.1)
    × (s.total_revenue ≡ sum_prices (λ b. charges b.status) paid.1.bookings)
get_stats-bookings_example = get_stats-bookings paid.1 paid-IsValid

-- Two reservations, in pages of one.
pages-all_bookings_example :
    pages as_inserted none 1 0 2 two_booked ≡ ok (map summary two_booked.bookings)
pages-all_bookings_example =
    pages-all_bookings as_inserted none two_booked 1 2 (omega arith) (omega arith)

-- One reservation on a railway with three schedules.
get_occupancy-active_example : sum_booked (get_occupancy by_departure booked) ≡ 1
get_occupancy-active_example = get_occupancy-active by_departure booked booked-IsValid timetable

-- A limit of -1 passes the validation, and one of 201 does not.
negative_limit :
    (list_all_bookings as_inserted none (negsuc 0) (pos 0) booked ≡ err database_error)
    × (list_all_bookings as_inserted none (pos 201) (pos 0) booked ≡ err validation_error)
unfolding list_all_bookings
negative_limit = (refl, refl)

-- The two entries of a payment have the same time, so their order in the list is not determined.
same_time :
    map (λ e. e.created_at) (select (λ e. e.id == 2 || e.id == 3) paid.1.audit_trail) ≡ 2 ∷ 2 ∷ []
same_time = refl

-- A railway with an administrator, who asks for the statistics after a reservation and a registration.
abbrev administered : World
administered = record opening {
  db = record railway { users = record (user 5) { role = "admin" } ∷ railway.users };
}

administered-IsValid : IsValid administered.db
administered-IsValid = record {
  distinct = tt;
  apart = tt;
  rows = tt;
  refer = tt;
  priced = tt;
  paid = tt;
  payments_distinct = tt;
  audited = tt;
}

abbrev before : List Request
before =
    System.create 1 10 30 500 (env_at 0 100)
    ∷ System.register "new@example.com" "secret" "New" none 0 (env_at 1 6)
    ∷ []

only_admins_answered_example :
    (u : User) × (user_of bcrypt jwt
        (http 401 "Not authenticated")
        (some (create_access_token jwt 5 0 0))
        10
        (run bcrypt jwt before administered).db
      ≡ ok u)
    × (any_row (λ x. x.id == u.id) (admins administered.db) ≡ true)
unfolding admin_handle require_admin user_of admin_answer get_current_user get_user_by_id run serve
    register create_booking reserve_seat seat_price remove_old add_reserved insert_audit
only_admins_answered_example =
    only_admins_answered bcrypt jwt (http 401 "Not authenticated") as_inserted by_departure
      (record { sort = λ xs. xs; count_rows-sort = λ p xs. refl }) before administered
      (some (create_access_token jwt 5 0 0)) 10 stats administered-IsValid (refl, (refl, tt)) refl
