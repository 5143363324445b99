-- ===== src/Tests/Loadgen.antt =====
-- A sniper and a buyer against the backend of the tests.
use railbook.Base.{ℕ, ◌+◌, ◌≡◌, refl, false, none, some, List, [], ◌∷◌, map, arith, ◌==◌}
use railbook.Base.Outcome.{Error, http}
use railbook.Models.{Status, Train, Schedule, Booking, hours, minutes}
use railbook.Bookings.Cleanup.{cleanup_pass}
use railbook.Auth.{register, create_access_token, get_user_by_id, get_current_user}
use railbook.Ratelimit.{check, rate_limit_booking, rate_limit_payment, rate_limit_auth, run_guard}
use railbook.Trains.Lists.{Ordering, get_seats}
use railbook.Trains.{query, join_seats, get_seat_availability}
use railbook.Models.Constraints.{insert_audit}
use railbook.Payments.{charge}
use railbook.Bookings.Create.{create_booking, reserve_seat, seat_price, remove_old, add_reserved}
use railbook.Bookings.Pay.{pay_booking, finish, prepare, payable, settle_success}
use railbook.Bookings.Queries.{enrich_booking}
use railbook.Routes.{create, pay}
use railbook.Api.{user_of, user_handler, handle}
use railbook.Loadtest.{exit_code}
use railbook.Loadgen.{
  register_user, SeatSniper, TicketBuyer, go_on, first_available, get_available_seat,
}
use railbook.Loadgen.Accounts.{register_user_twice}
use railbook.Loadgen.Buyers
use railbook.Loadgen.Tasks.{
  Task, start_mixed, my_bookings, health, start_buyer, start_sniper, browse_trains, book_and_pay,
}
use railbook.Loadgen.Tasks
use railbook.Loadgen.Runs.{Activity, visit, cleanup, run_load, load_test_passes}
use railbook.Loadgen.Backends.{Moment, Running, backend_service}
use railbook.Loadgen.Snipers.{snipe_seat}
use railbook.Loadgen.Snipes.{Sniped, snipe_seat-outcome}
use railbook.Tests.Crypto.{bcrypt, jwt}
use railbook.Tests.Data.{user, booked, booked-IsValid, schedule, opening, env_at}
use railbook.Tests.Ratelimit.{in_memory, empty_store}
use railbook.Tests.Queries.{as_inserted}
use railbook.Tests.Trains.{store, cells, json, in_order}

abbrev no_header : Error
no_header = http 401 "Not authenticated"

abbrev by_name : Ordering Train
by_name = record { sort = λ xs. xs; count_rows-sort = λ p xs. refl }

abbrev by_departure : Ordering Schedule
by_departure = record { sort = λ xs. xs; count_rows-sort = λ p xs. refl }

abbrev moments : ℕ → Moment
moments n = record {
  now = 10 + n;
  env = env_at (10 + n) (200 + n);
  salt = n;
  draw = 7;
  hex = "0badcafe";
}

-- Seat 30 is reserved by user 1.
abbrev start :
    Running bcrypt jwt no_header store json in_memory in_order by_name by_departure as_inserted none
      moments
start = record {
  backend = record {
    world = record opening { db = booked };
    cache = cells;
    limiter = some empty_store;
  };
  requests = 0;
}

abbrev sniper : SeatSniper jwt.Token
sniper = record {
  headers = record { bearer = create_access_token jwt 2 0 0 };
  target_schedule = some 10;
}

snipe_seat-outcome_example :
    Sniped 2 900
      (env_at 11 201)
      (schedule 10 100 105)
      start.backend.world
      (snipe_seat
        (backend_service bcrypt jwt no_header store json in_memory in_order by_name by_departure
          as_inserted none moments)
        900
        sniper
        start).1.backend.world
unfolding user_of get_current_user get_user_by_id check rate_limit_booking run_guard
snipe_seat-outcome_example =
    snipe_seat-outcome bcrypt jwt no_header store json in_memory in_order by_name by_departure
      as_inserted none moments start (schedule 10 100 105) _ refl refl refl sniper 900 (user 2) refl
      refl refl booked-IsValid ((refl, (refl, tt)), ((refl, tt), (tt, tt))) refl refl refl

-- A buyer of a signed-in user who has seen the first schedule.
abbrev buyer : TicketBuyer jwt.Token
buyer = record {
  headers = record { bearer = create_access_token jwt 2 0 0 };
  trains = [];
  schedules = schedule 10 100 105 ∷ [];
}

abbrev activities : List (Activity jwt.Token)
activities =
    visit (start_buyer "loadtest-1@test.com")
    ∷ visit (start_sniper "loadtest-2@test.com")
    ∷ visit (browse_trains buyer)
    ∷ visit (book_and_pay 900 901 buyer)
    ∷ cleanup (hours 1) (λ k. k == 100)
    ∷ visit (Tasks.snipe_seat 902 sniper)
    ∷ visit (start_mixed "loadtest-3@test.com")
    ∷ visit (my_bookings buyer.headers)
    ∷ visit health
    ∷ []

load_test_passes_example :
    exit_code (hours 2 + minutes 1) (
      cleanup_pass
        (hours 2)
        (λ _. false)
        (run_load bcrypt jwt no_header store json in_memory in_order by_name by_departure
          as_inserted none moments activities start).backend.world.db)
    ≡ 0
load_test_passes_example =
    load_test_passes bcrypt jwt no_header store json in_memory in_order by_name by_departure
      as_inserted none moments activities start (hours 2) (hours 2 + minutes 1)
      (booked-IsValid, refl) (omega arith)

-- The buyer books seat 31 and pays for it.
buyer_books :
    let s =
      (Buyers.book_and_pay
        (backend_service bcrypt jwt no_header store json in_memory in_order by_name by_departure
          as_inserted none moments)
        900
        901
        buyer
        start).1 in
    map (λ (b : Booking). b.status) s.backend.world.db.bookings
    ≡ Status.reserved ∷ Status.confirmed ∷ []
unfolding Buyers.book_and_pay get_available_seat first_available go_on get_seats
    get_seat_availability query join_seats user_of get_current_user get_user_by_id check
    rate_limit_booking rate_limit_payment run_guard handle user_handler create create_booking
    reserve_seat seat_price remove_old add_reserved insert_audit enrich_booking pay pay_booking
    finish prepare payable charge settle_success
buyer_books = refl

-- The id of the new user is 200, and the second call is the third request.
register_user_twice_example :
    let service =
      backend_service bcrypt jwt no_header store json in_memory in_order by_name by_departure
        as_inserted none moments in
    let (first, s₁) = register_user service "loadtest-1@test.com" start in
    let (second, _) = register_user service "loadtest-1@test.com" s₁ in
    (first ≡ some ("loadtest-1@test.com", create_access_token jwt 200 10 11))
    × (second ≡ some ("loadtest-1@test.com", create_access_token jwt 200 12 13))
unfolding register check rate_limit_auth run_guard
register_user_twice_example =
    register_user_twice bcrypt jwt no_header store json in_memory in_order by_name by_departure
      as_inserted none moments "loadtest-1@test.com" start _ refl refl refl refl
