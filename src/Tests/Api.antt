-- ===== src/Tests/Api.antt =====
-- The theorems on the guarded routes at a concrete run: a reservation with a token, one without, and a
-- sign-in.
use railbook.Base.{◌≤◌, ◌≡◌, refl, none, some, map, true, false, List, [], ◌∷◌, arith}
use railbook.Base.Outcome.{Error, http}
use railbook.Auth.{create_access_token, get_current_user, get_user_by_id}
use railbook.Redis.{rl_booking}
use railbook.Models.Constraints.{insert_audit}
use railbook.Bookings.Create.{create_booking, reserve_seat, seat_price, remove_old, add_reserved}
use railbook.Ratelimit.{check, rate_limit_booking, rate_limit_auth, run_guard}
use railbook.System
use railbook.System.{Request, run, serve}
use railbook.Api.{post_booking, post_login, Call, by_user, by_client, Backend, user_of, run_calls}
use railbook.Api.Effects.{is_handled, asked_in, run_calls_refines}
use railbook.Api.Limits.{handled_in, handled_in_window_bounded}
use railbook.Tests.Crypto.{bcrypt, jwt}
use railbook.Tests.Data.{opening, env_at}
use railbook.Tests.Ratelimit.{in_memory, is_up, empty_store}
use railbook.Tests.Trains.{store, cells, json}

abbrev no_header : Error
no_header = http 401 "Not authenticated"

abbrev calls : List (Call jwt)
calls =
    by_user (some (create_access_token jwt 1 0 0)) 10 (post_booking 10 30 500 (env_at 0 100))
    ∷ by_user none 20 (post_booking 11 31 501 (env_at 1 101))
    ∷ by_client none 30 (post_login "someone@example.com" "secret" (env_at 2 102))
    ∷ []

abbrev backend : Backend store in_memory
backend = record { world = opening; cache = cells; limiter = some empty_store }

-- The first and the last of the three are handled, and the first asks for a reservation.
run_calls_refines_example :
    let (replies, b) = run_calls bcrypt jwt no_header store json in_memory calls backend in
    (map (is_handled bcrypt jwt no_header store json in_memory) replies ≡ true ∷ false ∷ true ∷ [])
    × (b.world ≡ run bcrypt jwt (System.create 1 10 30 500 (env_at 0 100) ∷ []) opening)
unfolding asked_in user_of get_current_user get_user_by_id run_guard rate_limit_booking
    rate_limit_auth check run serve create_booking reserve_seat seat_price remove_old add_reserved
    insert_audit
run_calls_refines_example =
    run_calls_refines bcrypt jwt no_header store json in_memory calls backend

handled_in_window_bounded_example :
    handled_in bcrypt jwt no_header store json in_memory 0 (rl_booking 1) calls backend ≤ 5
handled_in_window_bounded_example =
    handled_in_window_bounded bcrypt jwt no_header store json in_memory calls opening cells
      empty_store 0 (rl_booking 1) is_up (λ j. refl) (omega arith, (omega arith, (omega arith, tt)))
