-- ===== src/Tests/Routes.antt =====
-- The theorems on the routes at concrete inputs, on the railway of the tests.
use railbook.Base.{refl, none, some, List, [], ◌∷◌, false, if◌then◌else◌}
use railbook.Models.{hours, seconds}
use railbook.Payments.{payment_gateway}
use railbook.Bookings.Create.{create_booking}
use railbook.Bookings.Pay.{pay_booking}
use railbook.Bookings.Refund.{refund_booking}
use railbook.Redis.{seats, same_key}
use railbook.System
use railbook.System.{Request, without_answer, run}
use railbook.Routes.{create, pay, refund}
use railbook.Routes.Answers.{Answers}
use railbook.Routes.Reached.{run-routes_answer}
use railbook.Routes.Fresh.{IsFresh, routes-IsFresh}
use railbook.Tests.Crypto.{bcrypt, jwt}
use railbook.Tests.Data.{opening, railway-IsValid, booked, reservation, env_at}
use railbook.Tests.Queries.{timetable}
use railbook.Tests.Trains.{Cells, store, cells, json, in_order}

-- A reservation, its payment, and a cleanup pass; then requests of both passengers.
abbrev history : List Request
history =
    System.create 1 10 30 500 (env_at 0 100)
    ∷ System.pay 100 1 600 7 "0badcafe" (env_at 2 200)
    ∷ System.cleanup (hours 1) (λ _. false)
    ∷ []

run-routes_answer_example :
    let w = run bcrypt jwt history opening in
    Answers
      (create_booking 1 11 31 701 (env_at 5 300) w.db)
      (create store json 1 11 31 701 (env_at 5 300) w.db cells).answer
    × Answers
        (pay_booking 100 1 701 7 "0badcafe" (env_at 5 300) w.db w.gateway).0
        (pay store json 100 1 701 7 "0badcafe" (env_at 5 300) w.db w.gateway cells).0.answer
    × Answers
        (without_answer (refund_booking 100 1 "0badcafe" (env_at 5 300) w.db))
        (refund store json 100 1 "0badcafe" (env_at 5 300) w.db cells).answer
run-routes_answer_example =
    run-routes_answer bcrypt jwt store json history opening 11 31 100 1 701 7 "0badcafe"
      (env_at 5 300) cells railway-IsValid
      (record {
        trains = timetable.trains;
        compartments = timetable.compartments;
        schedules = timetable.schedules;
      })

-- The seats of a schedule are cached; then the reservation is paid, and a second one is made.
abbrev cached : Cells
cached = λ k. if same_key k (seats 10) then some ("{}", seconds 5) else none

routes-IsFresh_example :
    IsFresh store json in_order 11 booked
      (create store json 1 11 31 600 (env_at 2 200) booked cached)
    × IsFresh store json in_order 10 booked
        (pay store json 100 1 600 7 "0badcafe" (env_at 2 200) booked payment_gateway cached).0
    × IsFresh store json in_order 10 booked
        (refund store json 100 1 "0badcafe" (env_at 2 200) booked cached)
routes-IsFresh_example =
    routes-IsFresh store json in_order cached
      (λ k. ((λ j. if same_key j (seats k) then none else cached j), refl)) 1 11 31 100 600 7
      "0badcafe" (env_at 2 200) booked payment_gateway reservation refl
