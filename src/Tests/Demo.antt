-- ===== src/Tests/Demo.antt =====
-- The theorem on races at a concrete input, and the default users: B writes first, and A had read the
-- free seat by then.
use railbook.Base.{◌-◌, ◌≡◌, refl, false, true, none, some, [], ◌∷◌, arith}
use railbook.Base.Outcome.{ok}
use railbook.Models.{Db}
use railbook.Bookings.Create.{seat_price}
use railbook.Demo.{Order, Draw, side_of, RaceResponse, race_users, race_condition}
use railbook.Demo.Races.{CanReserve, after_reservation, race_condition_has_one_winner}
use railbook.Tests.Data.{railway, user, schedule, env_at}

abbrev for_a : Draw
for_a = record { key = 500; env = env_at 0 100; finished = 40 }

abbrev for_b : Draw
for_b = record { key = 501; env = env_at 1 101; finished = 30 }

abbrev b_then_a : Order
b_then_a = record { a_first = false; overlapped = true }

-- The two demo users of the seed, with the times in microseconds.
abbrev demo_railway : Db
demo_railway = record railway {
  users =
      user 0
      ∷ record (user 1) { email = "alice@example.com" }
      ∷ record (user 2) { email = "bob@example.com" }
      ∷ [];
}

can_a : CanReserve 10 30 demo_railway (side_of 1 for_a)
unfolding seat_price
can_a = record {
  schedule = schedule 10 100 105;
  price = 150000;
  unused = refl;
  free = refl;
  scheduled = refl;
  no_overlap = refl;
  priced = refl;
  known = refl;
  new_id = refl;
}

can_b : CanReserve 10 30 demo_railway (side_of 2 for_b)
unfolding seat_price
can_b = record {
  schedule = schedule 10 100 105;
  price = 150000;
  unused = refl;
  free = refl;
  scheduled = refl;
  no_overlap = refl;
  priced = refl;
  known = refl;
  new_id = refl;
}

race_condition_has_one_winner_example :
    (response : RaceResponse) × (race_condition
        (λ from to. to - from)
        (λ users. users)
        b_then_a
        none
        none
        10
        30
        10
        for_a
        for_b
        demo_railway
      ≡ ok (response, after_reservation 10 30 demo_railway (side_of 2 for_b) can_b))
    × (response.winner ≡ some "B")
    × (response.attempt_a.status_code ≡ 500)
    × (response.attempt_b.status_code ≡ 201)
    × (response.attempt_a.elapsed_ms ≡ 30)
    × (response.attempt_b.elapsed_ms ≡ 20)
race_condition_has_one_winner_example =
    race_condition_has_one_winner (λ from to. to - from) (λ users. users) b_then_a none none 1 2 10
      30 10 for_a for_b demo_railway refl can_a can_b (λ same. absurd (omega arith))

-- Where one user is given, and the query finds the same user second, the race is one of that user
-- with himself.
one_user_races : race_users (some 2) none (user 1 ∷ user 2 ∷ []) ≡ ok (2, 2)
one_user_races = refl
