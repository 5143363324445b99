-- ===== src/Demo.antt =====
-- backend/app/demo/service.py, and the race of router.py: two attempts on one seat at a time. Each
-- attempt reads the tables and then writes; `seen` is what its queries read, and `db` what it writes
-- to. PostgreSQL lets the second INSERT of a seat wait for the first transaction, so the writes come
-- one after the other.
pub mod Races
use railbook.Base.{
  ℕ, String, Bool, true, false, not, ◌&&◌, ◌||◌, Option, none, some, is_some, List, [], ◌∷◌, ◌==◌,
  eq_text, if◌then◌else◌,
}
use railbook.Base.Outcome.{Error, Result, ok, err, http, ◌>>=◌, ◌>>◌, raise_if, or_raise}
use railbook.Base.Rows.{select}
use railbook.Models.{User, Booking, Db, Env}
use railbook.Models.Constraints.{scalar_one_or_none}
use railbook.Bookings.{get_schedule, is_overlapping}
use railbook.Bookings.Create.{
  holds_seat, is_at, seat_price, remove_old, add_reserved, new_booking, reuse_or, seat_taken,
  schedule_not_found, overlapping_journey,
}
use railbook.System.{commit_or}

-- `create_booking`, whose queries read `seen` and whose statements change `db`.
unfoldable pub create_between :
    (user_id schedule_id seat_id key : ℕ) → Env → (seen db : Db) → Result (Booking × Db)
create_between user_id schedule_id seat_id key env seen db = do
  existing ← scalar_one_or_none (select (λ b. b.idempotency_key == key) seen.bookings)
  reuse_or existing db (do
    existing_booking ← scalar_one_or_none (select (is_at schedule_id seat_id) seen.bookings)
    raise_if (holds_seat existing_booking) seat_taken
    schedule ← or_raise (get_schedule schedule_id seen) schedule_not_found
    overlap ← scalar_one_or_none (select (is_overlapping seen user_id schedule) seen.bookings)
    raise_if (is_some overlap) overlapping_journey
    price ← seat_price seat_id seen
    db₁ ← remove_old existing_booking db
    add_reserved (new_booking user_id schedule_id seat_id key price env) env db₁)

-- `detail` is `none` for the text of an exception that is no `HTTPException`.
pub record AttemptResult : Type 0 where
  pub user_label : String
  pub status_code : ℕ
  pub detail : Option String
  pub elapsed_ms : ℕ

abbrev pub attempt_result {ℓ} : {A : Type ℓ} → String → (elapsed_ms : ℕ) → Result A → AttemptResult
attempt_result label elapsed_ms (ok a) = record {
  user_label = label;
  status_code = 201;
  detail = some "Booking created";
  elapsed_ms = elapsed_ms;
}
attempt_result label elapsed_ms (err (http code text)) = record {
  user_label = label;
  status_code = code;
  detail = some text;
  elapsed_ms = elapsed_ms;
}
attempt_result label elapsed_ms (err other) = record {
  user_label = label;
  status_code = 500;
  detail = none;
  elapsed_ms = elapsed_ms;
}

pub record RaceResult : Type 0 where
  pub attempt_a : AttemptResult
  pub attempt_b : AttemptResult
  pub winner : Option String

abbrev pub created : AttemptResult → Bool
created a = a.status_code == 201

abbrev pub winner_of : AttemptResult → AttemptResult → Option String
winner_of a b =
    if created a && not (created b)
    then some "A"
    else if created b && not (created a)
    then some "B"
    else none

abbrev pub race_result : AttemptResult → AttemptResult → RaceResult
race_result a b = record { attempt_a = a; attempt_b = b; winner = winner_of a b }

-- One side of a race. `finished` is what `time.monotonic()` reads after its attempt.
pub record Side : Type 0 where
  pub user_id : ℕ
  pub key : ℕ
  pub env : Env
  pub finished : ℕ

-- Who writes first, and whether the other had read the tables by then.
pub record Order : Type 0 where
  pub a_first : Bool
  pub overlapped : Bool

abbrev pub attempt : Side → (schedule_id seat_id : ℕ) → (seen db : Db) → Result (Booking × Db)
attempt side schedule_id seat_id seen db =
    create_between side.user_id schedule_id seat_id side.key side.env seen db

-- The two results, the first to write before the second, and the database after both.
abbrev pub attempts_in_order :
    (overlapped : Bool) (first second : Side) (schedule_id seat_id : ℕ)
    → Db
    → Result (Booking × Db) × Result (Booking × Db) × Db
attempts_in_order overlapped first second schedule_id seat_id db =
    let r = attempt first schedule_id seat_id db db in
    let db₁ = commit_or r db in
    let r' = attempt second schedule_id seat_id (if overlapped then db else db₁) db₁ in
    (r, r', commit_or r' db₁)

-- `round((to - from) * 1000, 1)` on Python's floats, for two readings of the clock.
abbrev pub Rounding : Type 0
Rounding = (from to : ℕ) → ℕ

unfoldable pub run_race :
    Rounding → Order → (start : ℕ) (a b : Side) (schedule_id seat_id : ℕ) → Db → RaceResult × Db
unfolding create_between
run_race round order start a b schedule_id seat_id db =
    let result_a : Result (Booking × Db) → AttemptResult =
      attempt_result "A" (round start a.finished) in
    let result_b : Result (Booking × Db) → AttemptResult =
      attempt_result "B" (round start b.finished) in
    if order.a_first
    then (let (r, r', after) = attempts_in_order order.overlapped a b schedule_id seat_id db in
        (race_result (result_a r) (result_b r'), after))
    else (let (r, r', after) = attempts_in_order order.overlapped b a schedule_id seat_id db in
        (race_result (result_a r') (result_b r), after))

-- The two users that the route takes where one is not given, in the order in which the query finds
-- them: it has no `ORDER BY`.
abbrev pub is_demo_user : User → Bool
is_demo_user u = eq_text u.email "alice@example.com" || eq_text u.email "bob@example.com"

abbrev pub no_demo_users : Error
no_demo_users = http 400 "Demo users not found. Provide user_id_a and user_id_b."

-- `user_a or users[0].id` and `user_b or users[1].id`
abbrev pub given_or : Option ℕ → User → ℕ
given_or none u = u.id
given_or (some k) u = k

abbrev pub race_users : Option ℕ → Option ℕ → List User → Result (ℕ × ℕ)
race_users (some a) (some b) users = ok (a, b)
race_users a b (x ∷ y ∷ rest) = ok (given_or a x, given_or b y)
race_users a b users = err no_demo_users

-- What the route answers.
pub record AttemptResponse : Type 0 where
  pub user : String
  pub status_code : ℕ
  pub detail : Option String
  pub elapsed_ms : ℕ

pub record RaceResponse : Type 0 where
  pub attempt_a : AttemptResponse
  pub attempt_b : AttemptResponse
  pub winner : Option String

abbrev pub attempt_response : AttemptResult → AttemptResponse
attempt_response a = record {
  user = a.user_label;
  status_code = a.status_code;
  detail = a.detail;
  elapsed_ms = a.elapsed_ms;
}

abbrev pub race_response : RaceResult → RaceResponse
race_response result = record {
  attempt_a = attempt_response result.attempt_a;
  attempt_b = attempt_response result.attempt_b;
  winner = result.winner;
}

-- What an attempt of the route draws: its key, and its environment and clock.
pub record Draw : Type 0 where
  pub key : ℕ
  pub env : Env
  pub finished : ℕ

abbrev pub side_of : ℕ → Draw → Side
side_of user_id d = record { user_id = user_id; key = d.key; env = d.env; finished = d.finished }

-- `race_condition` of backend/app/demo/router.py.
unfoldable pub race_condition :
    Rounding
    → (found : List User → List User) → Order
    → (user_a user_b : Option ℕ) (schedule_id seat_id start : ℕ) (for_a for_b : Draw) → Db
    → Result (RaceResponse × Db)
unfolding run_race
race_condition round found order user_a user_b schedule_id seat_id start for_a for_b db = do
  users ← race_users user_a user_b (found (select is_demo_user db.users))
  let (result, after) =
      run_race round order start (side_of users.0 for_a) (side_of users.1 for_b) schedule_id seat_id
        db
  ok (race_response result, after)
