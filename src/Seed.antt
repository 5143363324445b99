-- ===== src/Seed.antt =====
-- `seed_database` of backend/app/seed.py. Every `session.add` is an INSERT; `ids i` is the i-th UUID
-- that is generated for it, counted in the order of the code. `now` is the one clock reading.
pub mod Runs
use railbook.Base.{
  ℕ, zero, suc, ◌+◌, ◌*◌, ◌/◌, ◌%◌, String, Bool, ◌||◌, Option, none, some, List, [], ◌∷◌, ◌==◌,
  eq_text, if◌then◌else◌,
}
use railbook.Base.Outcome.{Result, ok, value_error, key_error, ◌>>=◌, or_raise}
use railbook.Models.{User, Train, Schedule, Compartment, Seat, Db, hours, minutes}
use railbook.Models.Timetable.{
  insert_user, insert_train, insert_schedule, insert_compartment, insert_seat,
}
use railbook.Auth.{Bcrypt}
use railbook.Bookings.Cleanup.{system_user_id}

-- A row of `TRAINS`.
pub record TrainSpec : Type 0 where
  pub name : String
  pub train_number : String
  pub origin : String
  pub destination : String

abbrev pub trains_to_seed : List TrainSpec
trains_to_seed =
    record {
      name = "Subarna Express";
      train_number = "SE-701";
      origin = "Dhaka";
      destination = "Chittagong";
    }
    ∷ record {
      name = "Ekota Express";
      train_number = "EE-501";
      origin = "Dhaka";
      destination = "Rajshahi";
    }
    ∷ record {
      name = "Mohanagar Provati";
      train_number = "MP-301";
      origin = "Dhaka";
      destination = "Sylhet";
    }
    ∷ []

-- `COMPARTMENTS`, each with its `COMP_TYPES`.
abbrev pub compartments_to_seed : List (String × String)
compartments_to_seed = ("A", "ac") ∷ ("B", "non_ac") ∷ []

-- `DEPARTURE_HOURS` and `JOURNEY_HOURS`.
abbrev pub departure_hours : String → Option (ℕ × ℕ)
departure_hours number =
    if eq_text number "SE-701"
    then some (7, 0)
    else if eq_text number "EE-501"
    then some (10, 30)
    else if eq_text number "MP-301"
    then some (6, 30)
    else none

abbrev pub journey_hours : String → Option ℕ
journey_hours number =
    if eq_text number "SE-701"
    then some 5
    else if eq_text number "EE-501"
    then some 6
    else if eq_text number "MP-301"
    then some 7
    else none

-- A row of `USERS`.
pub record UserSpec : Type 0 where
  pub email : String
  pub password : String
  pub name : String
  pub phone : String
  pub role : String

abbrev pub users_to_seed : List UserSpec
users_to_seed =
    record {
      email = "admin@railbook.com";
      password = "admin123";
      name = "Admin User";
      phone = "+8801700000000";
      role = "admin";
    }
    ∷ record {
      email = "alice@example.com";
      password = "password123";
      name = "Alice Rahman";
      phone = "+8801711111111";
      role = "user";
    }
    ∷ record {
      email = "bob@example.com";
      password = "password123";
      name = "Bob Hasan";
      phone = "+8801722222222";
      role = "user";
    }
    ∷ []

abbrev pub seat_position : ℕ → String
seat_position seat_num =
    let last_digit = seat_num % 10 in
    if (last_digit == 1) || ((last_digit == 4) || ((last_digit == 5) || (last_digit == 8)))
    then "window"
    else "corridor"

abbrev pub days : ℕ → ℕ
days n = hours (n * 24)

-- `(now + timedelta(days=n)).replace(hour=h, minute=m, second=0, microsecond=0)`
abbrev pub at_hour : (now n h m : ℕ) → ℕ
at_hour now n h m = days (now / days 1 + n) + hours h + minutes m

abbrev pub system_user : (tx_time : ℕ) → User
system_user tx_time = record {
  id = system_user_id;
  email = "system@railbook.internal";
  password_hash = "nologin";
  full_name = "System";
  phone = none;
  role = "admin";
  created_at = tx_time;
}

module _ (bcrypt : Bcrypt) (ids salts : ℕ → ℕ) (now tx_time : ℕ) where
  unfoldable pub add_users : (i : ℕ) → List UserSpec → Db → Result Db
  unfolding insert_user
  add_users i [] db = ok db
  add_users i (u ∷ us) db = do
    hash ← or_raise (bcrypt.hashpw u.password (salts i)) value_error
    db₁ ←
        insert_user
          (record {
            id = ids i;
            email = u.email;
            password_hash = hash;
            full_name = u.name;
            phone = some u.phone;
            role = u.role;
            created_at = tx_time;
          })
          db
    add_users (i + 1) us db₁

  -- `for seat_num in range(1, 26)`, with the rounds left.
  unfoldable pub add_seats : (compartment_id i seat_num left : ℕ) → Db → Result Db
  unfolding insert_seat
  add_seats compartment_id i seat_num zero db = ok db
  add_seats compartment_id i seat_num (suc left) db = do
    db₁ ←
        insert_seat
          (record {
            id = ids i;
            compartment_id = compartment_id;
            seat_number = seat_num;
            position = seat_position seat_num;
          })
          db
    add_seats compartment_id (i + 1) (seat_num + 1) left db₁

  unfoldable pub add_compartments : (train_id i : ℕ) → List (String × String) → Db → Result Db
  unfolding insert_compartment
  add_compartments train_id i [] db = ok db
  add_compartments train_id i ((name, comp_type) ∷ rest) db = do
    db₁ ←
        insert_compartment
          (record {
            id = ids i;
            train_id = train_id;
            name = name;
            comp_type = comp_type;
            capacity = 25;
          })
          db
    db₂ ← add_seats (ids i) (i + 1) 1 25 db₁
    add_compartments train_id (i + 26) rest db₂

  -- `for day_offset in range(7)`, with the rounds left.
  unfoldable pub add_schedules : (train_id i h m duration day_offset left : ℕ) → Db → Result Db
  unfolding insert_schedule
  add_schedules train_id i h m duration day_offset zero db = ok db
  add_schedules train_id i h m duration day_offset (suc left) db = do
    db₁ ←
        insert_schedule
          (record {
            id = ids i;
            train_id = train_id;
            departure_time = at_hour now (day_offset + 1) h m;
            arrival_time = at_hour now (day_offset + 1) h m + hours duration;
            status = "scheduled";
          })
          db
    add_schedules train_id (i + 1) h m duration (day_offset + 1) left db₁

  unfoldable pub add_trains : (i : ℕ) → List TrainSpec → Db → Result Db
  unfolding insert_train
  add_trains i [] db = ok db
  add_trains i (t ∷ ts) db = do
    db₁ ←
        insert_train
          (record {
            id = ids i;
            name = t.name;
            train_number = t.train_number;
            origin = t.origin;
            destination = t.destination;
          })
          db
    db₂ ← add_compartments (ids i) (i + 1) compartments_to_seed db₁
    (h, m) ← or_raise (departure_hours t.train_number) key_error
    duration ← or_raise (journey_hours t.train_number) key_error
    db₃ ← add_schedules (ids i) (i + 53) h m duration 0 7 db₂
    add_trains (i + 60) ts db₃

  unfoldable pub seed_rows : Db → Result Db
  unfolding insert_user
  seed_rows db = do
    db₁ ← add_users 0 users_to_seed db
    db₂ ← insert_user (system_user tx_time) db₁
    add_trains 3 trains_to_seed db₂

  -- `if result.scalar_one_or_none() is not None: return`
  unfoldable pub seed_database : Db → Result Db
  unfolding seed_rows
  seed_database db = elim db.trains [ t ∷ ts ↦ ok db | [] ↦ seed_rows db ]
