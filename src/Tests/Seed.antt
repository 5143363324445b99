-- ===== src/Tests/Seed.antt =====
-- The seeding of empty tables, by evaluation, and the theorem on it.
use railbook.Base.{◌+◌, ◌≡◌, refl, []}
use railbook.Base.Outcome.{Result, ok, err}
use railbook.Base.Rows.{length, All}
use railbook.Models.{Db, hours}
use railbook.Models.Timetable.{
  insert_user, insert_train, insert_schedule, insert_compartment, insert_seat,
}
use railbook.Integrity.{IsValid, TimetableIsValid}
use railbook.Seed.{
  add_users, add_seats, add_compartments, add_schedules, add_trains, seed_rows, seed_database,
}
use railbook.Seed.Runs.{Upcoming, seed_database-IsValid}
use railbook.Tests.Crypto.{bcrypt}

abbrev blank : Db
blank = record {
  users = [];
  trains = [];
  schedules = [];
  compartments = [];
  seats = [];
  bookings = [];
  payments = [];
  audit_trail = [];
  audit_seq = 1;
}

blank-IsValid : IsValid blank
blank-IsValid = record {
  distinct = tt;
  apart = tt;
  rows = tt;
  refer = tt;
  priced = tt;
  paid = tt;
  payments_distinct = tt;
  audited = tt;
}

abbrev db_or_blank : Result Db → Db
db_or_blank (ok db) = db
db_or_blank (err e) = blank

unfoldable seeded : Db
unfolding seed_database seed_rows add_users add_trains add_compartments add_seats add_schedules
    insert_user insert_train insert_schedule insert_compartment insert_seat
seeded = db_or_blank (seed_database bcrypt (λ i. i + 1) (λ i. i) (hours 1000) (hours 1000) blank)

seeds : seed_database bcrypt (λ i. i + 1) (λ i. i) (hours 1000) (hours 1000) blank ≡ ok seeded
unfolding seeded
seeds = refl

seed_database-IsValid_example :
    IsValid seeded
    × TimetableIsValid seeded
    × (length seeded.trains ≡ 3)
    × (length seeded.compartments ≡ 6)
    × (length seeded.seats ≡ 150)
    × (length seeded.schedules ≡ 21)
    × (length seeded.users ≡ 4)
    × All (Upcoming (hours 1000)) seeded.schedules
    × (seed_database bcrypt (λ i. i) (λ i. i) (hours 2000) (hours 2000) seeded ≡ ok seeded)
seed_database-IsValid_example =
    seed_database-IsValid bcrypt (λ i. i + 1) (λ i. i) (hours 1000) (hours 1000) blank
      {db' = seeded} (λ i. i) (λ i. i) (hours 2000) (hours 2000) blank-IsValid
      (record { trains = tt; compartments = tt; schedules = tt }) refl seeds
