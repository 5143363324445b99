-- ===== src/Tests/Data.antt =====
-- A small railway: the system user, two passengers, a train with a schedule on each of two days and
-- one that overlaps both, two compartments with two seats.
use railbook.Base.{ℕ, ◌+◌, ◌≡◌, refl, ap, false, none, some, [], ◌∷◌}
use railbook.Base.Outcome.{Result, ok}
use railbook.Models.{User, Schedule, Seat, Compartment, Booking, Db, Env, hours}
use railbook.Models.Constraints.{insert_booking, insert_payment, insert_audit}
use railbook.Audit.{log_audit}
use railbook.Payments.{MockPaymentGateway, payment_gateway, accepted, charge}
use railbook.Bookings.Create.{
  new_booking, seat_price, remove_old, add_reserved, reserve_seat, create_booking,
}
use railbook.Bookings.Pay.{payable, settle_success, prepare, finish, pay_booking}
use railbook.Integrity.{IsValid}
use railbook.Integrity.Creates.{reserved_db, create_booking-IsValid}
use railbook.Integrity.Attempts.{attempted_db}
use railbook.Integrity.Pays.{pay_booking-IsValid}
use railbook.Guarantees.Attempts.{paid_result}
use railbook.System.{World}

abbrev pub user : ℕ → User
user k = record {
  id = k;
  email = "someone@example.com";
  password_hash = "hash";
  full_name = "Someone";
  phone = none;
  role = "user";
  created_at = 0;
}

abbrev pub schedule : ℕ → ℕ → ℕ → Schedule
schedule k from to = record {
  id = k;
  train_id = 1;
  departure_time = hours from;
  arrival_time = hours to;
  status = "scheduled";
}

abbrev pub seat : ℕ → ℕ → Seat
seat k c = record { id = k; compartment_id = c; seat_number = k; position = "window" }

abbrev pub compartment : ℕ → Compartment
compartment k = record { id = k; train_id = 1; name = "A"; comp_type = "ac"; capacity = 25 }

abbrev pub railway : Db
railway = record {
  users = user 0 ∷ user 1 ∷ user 2 ∷ [];
  trains =
      record {
        id = 1;
        name = "Subarna Express";
        train_number = "SE-701";
        origin = "Dhaka";
        destination = "Chittagong";
      }
      ∷ [];
  schedules = schedule 10 100 105 ∷ schedule 11 124 129 ∷ schedule 12 102 126 ∷ [];
  compartments = compartment 20 ∷ record (compartment 21) { name = "B"; comp_type = "non_ac" } ∷ [];
  seats = seat 30 20 ∷ seat 31 20 ∷ seat 32 21 ∷ [];
  bookings = [];
  payments = [];
  audit_trail = [];
  audit_seq = 1;
}

abbrev pub opening : World
opening = record { db = railway; gateway = payment_gateway }

-- A request at time `t` whose new row gets the id `k`.
abbrev pub env_at : ℕ → ℕ → Env
env_at t k = record { clock = λ i. t + i; tx_time = t; uuid = λ i. k + i; ip_address = some "::1" }

pub railway-IsValid : IsValid railway
railway-IsValid = record {
  distinct = tt;
  apart = tt;
  rows = tt;
  refer = tt;
  priced = tt;
  paid = tt;
  payments_distinct = tt;
  audited = tt;
}

-- The first reservation of seat 30, its payment, and the refund.
abbrev pub reservation : Booking
reservation = new_booking 1 10 30 500 150000 (env_at 0 100)

abbrev pub booked : Db
booked = reserved_db reservation (env_at 0 100) railway

pub booked-IsValid : IsValid booked
unfolding create_booking reserve_seat seat_price remove_old add_reserved insert_booking log_audit
    insert_audit
booked-IsValid =
    create_booking-IsValid 1 10 30 500 (env_at 0 100) railway {r = (reservation, booked)}
      railway-IsValid refl

abbrev pub paid : Booking × Db
paid =
    paid_result false reservation 1 600 (accepted "0badcafe") (env_at 2 200)
      (attempted_db reservation 1 (env_at 2 200) booked)

pub pays :
    pay_booking 100 1 600 7 "0badcafe" (env_at 2 200) booked payment_gateway
    ≡ (ok paid, record payment_gateway { processed = (600, accepted "0badcafe") ∷ [] })
unfolding pay_booking prepare payable finish charge settle_success insert_payment log_audit
    insert_audit
pays = refl

pub paid-IsValid : IsValid paid.1
paid-IsValid =
    pay_booking-IsValid 100 1 600 7 "0badcafe" (env_at 2 200) booked payment_gateway {r = paid}
      booked-IsValid (ap (λ (z : Result (Booking × Db) × MockPaymentGateway). z.0) pays)
