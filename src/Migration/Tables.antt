-- ===== src/Migration/Tables.antt =====
-- The tables of the initial schema.
use railbook.Base.{[], ◌∷◌}
use railbook.Migration.{
  Table, uuid, integer, big_integer, json, date_time, string, numeric, now_default, required,
  nullable,
}

abbrev pub trains : Table
trains = record {
  name = "trains";
  columns =
      required "id" uuid
      ∷ required "name" (string 255)
      ∷ required "train_number" (string 50)
      ∷ required "origin" (string 255)
      ∷ required "destination" (string 255)
      ∷ [];
  foreign_keys = [];
  primary_key = "id";
  unique = ("train_number" ∷ []) ∷ [];
}

abbrev pub users : Table
users = record {
  name = "users";
  columns =
      required "id" uuid
      ∷ required "email" (string 255)
      ∷ required "password_hash" (string 255)
      ∷ required "full_name" (string 255)
      ∷ nullable "phone" (string 20)
      ∷ required "role" (string 20)
      ∷ required "created_at" (now_default date_time)
      ∷ [];
  foreign_keys = [];
  primary_key = "id";
  unique = ("email" ∷ []) ∷ [];
}

abbrev pub compartments : Table
compartments = record {
  name = "compartments";
  columns =
      required "id" uuid
      ∷ required "train_id" uuid
      ∷ required "name" (string 10)
      ∷ required "comp_type" (string 20)
      ∷ required "capacity" integer
      ∷ [];
  foreign_keys = ("train_id", "trains") ∷ [];
  primary_key = "id";
  unique = [];
}

abbrev pub schedules : Table
schedules = record {
  name = "schedules";
  columns =
      required "id" uuid
      ∷ required "train_id" uuid
      ∷ required "departure_time" date_time
      ∷ required "arrival_time" date_time
      ∷ required "status" (string 20)
      ∷ [];
  foreign_keys = ("train_id", "trains") ∷ [];
  primary_key = "id";
  unique = ("train_id" ∷ "departure_time" ∷ []) ∷ [];
}

abbrev pub seats : Table
seats = record {
  name = "seats";
  columns =
      required "id" uuid
      ∷ required "compartment_id" uuid
      ∷ required "seat_number" integer
      ∷ required "position" (string 20)
      ∷ [];
  foreign_keys = ("compartment_id", "compartments") ∷ [];
  primary_key = "id";
  unique = ("compartment_id" ∷ "seat_number" ∷ []) ∷ [];
}

abbrev pub bookings : Table
bookings = record {
  name = "bookings";
  columns =
      required "id" uuid
      ∷ required "user_id" uuid
      ∷ required "schedule_id" uuid
      ∷ required "seat_id" uuid
      ∷ required "status" (string 20)
      ∷ required "idempotency_key" uuid
      ∷ required "reserved_at" (now_default date_time)
      ∷ nullable "expires_at" date_time
      ∷ nullable "confirmed_at" date_time
      ∷ nullable "cancelled_at" date_time
      ∷ required "total_amount" (numeric 10 2)
      ∷ [];
  foreign_keys = ("schedule_id", "schedules") ∷ ("seat_id", "seats") ∷ ("user_id", "users") ∷ [];
  primary_key = "id";
  unique = ("idempotency_key" ∷ []) ∷ ("schedule_id" ∷ "seat_id" ∷ []) ∷ [];
}

abbrev pub audit_trail : Table
audit_trail = record {
  name = "audit_trail";
  columns =
      required "id" big_integer
      ∷ required "booking_id" uuid
      ∷ required "user_id" uuid
      ∷ required "action" (string 50)
      ∷ nullable "previous_status" (string 20)
      ∷ required "new_status" (string 20)
      ∷ nullable "metadata" json
      ∷ nullable "ip_address" (string 45)
      ∷ required "created_at" (now_default date_time)
      ∷ [];
  foreign_keys = ("booking_id", "bookings") ∷ ("user_id", "users") ∷ [];
  primary_key = "id";
  unique = [];
}

abbrev pub payments : Table
payments = record {
  name = "payments";
  columns =
      required "id" uuid
      ∷ required "booking_id" uuid
      ∷ required "idempotency_key" uuid
      ∷ required "amount" (numeric 10 2)
      ∷ required "status" (string 20)
      ∷ nullable "gateway_ref" (string 100)
      ∷ required "attempted_at" (now_default date_time)
      ∷ nullable "completed_at" date_time
      ∷ nullable "failure_reason" (string 500)
      ∷ [];
  foreign_keys = ("booking_id", "bookings") ∷ [];
  primary_key = "id";
  unique = ("idempotency_key" ∷ []) ∷ [];
}
