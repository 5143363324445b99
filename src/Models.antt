-- ===== src/Models.antt =====
-- The tables of backend/app/models.py: a record for each class, a field for each column, and the
-- database as the lists of their rows. A UUID, a time (in microseconds) and an amount (in
-- hundredths) are numbers; the columns that hold one of a few words are data types.
pub mod Constraints
pub mod Timetable
use railbook.Base.{ℕ, ◌*◌, String, Bool, true, false, Option, List}

pub data Status : Type 0 where
  reserved confirmed cancelled refunded : Status

-- The word that the column holds.
abbrev pub status_text : Status → String
status_text reserved = "reserved"
status_text confirmed = "confirmed"
status_text cancelled = "cancelled"
status_text refunded = "refunded"

abbrev pub same_status : Status → Status → Bool
same_status reserved reserved = true
same_status confirmed confirmed = true
same_status cancelled cancelled = true
same_status refunded refunded = true
same_status _ _ = false

pub data PaymentStatus : Type 0 where
  pending success failed : PaymentStatus

abbrev pub is_success : PaymentStatus → Bool
is_success success = true
is_success _ = false

pub data Action : Type 0 where
  reserved payment_attempted confirmed payment_failed refunded expired_cleanup : Action

-- The JSON object in the column `metadata`, by the keys that it has.
pub data Metadata : Type 0 where
  empty : Metadata
  for_seat : ℕ → ℕ → Metadata
  with_gateway_ref : Option String → Metadata
  with_failure_reason : Option String → Metadata
  expired : Option ℕ → ℕ → Metadata

pub record User : Type 0 where
  pub id : ℕ
  pub email : String
  pub password_hash : String
  pub full_name : String
  pub phone : Option String
  pub role : String
  pub created_at : ℕ

pub record Train : Type 0 where
  pub id : ℕ
  pub name : String
  pub train_number : String
  pub origin : String
  pub destination : String

pub record Schedule : Type 0 where
  pub id : ℕ
  pub train_id : ℕ
  pub departure_time : ℕ
  pub arrival_time : ℕ
  pub status : String

pub record Compartment : Type 0 where
  pub id : ℕ
  pub train_id : ℕ
  pub name : String
  pub comp_type : String
  pub capacity : ℕ

pub record Seat : Type 0 where
  pub id : ℕ
  pub compartment_id : ℕ
  pub seat_number : ℕ
  pub position : String

pub record Booking : Type 0 where
  pub id : ℕ
  pub user_id : ℕ
  pub schedule_id : ℕ
  pub seat_id : ℕ
  pub status : Status
  pub idempotency_key : ℕ
  pub reserved_at : ℕ
  pub expires_at : Option ℕ
  pub confirmed_at : Option ℕ
  pub cancelled_at : Option ℕ
  pub total_amount : ℕ

pub record Payment : Type 0 where
  pub id : ℕ
  pub booking_id : ℕ
  pub idempotency_key : ℕ
  pub amount : ℕ
  pub status : PaymentStatus
  pub gateway_ref : Option String
  pub attempted_at : ℕ
  pub completed_at : Option ℕ
  pub failure_reason : Option String

pub record AuditTrail : Type 0 where
  pub id : ℕ
  pub booking_id : ℕ
  pub user_id : ℕ
  pub action : Action
  pub previous_status : Option Status
  pub new_status : Status
  pub metadata : Metadata
  pub ip_address : Option String
  pub created_at : ℕ

-- `audit_seq` is the next value of the autoincrement column `audit_trail.id`.
pub record Db : Type 0 where
  pub users : List User
  pub trains : List Train
  pub schedules : List Schedule
  pub compartments : List Compartment
  pub seats : List Seat
  pub bookings : List Booking
  pub payments : List Payment
  pub audit_trail : List AuditTrail
  pub audit_seq : ℕ

-- What a request reads from outside the database: `clock i` is its i-th `datetime.now(UTC)`,
-- `tx_time` the database's `now()`, `uuid i` its i-th generated UUID.
pub record Env : Type 0 where
  pub clock : ℕ → ℕ
  pub tx_time : ℕ
  pub uuid : ℕ → ℕ
  pub ip_address : Option String

abbrev pub seconds : ℕ → ℕ
seconds n = n * 1000000

abbrev pub minutes : ℕ → ℕ
minutes n = seconds (n * 60)

abbrev pub hours : ℕ → ℕ
hours n = minutes (n * 60)
