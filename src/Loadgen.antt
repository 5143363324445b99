-- ===== src/Loadgen.antt =====
-- loadtest/helpers.py, and the users of loadtest/locustfile.py, over a
-- record of the HTTP operations that they call.
pub mod Buyers
pub mod Snipers
pub mod Mixed
pub mod Tasks
pub mod Kept
pub mod Backends
pub mod Booked
pub mod Accounts
pub mod Checks
pub mod Runs
pub mod Picks
pub mod Snipes
use railbook.Base.{
  ℕ, String, Bool, true, false, Option, none, some, List, [], ◌∷◌, ◌==◌, if◌then◌else◌,
}
use railbook.Models.{Train, Schedule}
use railbook.Bookings.Queries.{BookingResponse}
use railbook.Trains.{SeatRow, SeatAvailability, is_free}

-- `resp.status_code` and `resp.json()`. `none` is a body that is not of the shape that the client
-- reads: there `resp.json()[…]` raises.
pub record Response (A : Type 0) : Type 0 where
  pub status_code : ℕ
  pub json : Option A

-- `{"Authorization": f"Bearer {token}"}`
pub record Headers (Token : Type 0) : Type 0 where
  pub bearer : Token

abbrev pub get_auth_headers : {Token : Type 0} → Token → Headers Token
get_auth_headers token = record { bearer = token }

-- The operations of the service. A request changes what runs behind it.
pub record Service : Type 1 where
  pub State : Type 0
  pub Token : Type 0
  pub post_register : (email password full_name : String) → State → Response Token × State
  pub post_login : (email password : String) → State → Response Token × State
  pub get_trains : Headers Token → State → Response (List Train) × State
  pub get_schedules : (train_id : ℕ) → Headers Token → State → Response (List Schedule) × State
  pub get_seats : (schedule_id : ℕ) → Headers Token → State → Response SeatAvailability × State
  pub post_booking :
      (schedule_id seat_id idempotency_key : ℕ)
      → Headers Token
      → State
      → Response BookingResponse × State
  pub post_pay :
      (booking_id idempotency_key : ℕ) → Headers Token → State → Response BookingResponse × State
  pub get_bookings : Headers Token → State → Response (List BookingResponse) × State
  pub get_health : State → Response (Unit {0}) × State
  pub get_config : State → Response (ℕ × ℕ) × State

-- A piece of client code: its value, or `none` where it raised, and the service after it.
abbrev pub Client : (S A : Type 0) → Type 0
Client S A = S → Option A × S

module _ {S A B : Type 0} where
  unfoldable pub go_on : Option A × S → (A → Client S B) → Option B × S
  go_on (none, s) rest = (none, s)
  go_on (some a, s) rest = rest a s

  infixl 5 ◌>>=◌
  abbrev pub ◌>>=◌ : Client S A → (A → Client S B) → Client S B
  m >>= rest = λ s. go_on (m s) rest

module _ {S A : Type 0} where
  abbrev pub pure : A → Client S A
  pure a = λ s. (some a, s)

  abbrev pub or_raised : Option A → Client S A
  or_raised o = λ s. (o, s)

  -- One request.
  abbrev pub call : (S → A × S) → Client S A
  call request = λ s. let (a, s') = request s in (some a, s')

  -- `resp.json() if resp.status_code == 200 else …`
  abbrev pub json_or : Client S A → Response A → Client S A
  json_or other resp = if resp.status_code == 200 then or_raised resp.json else other

-- `for seat in seats: if not seat.get("booking_status"): return seat["id"]`
unfoldable pub first_available : List SeatRow → Option ℕ
first_available [] = none
first_available (seat ∷ seats) =
    let rest = first_available seats in if is_free seat then some seat.id else rest

-- `self` of a buyer and of a sniper.
pub record TicketBuyer (Token : Type 0) : Type 0 where
  pub headers : Headers Token
  pub trains : List Train
  pub schedules : List Schedule

pub record SeatSniper (Token : Type 0) : Type 0 where
  pub headers : Headers Token
  pub target_schedule : Option ℕ

module _ (S : Service) where
  -- `email` is new with each call.
  unfoldable pub register_user : (email : String) → Client S.State (String × S.Token)
  register_user email = do
    resp ← call (S.post_register email "loadtest123" "Load Tester")
    token ←
        if resp.status_code == 201
        then or_raised resp.json
        else (do resp' ← call (S.post_login email "loadtest123"); or_raised resp'.json)
    pure (email, token)

  -- The seat of a payload that is a success.
  abbrev pub seat_of : Response SeatAvailability → Client S.State (Option ℕ)
  seat_of resp =
      if resp.status_code == 200
      then (do payload ← or_raised resp.json; pure (first_available payload.seats))
      else pure none

  unfoldable pub get_available_seat :
      (schedule_id : ℕ) → Headers S.Token → Client S.State (Option ℕ)
  unfolding first_available
  get_available_seat schedule_id headers = do
    resp ← call (S.get_seats schedule_id headers)
    seat_of resp
