-- ===== src/Loadgen/Backends.antt =====
-- The backend as the service that the load test runs against: the guarded routes of Api.antt, and
-- the lists and seats of backend/app/trains/router.py, which need no token.
use railbook.Base.{List, ℕ, ◌+◌, String, Option, none, some}
use railbook.Base.Outcome.{Error, Result, ok, err, http, ◌>>=◌}
use railbook.Models.{User, Db, Train, Schedule, Env}
use railbook.Auth.{Bcrypt, Jwt, TokenResponse}
use railbook.Bookings.Queries.{BookingResponse, NewestFirst, list_bookings}
use railbook.Payments.Settings.{get_config}
use railbook.Redis.{Redis, Json}
use railbook.Redis.SortedSets
use railbook.Trains.{SeatAvailability, OrderBy}
use railbook.Trains.Lists.{Ordering, list_trains, list_schedules, get_seats}
use railbook.Api.{
  post_booking, post_pay, post_register, post_login, Call, by_user, by_client, Reply, handled,
  signed_in, refused, limited, Backend, user_of, handle,
}
use railbook.Loadgen.{Response, Service}

-- What a request finds besides the state: its time, and what is drawn for it.
pub record Moment : Type 0 where
  pub now : ℕ
  pub env : Env
  pub salt : ℕ
  pub draw : ℕ
  pub hex : String

-- The status of an exception: an `HTTPException` has its own, any other is a 500.
abbrev pub status_of : Error → ℕ
status_of (http code _) = code
status_of _ = 500

abbrev pub respond : {A : Type 0} → (success : ℕ) → Result A → Response A
respond success (ok a) = record { status_code = success; json = some a }
respond success (err e) = record { status_code = status_of e; json = none }

abbrev failed : {A : Type 0} → (code : ℕ) → Response A
failed code = record { status_code = code; json = none }

-- The parameters: the libraries, the order of the database's lists, the address of the client, and
-- the moment of each request.
module _ (bcrypt : Bcrypt) (jwt : Jwt) (no_credentials : Error) (R : Redis)
    (json : Json SeatAvailability) (server : SortedSets.Server) (by_seat : OrderBy)
    (by_name : Ordering Train) (by_departure : Ordering Schedule) (newest : NewestFirst)
    (client : Option String) (moments : ℕ → Moment) where
  -- The backend, and the number of requests so far.
  pub record Running : Type 0 where
    pub backend : Backend R server
    pub requests : ℕ

  abbrev booking_answer : (success : ℕ) → Reply jwt → Response BookingResponse
  booking_answer success (handled result) = respond success result
  booking_answer success (signed_in _) = failed 500
  booking_answer success (refused e) = failed (status_of e)
  booking_answer success (limited _ _) = failed 429

  abbrev token_in : Result (TokenResponse jwt) → Result jwt.Token
  token_in (ok tokens) = ok tokens.access_token
  token_in (err e) = err e

  abbrev token_answer : (success : ℕ) → Reply jwt → Response jwt.Token
  token_answer success (handled _) = failed 500
  token_answer success (signed_in result) = respond success (token_in result)
  token_answer success (refused e) = failed (status_of e)
  token_answer success (limited _ _) = failed 429

  -- One request to a guarded route, answered as `answer` reads the reply.
  abbrev pub served_by :
      {A : Type 0} → (Reply jwt → Response A) → (Moment → Call jwt) → Running → Response A × Running
  served_by answer request s =
      let (reply, b) =
        handle bcrypt jwt no_credentials R json server (request (moments s.requests)) s.backend in
      (answer reply, record { backend = b; requests = s.requests + 1 })

  abbrev cache_after : R.State → Option R.State → R.State
  cache_after old none = old
  cache_after old (some new) = new

  abbrev pub seats_served : (schedule_id : ℕ) → Running → Response SeatAvailability × Running
  seats_served schedule_id s =
      let now = (moments s.requests).now in
      let (result, cache) =
        get_seats R json by_seat s.backend.world.db schedule_id (some s.backend.cache) now now in
      (
        respond 200 result,
        record {
          backend = record s.backend { cache = cache_after s.backend.cache cache };
          requests = s.requests + 1;
        },
      )

  abbrev listed : {A : Type 0} → A → Running → Response A × Running
  listed rows s =
      (record { status_code = 200; json = some rows }, record s { requests = s.requests + 1 })

  abbrev bookings_of : Result User → Db → Result (List BookingResponse)
  bookings_of user db = do u ← user; list_bookings newest u.id none db

  abbrev pub backend_service : Service
  backend_service = record {
    State = Running;
    Token = jwt.Token;
    post_register = λ email password full_name.
        served_by (token_answer 201)
          (λ m. by_client client m.now (post_register email password full_name none m.salt m.env));
    post_login = λ email password.
        served_by (token_answer 200)
          (λ m. by_client client m.now (post_login email password m.env));
    get_trains = λ headers s. listed (list_trains by_name s.backend.world.db) s;
    get_schedules = λ train_id headers s.
        listed (list_schedules by_departure train_id (moments s.requests).now s.backend.world.db) s;
    get_seats = λ schedule_id headers. seats_served schedule_id;
    post_booking = λ schedule_id seat_id key headers.
        served_by (booking_answer 201)
          (λ m. by_user (some headers.bearer) m.now (post_booking schedule_id seat_id key m.env));
    post_pay = λ booking_id key headers.
        served_by (booking_answer 200)
          (λ m. by_user (some headers.bearer) m.now (post_pay booking_id key m.draw m.hex m.env));
    get_bookings = λ headers s.
        let db = s.backend.world.db in
        let user =
          user_of bcrypt jwt no_credentials (some headers.bearer) (moments s.requests).now db in
        (respond 200 (bookings_of user db), record s { requests = s.requests + 1 });
    get_health = λ s. listed tt s;
    get_config = λ s. listed (get_config s.backend.world.gateway) s;
  }
