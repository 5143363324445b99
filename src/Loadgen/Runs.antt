-- ===== src/Loadgen/Runs.antt =====
-- The integrity checker after a run of the load test against the backend.
use railbook.Base.{
  ℕ, ◌+◌, ◌≤◌, ◌≡◌, String, Bool, false, Option, none, some, List, [], ◌∷◌, inl, inr,
}
use railbook.Base.Outcome.{Error}
use railbook.Models.{Train, Schedule, Env, minutes}
use railbook.Bookings.Cleanup.{cleanup_pass}
use railbook.Integrity.Cleanups.{cleanup_pass-IsValid}
use railbook.Auth.{Bcrypt, Jwt}
use railbook.Redis.{Redis, Json}
use railbook.Redis.SortedSets
use railbook.System.{World}
use railbook.Trains.{SeatAvailability, OrderBy}
use railbook.Bookings.Queries.{NewestFirst}
use railbook.Trains.Lists.{Ordering}
use railbook.Api.{
  post_booking, post_pay, post_register, post_login, by_user, by_client, Backend, handle,
}
use railbook.Api.Permits.{handle-Effect}
use railbook.Loadtest.{exit_code}
use railbook.Loadtest.Passes.{exit_code_after_cleanup}
use railbook.Loadgen.{Service}
use railbook.Loadgen.Tasks.{Task, run_task, Stable}
use railbook.Loadgen.Kept.{run_task-Keeps}
use railbook.Loadgen.Backends.{Moment, Running, backend_service}
use railbook.Loadgen.Checks.{Sound, cleanup_pass-HasSystem, create-Sound, pay-Sound, register-Sound}

-- What happens while the load test runs: a task of one of its users, or a pass of the backend's
-- cleanup.
pub data Activity (Token : Type 0) : Type 0 where
  visit : Task Token → Activity Token
  cleanup : (now : ℕ) → (ℕ → Bool) → Activity Token

module _ (bcrypt : Bcrypt) (jwt : Jwt) (no_credentials : Error) (R : Redis)
    (json : Json SeatAvailability) (server : SortedSets.Server) (by_seat : OrderBy)
    (by_name : Ordering Train) (by_departure : Ordering Schedule) (newest : NewestFirst)
    (client : Option String) (moments : ℕ → Moment) where
  abbrev State : Type 0
  State =
      Running bcrypt jwt no_credentials R json server by_seat by_name by_departure newest client
        moments

  abbrev service : Service
  service =
      backend_service bcrypt jwt no_credentials R json server by_seat by_name by_departure newest
        client moments

  abbrev pub cleaned : (now : ℕ) → (ℕ → Bool) → World → World
  cleaned now locked w = record w { db = cleanup_pass now locked w.db }

  abbrev act : Activity jwt.Token → State → State
  act (visit task) s = run_task service task s
  act (cleanup now locked) s = record s {
    backend = record s.backend { world = cleaned now locked s.backend.world };
  }

  unfoldable pub run_load : List (Activity jwt.Token) → State → State
  run_load [] s = s
  run_load (a ∷ rest) s = run_load rest (act a s)

  abbrev Ok : State → Type 0
  Ok s = Sound bcrypt jwt s.backend.world

  post_booking-Sound :
      (token : Option jwt.Token) (now schedule_id seat_id key : ℕ) (env : Env)
      (b : Backend R server)
      → Sound bcrypt jwt b.world
      → Sound bcrypt jwt
          (handle bcrypt jwt no_credentials R json server
            (by_user token now (post_booking schedule_id seat_id key env))
            b).1.world
  post_booking-Sound token now schedule_id seat_id key env b h =
      elim (handle-Effect bcrypt jwt no_credentials R json server
        (by_user token now (post_booking schedule_id seat_id key env)) b) [
          | inl same ↦ rw same h
          | inr (q, (user, _, _, is), e) ↦
              rw (e, is) (create-Sound bcrypt jwt user.id schedule_id seat_id key env b.world h)
        ]

  post_pay-Sound :
      (token : Option jwt.Token) (now booking_id key draw : ℕ) (hex : String) (env : Env)
      (b : Backend R server)
      → Sound bcrypt jwt b.world
      → Sound bcrypt jwt
          (handle bcrypt jwt no_credentials R json server
            (by_user token now (post_pay booking_id key draw hex env))
            b).1.world
  post_pay-Sound token now booking_id key draw hex env b h =
      elim (handle-Effect bcrypt jwt no_credentials R json server
        (by_user token now (post_pay booking_id key draw hex env)) b) [
          | inl same ↦ rw same h
          | inr (q, (user, _, _, is), e) ↦
              rw (e, is) (pay-Sound bcrypt jwt booking_id user.id key draw hex env b.world h)
        ]

  post_register-Sound :
      (now : ℕ) (email password full_name : String) (phone : Option String) (salt : ℕ) (env : Env)
      (b : Backend R server)
      → Sound bcrypt jwt b.world
      → Sound bcrypt jwt
          (handle bcrypt jwt no_credentials R json server
            (by_client client now (post_register email password full_name phone salt env))
            b).1.world
  post_register-Sound now email password full_name phone salt env b h =
      elim (handle-Effect bcrypt jwt no_credentials R json server
        (by_client client now (post_register email password full_name phone salt env)) b) [
          | inl same ↦ rw same h
          | inr (q, (_, is), e) ↦
              rw (e, is)
                (register-Sound bcrypt jwt email password full_name phone salt env b.world h)
        ]

  post_login-Sound :
      (now : ℕ) (email password : String) (env : Env) (b : Backend R server)
      → Sound bcrypt jwt b.world
      → Sound bcrypt jwt
          (handle bcrypt jwt no_credentials R json server
            (by_client client now (post_login email password env))
            b).1.world
  post_login-Sound now email password env b h =
      elim (handle-Effect bcrypt jwt no_credentials R json server
        (by_client client now (post_login email password env)) b) [
          | inl same ↦ rw same h
          | inr (q, none_permitted, e) ↦ absurd none_permitted
        ]

  backend-Stable : Stable service Ok
  backend-Stable = record {
    post_register = λ email password full_name s h.
        post_register-Sound (moments s.requests).now email password full_name none
          (moments s.requests).salt (moments s.requests).env s.backend h;
    post_login = λ email password s h.
        post_login-Sound (moments s.requests).now email password (moments s.requests).env s.backend
          h;
    get_trains = λ headers s h. h;
    get_schedules = λ train_id headers s h. h;
    get_seats = λ schedule_id headers s h. h;
    get_bookings = λ headers s h. h;
    get_health = λ s h. h;
    get_config = λ s h. h;
    post_booking = λ schedule_id seat_id key headers s h.
        post_booking-Sound (some headers.bearer) (moments s.requests).now schedule_id seat_id key
          (moments s.requests).env s.backend h;
    post_pay = λ booking_id key headers s h.
        post_pay-Sound (some headers.bearer) (moments s.requests).now booking_id key
          (moments s.requests).draw (moments s.requests).hex (moments s.requests).env s.backend h;
  }

  run_load-Sound : (visits : List (Activity jwt.Token)) (s : State) → Ok s → Ok (run_load visits s)
  unfolding run_load
  run_load-Sound [] s h = h
  run_load-Sound (visit task ∷ rest) s h =
      run_load-Sound rest _ (run_task-Keeps service Ok backend-Stable task s h)
  run_load-Sound (cleanup now locked ∷ rest) s h = run_load-Sound rest _ (
    cleanup_pass-IsValid now locked s.backend.world.db h.0,
    cleanup_pass-HasSystem now locked s.backend.world.db h.1,
  )

  -- From valid tables with the system user, whatever tasks the users of the load test carry out
  -- through the guarded routes, at whatever times and with whatever outcomes at the gateway, and
  -- whatever passes of the cleanup come in between: after one more pass that no lock holds back, the
  -- integrity checker exits with 0 for two minutes.
  pub load_test_passes :
      (activities : List (Activity jwt.Token)) (s : State) (now t : ℕ)
      → Sound bcrypt jwt s.backend.world
      → t ≤ now + minutes 2
      → exit_code t (cleanup_pass now (λ _. false) (run_load activities s).backend.world.db) ≡ 0
  load_test_passes activities s now t sound soon =
      let ended = run_load-Sound activities s sound in
      exit_code_after_cleanup now t (run_load activities s).backend.world.db ended.0 ended.1 soon
