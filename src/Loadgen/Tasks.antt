-- ===== src/Loadgen/Tasks.antt =====
-- The users of loadtest/locustfile.py, task after task, and a predicate on the service's state that
-- every request keeps.
use railbook.Base.{ℕ, String, List, [], ◌∷◌}
use railbook.Loadgen.{Headers, Service, TicketBuyer, SeatSniper}
use railbook.Loadgen.Buyers
use railbook.Loadgen.Snipers
use railbook.Loadgen.Mixed

-- `on_start` of the three users, and what they do then. A task is given the user's `self`, whatever
-- that holds by then.
pub data Task (Token : Type 0) : Type 0 where
  start_buyer start_sniper start_mixed : (email : String) → Task Token
  browse_trains view_seats : TicketBuyer Token → Task Token
  book_and_pay : (key payment_key : ℕ) → TicketBuyer Token → Task Token
  snipe_seat : (key : ℕ) → SeatSniper Token → Task Token
  browse my_bookings : Headers Token → Task Token
  health demo_config : Task Token

module _ (S : Service) where
  -- A task that raises is logged, and the next one follows.
  unfoldable pub run_task : Task S.Token → S.State → S.State
  run_task (start_buyer email) s = (Buyers.on_start S email s).1
  run_task (start_sniper email) s = (Snipers.on_start S email s).1
  run_task (browse_trains self) s = (Buyers.browse_trains S self s).1
  run_task (view_seats self) s = (Buyers.view_seats S self s).1
  run_task (book_and_pay key payment_key self) s = (Buyers.book_and_pay S key payment_key self s).1
  run_task (snipe_seat key self) s = (Snipers.snipe_seat S key self s).1
  run_task (start_mixed email) s = (Mixed.on_start S email s).1
  run_task (browse headers) s = (Mixed.browse S headers s).1
  run_task (my_bookings headers) s = (Mixed.my_bookings S headers s).1
  run_task health s = (Mixed.health S s).1
  run_task demo_config s = (Mixed.demo_config S s).1

  unfoldable pub run_tasks : List (Task S.Token) → S.State → S.State
  unfolding run_task
  run_tasks [] s = s
  run_tasks (task ∷ tasks) s = run_tasks tasks (run_task task s)

  module _ (Ok : S.State → Type 0) where
    -- Every operation of the service keeps the predicate.
    pub record Stable : Type 0 where
      pub post_register :
          (email password full_name : String) (s : S.State)
          → Ok s
          → Ok (S.post_register email password full_name s).1
      pub post_login :
          (email password : String) (s : S.State) → Ok s → Ok (S.post_login email password s).1
      pub get_trains : (h : Headers S.Token) (s : S.State) → Ok s → Ok (S.get_trains h s).1
      pub get_schedules :
          (train_id : ℕ) (h : Headers S.Token) (s : S.State)
          → Ok s
          → Ok (S.get_schedules train_id h s).1
      pub get_seats :
          (schedule_id : ℕ) (h : Headers S.Token) (s : S.State)
          → Ok s
          → Ok (S.get_seats schedule_id h s).1
      pub post_booking :
          (schedule_id seat_id key : ℕ) (h : Headers S.Token) (s : S.State)
          → Ok s
          → Ok (S.post_booking schedule_id seat_id key h s).1
      pub post_pay :
          (booking_id key : ℕ) (h : Headers S.Token) (s : S.State)
          → Ok s
          → Ok (S.post_pay booking_id key h s).1
      pub get_bookings : (h : Headers S.Token) (s : S.State) → Ok s → Ok (S.get_bookings h s).1
      pub get_health : (s : S.State) → Ok s → Ok (S.get_health s).1
      pub get_config : (s : S.State) → Ok s → Ok (S.get_config s).1
