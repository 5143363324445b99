-- ===== src/Loadgen/Kept.antt =====
-- A predicate on the service's state that every request keeps is kept by the tasks.
use railbook.Base.{
  ℕ, String, Bool, true, false, Option, none, some, List, [], ◌∷◌, ◌==◌, if◌then◌else◌,
}
use railbook.Models.{Train, Schedule}
use railbook.Bookings.Queries.{BookingResponse}
use railbook.Loadgen.{
  Response, Headers, get_auth_headers, Service, Client, go_on, pure, or_raised, json_or,
  TicketBuyer, register_user, get_available_seat,
}
use railbook.Loadgen.Tasks.{
  Task, start_buyer, start_sniper, start_mixed, browse, my_bookings, health, demo_config,
  browse_trains, view_seats, book_and_pay, snipe_seat, run_task, run_tasks, Stable,
}
use railbook.Loadgen.Buyers
use railbook.Loadgen.Snipers
use railbook.Loadgen.Mixed

module _ (S : Service) (Ok : S.State → Type 0) where
  abbrev Keeps : {A : Type 0} → Client S.State A → Type 0
  Keeps m = (s : S.State) → Ok s → Ok (m s).1

  bind-Keeps :
      {A B : Type 0} (r : Option A × S.State) (rest : A → Client S.State B)
      → Ok r.1
      → ((a : A) → Keeps (rest a))
      → Ok (go_on r rest).1
  unfolding go_on
  bind-Keeps (none, s) rest h later = h
  bind-Keeps (some a, s) rest h later = later a s h

  branch-Keeps :
      {A : Type 0} (c : Bool) (m other : Client S.State A)
      → Keeps m
      → Keeps other
      → Keeps (if c then m else other)
  branch-Keeps true m other h k = h
  branch-Keeps false m other h k = k

  module _ (stable : Stable S Ok) where
    register_user-Keeps : (email : String) → Keeps (register_user S email)
    unfolding register_user
    register_user-Keeps email s h =
        bind-Keeps _ _ (stable.post_register email "loadtest123" "Load Tester" s h) (λ resp s h.
          bind-Keeps _ _
            (branch-Keeps (resp.status_code == 201) _ _ (λ s h. h)
              (λ s h. bind-Keeps _ _ (stable.post_login email "loadtest123" s h) (λ resp' s h. h)) s
              h)
            (λ token s h. h))

    json_or-Keeps :
        {A : Type 0} (other : Client S.State A) (resp : Response A)
        → Keeps other
        → Keeps (json_or other resp)
    json_or-Keeps other resp =
        branch-Keeps (resp.status_code == 200) (or_raised resp.json) other (λ s h. h)

    get_available_seat-Keeps :
        (schedule_id : ℕ) (headers : Headers S.Token)
        → Keeps (get_available_seat S schedule_id headers)
    unfolding get_available_seat
    get_available_seat-Keeps schedule_id headers s h =
        bind-Keeps _ _ (stable.get_seats schedule_id headers s h) (λ resp.
          branch-Keeps (resp.status_code == 200) _ _ (λ s h. bind-Keeps _ _ h (λ payload s h. h))
            (λ s h. h))

    on_start-Keeps : (email : String) → Keeps (Buyers.on_start S email)
    unfolding Buyers.on_start
    on_start-Keeps email s h = bind-Keeps _ _ (register_user-Keeps email s h) (λ user s h. h)

    browse_trains-Keeps : (self : TicketBuyer S.Token) → Keeps (Buyers.browse_trains S self)
    unfolding Buyers.browse_trains
    browse_trains-Keeps self s h = bind-Keeps _ _ (stable.get_trains self.headers s h) (λ resp s h.
        bind-Keeps _ _ (json_or-Keeps (pure self.trains) resp (λ s h. h) s h) (λ trains s h. h))

    view_first-Keeps :
        (headers : Headers S.Token) (schedules : List Schedule)
        → Keeps (Buyers.view_first S headers schedules)
    view_first-Keeps headers [] s h = h
    view_first-Keeps headers (schedule ∷ rest) s h =
        bind-Keeps _ _ (stable.get_seats schedule.id headers s h) (λ _ s h. h)

    view_train-Keeps :
        (self : TicketBuyer S.Token) (trains : List Train) → Keeps (Buyers.view_train S self trains)
    view_train-Keeps self [] s h = h
    view_train-Keeps self (train ∷ rest) s h =
        bind-Keeps _ _ (stable.get_schedules train.id self.headers s h) (λ resp s h.
          bind-Keeps _ _ (json_or-Keeps (pure self.schedules) resp (λ s h. h) s h) (λ schedules s h.
            bind-Keeps _ _ (view_first-Keeps self.headers schedules s h) (λ _ s h. h)))

    pay_for-Keeps :
        (payment_key : ℕ) (headers : Headers S.Token) (resp : Response BookingResponse)
        → Keeps (Buyers.pay_for S payment_key headers resp)
    pay_for-Keeps payment_key headers resp =
        branch-Keeps (resp.status_code == 201) _ _
          (λ s h. bind-Keeps _ _ h (λ made s h.
            bind-Keeps _ _ (stable.post_pay made.booking.id payment_key headers s h) (λ _ s h. h)))
          (λ s h. h)

    book_seat-Keeps :
        (key payment_key schedule_id : ℕ) (headers : Headers S.Token) (seat : Option ℕ)
        → Keeps (Buyers.book_seat S key payment_key schedule_id headers seat)
    book_seat-Keeps key payment_key schedule_id headers none s h = h
    book_seat-Keeps key payment_key schedule_id headers (some seat_id) s h =
        bind-Keeps _ _ (stable.post_booking schedule_id seat_id key headers s h)
          (pay_for-Keeps payment_key headers)

    book_first-Keeps :
        (key payment_key : ℕ) (headers : Headers S.Token) (schedules : List Schedule)
        → Keeps (Buyers.book_first S key payment_key headers schedules)
    book_first-Keeps key payment_key headers [] s h = h
    book_first-Keeps key payment_key headers (schedule ∷ rest) s h =
        bind-Keeps _ _ (get_available_seat-Keeps schedule.id headers s h)
          (book_seat-Keeps key payment_key schedule.id headers)

    first_schedule-Keeps :
        (headers : Headers S.Token) (trains : List Train)
        → Keeps (Snipers.first_schedule S headers trains)
    first_schedule-Keeps headers [] s h = h
    first_schedule-Keeps headers (train ∷ rest) s h =
        bind-Keeps _ _ (stable.get_schedules train.id headers s h) (λ resp s h.
          bind-Keeps _ _ (json_or-Keeps (pure []) resp (λ s h. h) s h) (λ schedules s h. h))

    sniper-Keeps : (email : String) → Keeps (Snipers.on_start S email)
    unfolding Snipers.on_start
    sniper-Keeps email s h = bind-Keeps _ _ (register_user-Keeps email s h) (λ user s h.
        bind-Keeps _ _ (stable.get_trains (get_auth_headers user.1) s h) (λ resp s h.
          bind-Keeps _ _ (json_or-Keeps (pure []) resp (λ s h. h) s h) (λ trains s h.
            bind-Keeps _ _ (first_schedule-Keeps (get_auth_headers user.1) trains s h)
              (λ target s h. h))))

    book-Keeps :
        (key schedule_id : ℕ) (headers : Headers S.Token) (seat : Option ℕ)
        → Keeps (Snipers.book S key schedule_id headers seat)
    book-Keeps key schedule_id headers none s h = h
    book-Keeps key schedule_id headers (some seat_id) s h =
        bind-Keeps _ _ (stable.post_booking schedule_id seat_id key headers s h) (λ _ s h. h)

    snipe_at-Keeps :
        (key : ℕ) (headers : Headers S.Token) (target : Option ℕ)
        → Keeps (Snipers.snipe_at S key headers target)
    snipe_at-Keeps key headers none s h = h
    snipe_at-Keeps key headers (some schedule_id) s h =
        bind-Keeps _ _ (get_available_seat-Keeps schedule_id headers s h)
          (book-Keeps key schedule_id headers)

    -- No task breaks what every request keeps.
    pub run_task-Keeps : (task : Task S.Token) (s : S.State) → Ok s → Ok (run_task S task s)
    unfolding run_task Buyers.view_seats Buyers.book_and_pay Snipers.snipe_seat Mixed.on_start
        Mixed.browse Mixed.my_bookings Mixed.health Mixed.demo_config
    run_task-Keeps (start_buyer email) s h = on_start-Keeps email s h
    run_task-Keeps (start_sniper email) s h = sniper-Keeps email s h
    run_task-Keeps (browse_trains self) s h = browse_trains-Keeps self s h
    run_task-Keeps (view_seats self) s h = view_train-Keeps self self.trains s h
    run_task-Keeps (book_and_pay key payment_key self) s h =
        book_first-Keeps key payment_key self.headers self.schedules s h
    run_task-Keeps (snipe_seat key self) s h =
        snipe_at-Keeps key self.headers self.target_schedule s h
    run_task-Keeps (start_mixed email) s h =
        bind-Keeps _ _ (register_user-Keeps email s h) (λ user s h. h)
    run_task-Keeps (browse headers) s h =
        bind-Keeps _ _ (stable.get_trains headers s h) (λ _ s h. h)
    run_task-Keeps (my_bookings headers) s h =
        bind-Keeps _ _ (stable.get_bookings headers s h) (λ _ s h. h)
    run_task-Keeps health s h = bind-Keeps _ _ (stable.get_health s h) (λ _ s h. h)
    run_task-Keeps demo_config s h = bind-Keeps _ _ (stable.get_config s h) (λ _ s h. h)

    pub run_tasks-Keeps :
        (tasks : List (Task S.Token)) (s : S.State) → Ok s → Ok (run_tasks S tasks s)
    unfolding run_tasks
    run_tasks-Keeps [] s h = h
    run_tasks-Keeps (task ∷ tasks) s h =
        run_tasks-Keeps tasks (run_task S task s) (run_task-Keeps task s h)
