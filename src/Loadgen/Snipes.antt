-- ===== src/Loadgen/Snipes.antt =====
-- One attempt of a sniper against the backend.
use railbook.Base.{
  ℕ, ◌+◌, ◌≡◌, refl, ◌∙◌, true, false, String, Option, none, some, [], ◌∷◌, arith, inl, inr,
  Option-cases, ◌==◌,
}
use railbook.Base.Outcome.{Error, ok}
use railbook.Base.Rows.{select, count_rows, get_row, has_row, AllPairs}
use railbook.Models.{Train, Schedule, Seat, Booking, User, Env}
use railbook.Auth.{Bcrypt, Jwt}
use railbook.Bookings.{is_active, get_schedule, is_overlapping}
use railbook.Bookings.Create.{is_at, new_booking, seat_price, create_booking}
use railbook.Integrity.{IsValid}
use railbook.Integrity.Creates.{reserved_db}
use railbook.Guarantees.Reservations.{with_key, create_booking_succeeds, rebooking_refused}
use railbook.Ratelimit
use railbook.Ratelimit.{Verdict, pass, too_many, passes, Guard, run_guard}
use railbook.Redis.{Redis, Json}
use railbook.Redis.SortedSets
use railbook.System.{World, commit_or}
use railbook.Trains.{SeatAvailability, OrderBy, payload, query, read_cache, get_seat_availability}
use railbook.Trains.Availability.{is_open}
use railbook.Bookings.Queries.{NewestFirst}
use railbook.Trains.Lists.{Ordering, get_seats}
use railbook.Api.{user_of}
use railbook.Loadgen.{go_on, Service, Headers, SeatSniper, first_available, get_available_seat}
use railbook.Loadgen.Backends.{Moment, Running, backend_service}
use railbook.Loadgen.Booked.{post_booking-world, user_of-known}
use railbook.Loadgen.Picks.{rows, picked_is_open, none_open, bookings_of_open, priced_where_open}
use railbook.Loadgen.Snipers.{snipe_seat, book}

-- What an attempt on a schedule does to the tables: there is no open seat, and nothing is done; an
-- open seat without a booking is reserved; or the seat has a released booking, and nothing is done.
pub data Sniped (user_id key : ℕ) (env : Env) (schedule : Schedule) (before after : World)
    : Type 0 where
  nothing_open :
      count_rows (is_open before.db schedule) before.db.seats ≡ 0
      → after ≡ before
      → Sniped user_id key env schedule before after
  reserved :
      (seat : Seat) (price : ℕ)
      → is_open before.db schedule seat ≡ true
      → select (is_at schedule.id seat.id) before.db.bookings ≡ []
      → seat_price seat.id before.db ≡ ok price
      → after ≡ record before {
        db = reserved_db (new_booking user_id schedule.id seat.id key price env) env before.db;
      }
      → Sniped user_id key env schedule before after
  held_back :
      (seat : Seat) (old : Booking)
      → is_open before.db schedule seat ≡ true
      → select (is_at schedule.id seat.id) before.db.bookings ≡ old ∷ []
      → is_active old.status ≡ false
      → after ≡ before
      → Sniped user_id key env schedule before after

module _ (bcrypt : Bcrypt) (jwt : Jwt) (no_credentials : Error) (R : Redis)
    (json : Json SeatAvailability) (server : SortedSets.Server) (by_seat : OrderBy)
    (by_name : Ordering Train) (by_departure : Ordering Schedule) (newest : NewestFirst)
    (client : Option String) (moments : ℕ → Moment) where
  abbrev State : Type 0
  State =
      Running bcrypt jwt no_credentials R json server by_seat by_name by_departure newest client
        moments

  module _ (s : State) (schedule : Schedule) (train : Train)
      (found : get_schedule schedule.id s.backend.world.db ≡ some schedule)
      (on : get_row (λ t. t.id) schedule.train_id s.backend.world.db.trains ≡ some train)
      (uncached : read_cache R json (some s.backend.cache) (moments s.requests).now schedule.id
        ≡ none) where
    abbrev service : Service
    service =
        backend_service bcrypt jwt no_credentials R json server by_seat by_name by_departure newest
          client moments

    query_answered :
        query by_seat s.backend.world.db schedule.id
        ≡ ok (some (payload schedule train (rows by_seat s.backend.world.db schedule)))
    unfolding query
    query_answered = ground (arith, found, on)

    -- The seat of a fresh payload is the first available one of its rows.
    seat_from_tables :
        (headers : Headers jwt.Token)
        → (s' : State) × (get_available_seat service schedule.id headers s
            ≡ (some (first_available (rows by_seat s.backend.world.db schedule)), s'))
          × (s'.backend.world ≡ s.backend.world)
          × (s'.backend.limiter ≡ s.backend.limiter)
          × (s'.requests ≡ s.requests + 1)
    unfolding get_available_seat go_on get_seats get_seat_availability
    seat_from_tables headers = (
      (service.get_seats schedule.id headers s).1,
      rw (uncached, query_answered) refl,
      refl,
      refl,
      refl,
    )

    abbrev next : Moment
    next = moments (s.requests + 1)

    module _ (self : SeatSniper jwt.Token) (key : ℕ) (user : User)
        (signed : user_of bcrypt jwt no_credentials
            (some self.headers.bearer)
            next.now
            s.backend.world.db
          ≡ ok user)
        (through : passes
            (run_guard server (Ratelimit.booking user.id) next.now s.backend.limiter).0
          ≡ true) where
      booked_world :
          (seat_id : ℕ) (s' : State)
          → s'.backend.world ≡ s.backend.world
          → s'.backend.limiter ≡ s.backend.limiter
          → s'.requests ≡ s.requests + 1
          → let w = s.backend.world in
            (book service key schedule.id self.headers (some seat_id) s').1.backend.world
            ≡ record w {
              db = commit_or (create_booking user.id schedule.id seat_id key next.env w.db) w.db;
            }
      unfolding go_on
      booked_world seat_id s' same_world same_limiter step =
          post_booking-world bcrypt jwt no_credentials R json server schedule.id seat_id key
            (moments s'.requests).env (moments s'.requests).now self.headers.bearer user s'.backend
            (rw (same_world, step) signed) (rw (same_limiter, step) through)
          ∙ rw (same_world, step) refl

      seat-Sniped :
          (seat : Seat) {after : World}
          → let db = s.backend.world.db in
            IsValid db
            → get_row (λ s. s.id) seat.id db.seats ≡ some seat
            → is_open db schedule seat ≡ true
            → with_key key db ≡ []
            → select (is_overlapping db user.id schedule) db.bookings ≡ []
            → has_row (λ b. b.id) (next.env.uuid 0) db.bookings ≡ false
            → after ≡ record s.backend.world {
              db = commit_or (create_booking user.id schedule.id seat.id key next.env db) db;
            }
            → Sniped user.id key next.env schedule s.backend.world after
      seat-Sniped seat {after} v held vacant unused alone fresh e =
          let known =
            user_of-known bcrypt jwt no_credentials R json server self.headers.bearer next.now
              s.backend.world.db user signed in
          let db = s.backend.world.db in
          let (price, priced) = priced_where_open db schedule seat vacant held in
          elim (bookings_of_open db schedule seat v vacant) [
            | inl free ↦
                let made =
                  create_booking_succeeds user.id schedule.id seat.id key next.env db schedule price
                    unused free found alone priced known fresh in
                reserved seat price vacant free priced (e ∙ rw made refl)
            | inr (old, there, released) ↦
                let refused =
                  rebooking_refused user.id schedule.id seat.id key next.env db schedule price old v
                    unused there released found alone priced in
                held_back seat old vacant there released (e ∙ rw refused refl)
          ]

      -- Where the tables are valid and no two seats have one id, an attempt of a sniper on a schedule
      -- of a train, with a token of a user without an overlapping journey that the limit lets
      -- through, a new key, a new id for the row and no payload in the cache, either finds no open
      -- seat, or reserves one that has no booking, or comes upon one whose booking was released;
      -- in the first case and in the last it changes nothing.
      pub snipe_seat-outcome :
          self.target_schedule ≡ some schedule.id
          → IsValid s.backend.world.db
          → AllPairs (λ (x : Seat) (y : Seat). (x.id == y.id) ≡ false) s.backend.world.db.seats
          → with_key key s.backend.world.db ≡ []
          → select (is_overlapping s.backend.world.db user.id schedule) s.backend.world.db.bookings
            ≡ []
          → has_row (λ b. b.id) (next.env.uuid 0) s.backend.world.db.bookings ≡ false
          → Sniped user.id key next.env schedule s.backend.world
              (snipe_seat service key self s).1.backend.world
      unfolding snipe_seat go_on
      snipe_seat-outcome target v distinct unused alone fresh =
          let (s', read, same_world, same_limiter, step) = seat_from_tables self.headers in
          rw (target, read)
            (elim (Option-cases (first_available (rows by_seat s.backend.world.db schedule))) [
              | inl none_left ↦ rw none_left (
                  nothing_open (none_open by_seat s.backend.world.db schedule v none_left)
                    same_world)
              | inr (seat_id, pick) ↦
                  let (seat, picked, held, vacant) =
                    picked_is_open by_seat s.backend.world.db schedule seat_id distinct pick in
                  rw picked (
                    seat-Sniped seat v held vacant unused alone fresh
                      (booked_world seat.id s' same_world same_limiter step))
            ])
