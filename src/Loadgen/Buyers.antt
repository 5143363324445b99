-- ===== src/Loadgen/Buyers.antt =====
-- `TicketBuyer` of loadtest/locustfile.py.
use railbook.Base.{ℕ, String, Option, none, some, List, [], ◌∷◌, ◌==◌, if◌then◌else◌}
use railbook.Models.{Train, Schedule}
use railbook.Bookings.Queries.{BookingResponse}
use railbook.Loadgen.{
  Response, Headers, get_auth_headers, Service, Client, ◌>>=◌, pure, or_raised, call, json_or,
  TicketBuyer, register_user, get_available_seat,
}

module _ (S : Service) where
  unfoldable pub on_start : (email : String) → Client S.State (TicketBuyer S.Token)
  unfolding register_user
  on_start email = do
    user ← register_user S email
    pure (record { headers = get_auth_headers user.1; trains = []; schedules = [] })

  unfoldable pub browse_trains : TicketBuyer S.Token → Client S.State (TicketBuyer S.Token)
  browse_trains self = do
    resp ← call (S.get_trains self.headers)
    trains ← json_or (pure self.trains) resp
    pure (record self { trains = trains })

  -- The seats of the first schedule are asked for, and not used.
  abbrev pub view_first : Headers S.Token → List Schedule → Client S.State (Unit {0})
  view_first headers [] = pure tt
  view_first headers (schedule ∷ _) = do _ ← call (S.get_seats schedule.id headers); pure tt

  abbrev pub view_train : TicketBuyer S.Token → List Train → Client S.State (TicketBuyer S.Token)
  view_train self [] = pure self
  view_train self (train ∷ _) = do
    resp ← call (S.get_schedules train.id self.headers)
    schedules ← json_or (pure self.schedules) resp
    _ ← view_first self.headers schedules
    pure (record self { schedules = schedules })

  unfoldable pub view_seats : TicketBuyer S.Token → Client S.State (TicketBuyer S.Token)
  view_seats self = view_train self self.trains

  -- A booking that was made is paid, by its id in the answer.
  abbrev pub pay_for :
      (payment_key : ℕ) → Headers S.Token → Response BookingResponse → Client S.State (Unit {0})
  pay_for payment_key headers resp =
      if resp.status_code == 201
      then (do
        made ← or_raised resp.json
        _ ← call (S.post_pay made.booking.id payment_key headers)
        pure tt)
      else pure tt

  abbrev pub book_seat :
      (key payment_key schedule_id : ℕ) → Headers S.Token → Option ℕ → Client S.State (Unit {0})
  book_seat key payment_key schedule_id headers none = pure tt
  book_seat key payment_key schedule_id headers (some seat_id) = do
    resp ← call (S.post_booking schedule_id seat_id key headers)
    pay_for payment_key headers resp

  abbrev pub book_first :
      (key payment_key : ℕ) → Headers S.Token → List Schedule → Client S.State (Unit {0})
  book_first key payment_key headers [] = pure tt
  book_first key payment_key headers (schedule ∷ _) = do
    seat_id ← get_available_seat S schedule.id headers
    book_seat key payment_key schedule.id headers seat_id

  unfoldable pub book_and_pay :
      (key payment_key : ℕ) → TicketBuyer S.Token → Client S.State (Unit {0})
  unfolding get_available_seat
  book_and_pay key payment_key self = book_first key payment_key self.headers self.schedules
