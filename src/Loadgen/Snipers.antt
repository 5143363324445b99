-- ===== src/Loadgen/Snipers.antt =====
-- `SeatSniper` of loadtest/locustfile.py.
use railbook.Base.{ℕ, String, Option, none, some, List, [], ◌∷◌}
use railbook.Models.{Train}
use railbook.Loadgen.{
  Headers, get_auth_headers, Service, Client, ◌>>=◌, pure, call, json_or, SeatSniper, register_user,
  get_available_seat,
}

module _ (S : Service) where
  abbrev pub first_schedule : Headers S.Token → List Train → Client S.State (Option ℕ)
  first_schedule headers [] = pure none
  first_schedule headers (train ∷ _) = do
    resp ← call (S.get_schedules train.id headers)
    schedules ← json_or (pure []) resp
    pure (elim schedules as (λ _. Option ℕ) [ [] ↦ none | schedule ∷ _ ↦ some schedule.id ])

  unfoldable pub on_start : (email : String) → Client S.State (SeatSniper S.Token)
  unfolding register_user
  on_start email = do
    user ← register_user S email
    resp ← call (S.get_trains (get_auth_headers user.1))
    trains ← json_or (pure []) resp
    target ← first_schedule (get_auth_headers user.1) trains
    pure (record { headers = get_auth_headers user.1; target_schedule = target })

  abbrev pub book : (key schedule_id : ℕ) → Headers S.Token → Option ℕ → Client S.State (Unit {0})
  book key schedule_id headers none = pure tt
  book key schedule_id headers (some seat_id) = do
    _ ← call (S.post_booking schedule_id seat_id key headers)
    pure tt

  abbrev pub snipe_at : (key : ℕ) → Headers S.Token → Option ℕ → Client S.State (Unit {0})
  snipe_at key headers none = pure tt
  snipe_at key headers (some schedule_id) = do
    seat_id ← get_available_seat S schedule_id headers
    book key schedule_id headers seat_id

  unfoldable pub snipe_seat : (key : ℕ) → SeatSniper S.Token → Client S.State (Unit {0})
  unfolding get_available_seat
  snipe_seat key self = snipe_at key self.headers self.target_schedule
