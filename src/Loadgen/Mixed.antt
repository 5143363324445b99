-- ===== src/Loadgen/Mixed.antt =====
-- `MixedLoad` of loadtest/locustfile.py. Its tasks look at no answer.
use railbook.Base.{String}
use railbook.Loadgen.{Headers, get_auth_headers, Service, Client, ◌>>=◌, pure, call, register_user}

module _ (S : Service) where
  unfoldable pub on_start : (email : String) → Client S.State (Headers S.Token)
  unfolding register_user
  on_start email = do user ← register_user S email; pure (get_auth_headers user.1)

  unfoldable pub browse : Headers S.Token → Client S.State (Unit {0})
  browse headers = do _ ← call (S.get_trains headers); pure tt

  unfoldable pub health : Client S.State (Unit {0})
  health = do _ ← call S.get_health; pure tt

  unfoldable pub my_bookings : Headers S.Token → Client S.State (Unit {0})
  my_bookings headers = do _ ← call (S.get_bookings headers); pure tt

  unfoldable pub demo_config : Client S.State (Unit {0})
  demo_config = do _ ← call S.get_config; pure tt
