-- ===== src/Interleavings.antt =====
-- `pay_booking` of backend/app/bookings/service.py while other requests and the cleanup task run. Its
-- transaction holds the row lock of the booking from the first SELECT to the commit, and waits for the
-- gateway in between; what it writes is seen by others at its commit. A pass of the cleanup skips
-- the locked rows, and may skip others. The other requests are one step each.
pub mod Rows
pub mod Held
pub mod Backed
pub mod Kept
use railbook.Base.{
  ℕ, ◌≡◌, String, Bool, true, false, not, ◌||◌, Option, none, some, List, [], ◌∷◌, ◌==◌,
}
use railbook.Base.Outcome.{Result, ok, ◌>>=◌}
use railbook.Base.Rows.{select, get_row, has_row, update_row}
use railbook.Models.{Status, Action, Booking, Db, Env}
use railbook.Audit.{log_audit}
use railbook.Payments.{PaymentResult, MockPaymentGateway, charge}
use railbook.Bookings.Pay.{to_charge, prepare, settle}
use railbook.Bookings.Cleanup.{cleanup_pass}
use railbook.Auth.{Bcrypt, Jwt}
use railbook.System
use railbook.System.{World, Request, commit_or, serve}

-- A payment between its checks and its commit; `outcome` is what the gateway has answered.
pub record Pending : Type 0 where
  pub booking : Booking
  pub user_id : ℕ
  pub key : ℕ
  pub env : Env
  pub outcome : Option PaymentResult

pub record State : Type 0 where
  pub world : World
  pub pending : List Pending

abbrev pub booking_id : Pending → ℕ
booking_id p = p.booking.id

abbrev pub is_locked : ℕ → List Pending → Bool
is_locked k ps = has_row booking_id k ps

abbrev pub answered : PaymentResult → Pending → Pending
answered result p = record p { outcome = some result }

-- What the transaction of a payment writes, from its first audit entry on.
unfoldable pub commit_payment : Pending → PaymentResult → Db → Result (Booking × Db)
unfolding log_audit
commit_payment p result db = do
  db₁ ←
      log_audit p.booking.id p.user_id Action.payment_attempted (some Status.reserved)
        Status.reserved none p.env.ip_address p.env.tx_time db
  settle result.status p.booking p.user_id p.key result p.env db₁

-- The requests that are one step: a payment is three, and a pass of the cleanup has a step of its own.
abbrev pub is_one_step : Request → Bool
is_one_step (System.pay _ _ _ _ _ _) = false
is_one_step (System.cleanup _ _) = false
is_one_step _ = true

abbrev pub begun : Pending → State → State
begun p s = record s { pending = p ∷ s.pending }

abbrev pub charged : Pending → (draw : ℕ) (hex : String) → State → State
charged p draw hex s =
    let (result, g) = charge p.booking.total_amount p.key draw hex s.world.gateway in
    record {
      world = record s.world { gateway = g };
      pending = update_row booking_id p.booking.id (answered result) s.pending;
    }

abbrev pub released : Pending → State → State
released p s = record s { pending = select (λ q. not (booking_id q == p.booking.id)) s.pending }

abbrev pub committed : Pending → PaymentResult → State → State
committed p result s = record (released p s) {
  world = record s.world { db = commit_or (commit_payment p result s.world.db) s.world.db };
}

abbrev pub cleaned : (now : ℕ) (others : ℕ → Bool) → State → State
cleaned now others s = record s {
  world = record s.world {
    db = cleanup_pass now (λ k. is_locked k s.pending || others k) s.world.db;
  };
}

module _ (bcrypt : Bcrypt) (jwt : Jwt) where
  -- `aborts` is a payment whose session ends without a commit.
  pub data Transition (s : State) (t : State) : Type 0 where
    begins :
        (id user_id key : ℕ) (env : Env) (b : Booking) (db₁ : Db)
        → is_locked id s.pending ≡ false
        → prepare id user_id key env s.world.db ≡ ok (to_charge b db₁)
        → t
          ≡ begun
              (record { booking = b; user_id = user_id; key = key; env = env; outcome = none })
              s
        → Transition s t
    charges :
        (k draw : ℕ) (hex : String) (p : Pending)
        → get_row booking_id k s.pending ≡ some p
        → p.outcome ≡ none
        → t ≡ charged p draw hex s
        → Transition s t
    commits :
        (k : ℕ) (p : Pending) (result : PaymentResult)
        → get_row booking_id k s.pending ≡ some p
        → p.outcome ≡ some result
        → t ≡ committed p result s
        → Transition s t
    aborts :
        (k : ℕ) (p : Pending)
        → get_row booking_id k s.pending ≡ some p
        → t ≡ released p s
        → Transition s t
    cleans : (now : ℕ) (others : ℕ → Bool) → t ≡ cleaned now others s → Transition s t
    serves :
        (q : Request)
        → is_one_step q ≡ true
        → t ≡ record s { world = serve bcrypt jwt q s.world }
        → Transition s t

  pub data Reach (s : State) : State → Type 0 where
    here : Reach s s
    next : {t u : State} → Reach s t → Transition t u → Reach s u
