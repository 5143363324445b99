-- ===== src/Interleavings/Held.antt =====
-- The row of a booking that is being paid is not touched, and every reachable state has valid tables.
use railbook.Base.{
  ℕ, ◌≡◌, refl, Bool, true, false, not, ◌||◌, some, List, [], ◌∷◌, arith, inl, inr, ◌==◌, String,
}
use railbook.Base.Outcome.{Result, ok, err}
use railbook.Base.Rows.{get_row, select, All, AllPairs}
use railbook.Base.Rows.Laws.{
  All-map, All-zip, All-get, All-update, AllPairs-update, get_row-update, get_self, key_of_get,
}
use railbook.Base.Rows.Selects.{All_select, All-select, AllPairs-select}
use railbook.Models.{Status, Booking, Db}
use railbook.Models.Constraints.{insert_audit}
use railbook.Audit.{log_audit}
use railbook.Payments.{PaymentResult}
use railbook.Bookings.Pay.{mark_confirmed, mark_cancelled, settle}
use railbook.Auth.{Bcrypt, Jwt}
use railbook.Integrity.{IsValid}
use railbook.Integrity.Attempts.{attempted_db, prepare-Prepared}
use railbook.Integrity.Changes.Notes.{noted-IsValid}
use railbook.Integrity.Pays.{settle-IsValid}
use railbook.Integrity.PayCases.{settle_cases}
use railbook.Integrity.Cleanups.{cleanup_pass-IsValid}
use railbook.System.{commit_or}
use railbook.System.Validity.{serve-IsValid}
use railbook.Interleavings.{
  Pending, State, booking_id, is_locked, answered, commit_payment, begun, charged, released,
  committed, cleaned, Transition, begins, charges, commits, aborts, cleans, serves, Reach, here,
  next,
}
use railbook.Interleavings.Rows.{Stays, serve-Leaves, cleanup_pass-Stays}

-- The table has the booking as the payment has read it: reserved, and of the user who pays.
pub record Held (db : Db) (p : Pending) : Type 0 where
  pub found : get_row (λ b. b.id) p.booking.id db.bookings ≡ some p.booking
  pub is_reserved : p.booking.status ≡ Status.reserved
  pub owner : p.booking.user_id ≡ p.user_id

pub record IsSafe (s : State) : Type 0 where
  pub valid : IsValid s.world.db
  pub held : All (Held s.world.db) s.pending
  pub apart : AllPairs (λ p q. (booking_id q == booking_id p) ≡ false) s.pending

module _ (p : Pending) (result : PaymentResult) (db : Db) where
  -- Inside the transaction the payment finds the tables with its first audit entry.
  abbrev pub inside : Db
  inside = attempted_db p.booking p.user_id p.env db

  pub commit_settles :
      {r : Booking × Db}
      → commit_payment p result db ≡ ok r
      → settle result.status p.booking p.user_id p.key result p.env inside ≡ ok r
  unfolding commit_payment log_audit insert_audit
  commit_settles h = ground arith

  pub inside-IsValid : IsValid db → Held db p → IsValid inside
  inside-IsValid v h =
      noted-IsValid db p.booking.id _ p.booking v h.found refl (ground (arith, h.is_reserved))

  commit-IsValid :
      {r : Booking × Db} → IsValid db → Held db p → commit_payment p result db ≡ ok r → IsValid r.1
  commit-IsValid v h e =
      settle-IsValid p.booking p.user_id p.key result p.env inside (inside-IsValid v h) h.found
        h.is_reserved result.status (commit_settles e)

  commit-Stays :
      {r : Booking × Db}
      → commit_payment p result db ≡ ok r
      → (b : Booking) → (b.id == p.booking.id) ≡ false
      → Stays b db r.1
  commit-Stays h b away found =
      elim (settle_cases result.status p.booking p.user_id p.key result p.env inside
        (commit_settles h)) [
          | inl e ↦ rw e (
              ground (
                arith,
                away,
                found,
                get_row-update (λ (x : Booking). x.id) p.booking.id (mark_confirmed (p.env.clock 1))
                    (λ x. refl) b.id db.bookings,
              ))
          | inr e ↦ rw e (
              ground (
                arith,
                away,
                found,
                get_row-update (λ (x : Booking). x.id) p.booking.id (mark_cancelled (p.env.clock 1))
                    (λ x. refl) b.id db.bookings,
              ))
        ]

-- A row that stays is still held.
Stays-Held : (db db' : Db) (p : Pending) → Stays p.booking db db' → Held db p → Held db' p
Stays-Held db db' p stays h = record {
  found = stays h.found;
  is_reserved = h.is_reserved;
  owner = h.owner;
}

locked_self : (ps : List Pending) → All (λ p. is_locked (booking_id p) ps ≡ true) ps
locked_self [] = tt
locked_self (p ∷ ps) = (
  ground arith,
  All-map (λ q. is_locked (booking_id q) ps ≡ true) (λ q. is_locked (booking_id q) (p ∷ ps) ≡ true)
      (λ q h. ground arith) ps (locked_self ps),
)

unlocked_apart :
    (k : ℕ) (ps : List Pending) → is_locked k ps ≡ false → All (λ q. (booking_id q == k) ≡ false) ps
unlocked_apart k [] h = tt
unlocked_apart k (p ∷ ps) h = (ground arith, unlocked_apart k ps (ground arith))

module _ (s : State) (i : IsSafe s) where
  pending-Held : (k : ℕ) {p : Pending} → get_row booking_id k s.pending ≡ some p → Held s.world.db p
  pending-Held k found = All-get booking_id k (Held s.world.db) s.pending i.held found

  begun-IsSafe :
      (p : Pending)
      → is_locked p.booking.id s.pending ≡ false
      → Held s.world.db p
      → IsSafe (begun p s)
  begun-IsSafe p free h = record {
    valid = i.valid;
    held = (h, i.held);
    apart = (unlocked_apart p.booking.id s.pending free, i.apart);
  }

  charged-IsSafe : (p : Pending) (draw : ℕ) (hex : String) → IsSafe (charged p draw hex s)
  charged-IsSafe p draw hex = record {
    valid = i.valid;
    held =
        All-update booking_id p.booking.id (answered _) (Held s.world.db) (Held s.world.db)
          (λ q _ h. h)
          (λ q _ h. record { found = h.found; is_reserved = h.is_reserved; owner = h.owner })
          s.pending i.held;
    apart =
        AllPairs-update booking_id p.booking.id (answered _) (Held s.world.db)
          (λ p q. (booking_id q == booking_id p) ≡ false) (λ x y _ _ r. r) (λ x y _ _ r. r)
          s.pending i.held i.apart;
  }

  released-IsSafe : (p : Pending) → IsSafe (released p s)
  released-IsSafe p =
      let others = λ (q : Pending). not (booking_id q == p.booking.id) in
      record {
        valid = i.valid;
        held = All_select others (Held s.world.db) s.pending i.held;
        apart = AllPairs-select others _ s.pending i.apart;
      }

  committed-IsSafe :
      (p : Pending) (result : PaymentResult) → Held s.world.db p → IsSafe (committed p result s)
  committed-IsSafe p result h = go (commit_payment p result s.world.db) refl
    where
      others : Pending → Bool
      others q = not (booking_id q == p.booking.id)

      go :
          (r : Result (Booking × Db))
          → commit_payment p result s.world.db ≡ r
          → IsSafe
              (record (released p s) { world = record s.world { db = commit_or r s.world.db } })
      go (err _) e = released-IsSafe p
      go (ok r) e = record {
        valid = commit-IsValid p result s.world.db i.valid h e;
        held =
            All-map (λ q. (others q ≡ true) × Held s.world.db q) (Held r.1)
              (λ q k.
                Stays-Held s.world.db r.1 q
                  (commit-Stays p result s.world.db e q.booking (ground (arith, k.0))) k.1)
              (select others s.pending) (All-select others _ s.pending i.held);
        apart = AllPairs-select others _ s.pending i.apart;
      }

  cleaned-IsSafe : (now : ℕ) (others : ℕ → Bool) → IsSafe (cleaned now others s)
  cleaned-IsSafe now others =
      let locked = λ (k : ℕ). is_locked k s.pending || others k in
      record {
        valid = cleanup_pass-IsValid now locked s.world.db i.valid;
        held =
            All-map (λ q. (is_locked (booking_id q) s.pending ≡ true) × Held s.world.db q) _
              (λ q k.
                Stays-Held s.world.db _ q
                  (cleanup_pass-Stays now locked s.world.db q.booking (ground (arith, k.0))) k.1)
              s.pending (All-zip _ _ s.pending (locked_self s.pending) i.held);
        apart = i.apart;
      }

module _ (bcrypt : Bcrypt) (jwt : Jwt) where
  Transition-IsSafe : {s t : State} → Transition bcrypt jwt s t → IsSafe s → IsSafe t
  Transition-IsSafe {s} (begins id user_id key env b db₁ free prep e) i =
      let c = prepare-Prepared id user_id key env s.world.db prep in
      let same = key_of_get (λ (x : Booking). x.id) id s.world.db.bookings c.found in
      rw e (
        begun-IsSafe s i _ (rw same free) (record {
          found = get_self (λ (x : Booking). x.id) id s.world.db.bookings c.found;
          is_reserved = c.is_reserved;
          owner = c.owner;
        }))
  Transition-IsSafe {s} (charges k draw hex p found fresh e) i =
      rw e (charged-IsSafe s i p draw hex)
  Transition-IsSafe {s} (commits k p result found ends e) i =
      rw e (committed-IsSafe s i p result (pending-Held s i k found))
  Transition-IsSafe {s} (aborts k p found e) i = rw e (released-IsSafe s i p)
  Transition-IsSafe {s} (cleans now others e) i = rw e (cleaned-IsSafe s i now others)
  Transition-IsSafe {s} (serves q one e) i =
      let leaves = serve-Leaves bcrypt jwt q s.world i.valid one in
      rw e (record {
        valid = serve-IsValid bcrypt jwt q s.world i.valid;
        held =
            All-map (Held s.world.db) _
              (λ p h. Stays-Held s.world.db _ p (leaves.reserved p.booking h.is_reserved) h)
              s.pending i.held;
        apart = i.apart;
      })

  -- From a safe state (valid tables, and every payment that is under way on a reserved booking of its
  -- user, one payment for a booking), any interleaving of payments with other requests and with
  -- passes of the cleanup reaches safe states only: the tables stay valid, and the row of a booking
  -- that is being paid stays as the payment has read it.
  pub Reach-IsSafe : {s t : State} → Reach bcrypt jwt s t → IsSafe s → IsSafe t
  Reach-IsSafe here i = i
  Reach-IsSafe (next r st) i = Transition-IsSafe st (Reach-IsSafe r i)
