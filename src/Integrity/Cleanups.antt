-- ===== src/Integrity/Cleanups.antt =====
-- The cleanup task keeps `IsValid`, and cancels exactly the expired reservations.
pub mod Exact
use railbook.Base.{
  ℕ, ◌+◌, ◌≤◌, ◌≡◌, ◌≢◌, refl, sym, ◌∙◌, ap, subst, Bool, true, false, not, ◌&&◌, Option, none,
  some, List, [], ◌∷◌, ◌++◌, map, arith, ◌==◌, Bool-cases, inl, inr, if◌then◌else◌,
}
use railbook.Base.Outcome.{Result, ok, err, ok-injective, await-eq-ok}
use railbook.Base.Rows.{get_row, has_row, select, update_row, All, AllPairs}
use railbook.Base.Rows.Laws.{
  All-map, All-zip, All-get, AllPairs-map, get_row-update, has_row_of_get, has_row-select, self_get,
  absent_of_ne, map-All,
}
use railbook.Base.Rows.Selects.{All-select, All_select, AllPairs-select}
use railbook.Models.{User, Status, Action, AuditTrail, Booking, Payment, Db, expired, same_status}
use railbook.Models.Constraints.{insert_audit}
use railbook.Audit.{log_audit}
use railbook.Bookings.Pay.{mark_cancelled}
use railbook.Bookings.Cleanup.{
  system_user_id, is_expired, expired_rows, release, release_all, committed, cleanup_pass,
  cleanup_expired_reservations,
}
use railbook.Integrity.{RowIsValid, IsValid}
use railbook.Integrity.Changes.Updates.{Restamps, Settles, changed-IsValid}

abbrev pub released_entry : ℕ → Booking → Db → AuditTrail
released_entry now booking db = record {
  id = db.audit_seq;
  booking_id = booking.id;
  user_id = system_user_id;
  action = Action.expired_cleanup;
  previous_status = some Status.reserved;
  new_status = Status.cancelled;
  metadata = expired booking.expires_at 300;
  ip_address = none;
  created_at = now;
}

abbrev pub released_db : ℕ → Booking → Db → Db
released_db now booking db = record db {
  bookings = update_row (λ b. b.id) booking.id (mark_cancelled now) db.bookings;
  audit_trail = db.audit_trail ++ released_entry now booking db ∷ [];
  audit_seq = db.audit_seq + 1;
}

pub release-eq-ok :
    (now : ℕ) (booking : Booking) (db : Db) {db' : Db}
    → release now booking db ≡ ok db'
    → db' ≡ released_db now booking db
unfolding release log_audit insert_audit
release-eq-ok now booking db h = ground arith

-- The bookings that a pass still has to release, as they stand in the table.
abbrev pub Pending : List Booking → Db → Type 0
Pending bs db =
    All (λ b. (get_row (λ x. x.id) b.id db.bookings ≡ some b) × (b.status ≡ Status.reserved)) bs
    × AllPairs (λ x y. x.id ≢ y.id) bs

pub Pending-next :
    (now : ℕ) (b : Booking) (bs : List Booking) (db : Db)
    → Pending (b ∷ bs) db
    → Pending bs (released_db now b db)
Pending-next now b bs db p = (
  All-map
      (λ x.
        (b.id ≢ x.id)
        × ((get_row (λ y. y.id) x.id db.bookings ≡ some x) × (x.status ≡ Status.reserved)))
      _
      (λ x h. (
        ground (
          arith,
          get_row-update (λ (y : Booking). y.id) b.id (mark_cancelled now) (λ y. refl) x.id
              db.bookings,
        ),
        h.1.1,
      ))
      bs (All-zip _ _ bs p.1.0 p.0.1),
  p.1.1,
)

released_db-IsValid :
    (now : ℕ) (b : Booking) (db : Db)
    → IsValid db
    → get_row (λ x. x.id) b.id db.bookings ≡ some b
    → b.status ≡ Status.reserved
    → IsValid (released_db now b db)
released_db-IsValid now b db v found is_reserved =
    changed-IsValid db b.id _ (released_entry now b db) b Status.cancelled db.payments v found
      cancels settled refl (ground arith)
  where
    row : RowIsValid db.payments db.audit_trail b
    row = All-get (λ x. x.id) b.id _ db.bookings v.rows found

    cancels : Restamps (mark_cancelled now) b.status Status.cancelled
    cancels = record {
      id = λ x. refl;
      user_id = λ x. refl;
      schedule_id = λ x. refl;
      seat_id = λ x. refl;
      idempotency_key = λ x. refl;
      total_amount = λ x. refl;
      status = λ x. refl;
      stamp = λ x h. ground arith;
      narrows = λ h. refl;
    }

    settled : Settles db b.id Status.cancelled db.payments
    settled = record {
      others = λ j ne. (refl, refl);
      charged = ground (arith, row.charged);
      attempted = ground (arith, row.attempted);
      paid = v.paid;
      distinct = v.payments_distinct;
    }

release_all-IsValid :
    (now : ℕ) (bs : List Booking) (db : Db) {db' : Db}
    → IsValid db
    → Pending bs db
    → release_all now bs db ≡ ok db'
    → IsValid db'
unfolding release_all
release_all-IsValid now [] db v p h = subst IsValid (ok-injective h) v
release_all-IsValid now (b ∷ bs) db v p h =
    let (db₁, rest, first) = await-eq-ok (release_all now bs) (release now b db) h in
    let same : released_db now b db ≡ db₁ = sym (release-eq-ok now b db first) in
    release_all-IsValid now bs db₁
      (subst IsValid same (released_db-IsValid now b db v p.0.0.0 p.0.0.1))
      (subst (Pending bs) same (Pending-next now b bs db p)) rest

pub Pending-rows :
    (now : ℕ) (locked : ℕ → Bool) (db : Db) → IsValid db → Pending (expired_rows now locked db) db
Pending-rows now locked db v = (
  All-map _ _ (λ x h. (h.1, ground arith)) (expired_rows now locked db)
      (All-select (λ b. is_expired now b && not (locked b.id)) _ db.bookings
        (self_get (λ x. x.id) db.bookings apart)),
  AllPairs-select (λ b. is_expired now b && not (locked b.id)) _ db.bookings apart,
)
  where
    apart : AllPairs (λ x y. x.id ≢ y.id) db.bookings
    apart = AllPairs-map _ _ (λ x y h. ground arith) db.bookings v.distinct

-- A pass of the cleanup task leaves the tables valid, whatever other transactions lock.
pub cleanup_pass-IsValid :
    (now : ℕ) (locked : ℕ → Bool) (db : Db) → IsValid db → IsValid (cleanup_pass now locked db)
unfolding cleanup_pass
cleanup_pass-IsValid now locked db v = go (release_all now (expired_rows now locked db) db) refl
  where
    go :
        (r : Result Db)
        → release_all now (expired_rows now locked db) db ≡ r
        → IsValid (committed r db)
    go (ok db') e =
        release_all-IsValid now (expired_rows now locked db) db v (Pending-rows now locked db v) e
    go (err e) _ = v
