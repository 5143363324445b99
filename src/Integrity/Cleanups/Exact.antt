-- ===== src/Integrity/Cleanups/Exact.antt =====
-- What a pass of the cleanup task does to every row, where the system user exists.
use railbook.Base.{
  ℕ, ◌≡◌, refl, ◌∙◌, ap, Bool, true, false, not, ◌&&◌, some, List, [], ◌∷◌, map, arith,
  if◌then◌else◌,
}
use railbook.Base.Outcome.{ok}
use railbook.Base.Rows.{get_row, has_row, update_row, All}
use railbook.Base.Rows.Laws.{
  All-map, AllPairs-map, has_row-update, has_row_of_get, has_row-select, absent_of_ne, map-All,
}
use railbook.Models.{Booking, Db}
use railbook.Models.Constraints.{insert_audit}
use railbook.Audit.{log_audit}
use railbook.Bookings.Pay.{mark_cancelled}
use railbook.Bookings.Cleanup.{
  system_user_id, is_expired, expired_rows, release, release_all, committed, cleanup_pass,
}
use railbook.Integrity.{IsValid}
use railbook.Integrity.Cleanups.{released_db, Pending, Pending-next, Pending-rows}

-- The row after a pass: an expired reservation that nobody locks is cancelled.
abbrev pub expire_row : (now : ℕ) (locked : ℕ → Bool) → Booking → Booking
expire_row now locked b = if is_expired now b && not (locked b.id) then mark_cancelled now b else b

-- The row after the release of the bookings `bs`.
abbrev cancel_in : ℕ → List Booking → Booking → Booking
cancel_in now bs x = if has_row (λ b. b.id) x.id bs then mark_cancelled now x else x

release_lem :
    (now : ℕ) (b : Booking) (db : Db)
    → has_row (λ u. u.id) system_user_id db.users ≡ true
    → get_row (λ x. x.id) b.id db.bookings ≡ some b
    → release now b db ≡ ok (released_db now b db)
unfolding release log_audit insert_audit
release_lem now b db system found = ground (
  arith,
  has_row-update (λ (y : Booking). y.id) b.id (mark_cancelled now) (λ y. refl) b.id db.bookings,
  has_row_of_get (λ (y : Booking). y.id) b.id db.bookings found,
)

cancel_in-cons :
    (now : ℕ) (b : Booking) (bs xs : List Booking)
    → has_row (λ x. x.id) b.id bs ≡ false
    → map (cancel_in now bs) (update_row (λ x. x.id) b.id (mark_cancelled now) xs)
      ≡ map (cancel_in now (b ∷ bs)) xs
cancel_in-cons now b bs [] h = refl
cancel_in-cons now b bs (x ∷ xs) h = ground (arith, cancel_in-cons now b bs xs h)

map_none : (now : ℕ) (xs : List Booking) → xs ≡ map (cancel_in now []) xs
map_none now [] = refl
map_none now (x ∷ xs) = ground (arith, map_none now xs)

-- Where the loop over the expired bookings ends.
record Releases (now : ℕ) (bs : List Booking) (db : Db) : Type 0 where
  last : Db
  done : release_all now bs db ≡ ok last
  bookings : last.bookings ≡ map (cancel_in now bs) db.bookings
  payments : last.payments ≡ db.payments

release_all-Releases :
    (now : ℕ) (bs : List Booking) (db : Db)
    → has_row (λ u. u.id) system_user_id db.users ≡ true
    → Pending bs db
    → Releases now bs db
unfolding release_all
release_all-Releases now [] db system p = record {
  last = db;
  done = refl;
  bookings = map_none now db.bookings;
  payments = refl;
}
release_all-Releases now (b ∷ bs) db system p =
    let r =
      release_all-Releases now bs (released_db now b db) system (Pending-next now b bs db p) in
    record {
      last = r.last;
      done = rw (release_lem now b db system p.0.0.0) r.done;
      bookings =
          r.bookings ∙ cancel_in-cons now b bs db.bookings (absent_of_ne (λ x. x.id) b.id bs p.1.0);
      payments = r.payments;
    }

-- In a valid database with the system user, a pass cancels every expired reservation that no other
-- transaction locks, changes no other booking, and leaves the payments alone.
pub cleanup_pass-eq-map :
    (now : ℕ) (locked : ℕ → Bool) (db : Db)
    → IsValid db
    → has_row (λ u. u.id) system_user_id db.users ≡ true
    → ((cleanup_pass now locked db).bookings ≡ map (expire_row now locked) db.bookings)
      × ((cleanup_pass now locked db).payments ≡ db.payments)
unfolding cleanup_pass
cleanup_pass-eq-map now locked db v system = (
  ap (λ (z : Db). z.bookings) ended ∙ r.bookings ∙ map-All _ _ db.bookings same,
  ap (λ (z : Db). z.payments) ended ∙ r.payments,
)
  where
    r : Releases now (expired_rows now locked db) db
    r =
        release_all-Releases now (expired_rows now locked db) db system
          (Pending-rows now locked db v)

    ended : committed (release_all now (expired_rows now locked db) db) db ≡ r.last
    ended = rw r.done

    same :
        All
          (λ x. cancel_in now (expired_rows now locked db) x ≡ expire_row now locked x)
          db.bookings
    same =
        All-map _ _ (λ x h. rw h) db.bookings
          (has_row-select (λ b. b.id) (λ b. is_expired now b && not (locked b.id)) db.bookings
            (AllPairs-map _ _ (λ x y h. ground arith) db.bookings v.distinct))
