-- ===== src/Loadtest/Passes.antt =====
-- A valid database passes the checks.
use railbook.Base.{
  ℕ, ◌+◌, ◌≤◌, ◌≡◌, refl, Bool, true, false, not, ◌&&◌, List, [], ◌∷◌, map, arith, ◌==◌, ltb,
}
use railbook.Base.Rows.{select, count_rows, has_row, any_row, All, AllPairs}
use railbook.Base.Rows.Laws.{All-map, AllPairs-map}
use railbook.Base.Rows.Selects.{AllPairs-select, count_none}
use railbook.Models.{Status, same_status, Booking, Db, minutes}
use railbook.Models.Constraints.{same_seat}
use railbook.Bookings.{is_active}
use railbook.Bookings.Refund.{is_charge_of}
use railbook.Bookings.Cleanup.{system_user_id, cleanup_pass}
use railbook.Integrity.{RowIsValid, IsValid}
use railbook.Integrity.Trails.{has_entry}
use railbook.Integrity.Cleanups.{cleanup_pass-IsValid}
use railbook.Integrity.Cleanups.Exact.{expire_row, cleanup_pass-eq-map}
use railbook.Loadtest.{
  Group, add_to_groups, group_by_seat, no_rows, check_no_double_bookings,
  check_audit_trail_completeness, is_stale, check_no_stale_reservations, check_payment_consistency,
  exit_code,
}

-- A query that no row passes returns none.
no_rows-select {ℓ} :
    {A : Type ℓ} (p : A → Bool) (xs : List A)
    → All (λ x. p x ≡ false) xs
    → no_rows (select p xs) ≡ true
no_rows-select p [] h = refl
no_rows-select p (x ∷ xs) h = ground (arith, no_rows-select p xs h.1)

abbrev is_group_of : Booking → Group → Bool
is_group_of b g = (g.schedule_id == b.schedule_id) && (g.seat_id == b.seat_id)

-- A booking of a seat that no group has opens a group.
add_new :
    (b : Booking) (gs : List Group)
    → any_row (is_group_of b) gs ≡ false
    → All (λ g. ltb 1 g.count ≡ false) gs
    → All (λ g. ltb 1 g.count ≡ false) (add_to_groups b gs)
add_new b [] new small = (refl, tt)
add_new b (g ∷ gs) new small = ground (arith, add_new b gs)

group_kept :
    (c b : Booking) (gs : List Group)
    → same_seat b c ≡ false
    → any_row (is_group_of b) gs ≡ false
    → any_row (is_group_of b) (add_to_groups c gs) ≡ false
group_kept c b [] apart h = ground arith
group_kept c b (g ∷ gs) apart h = ground (arith, group_kept c b gs)

no_group :
    (b : Booking) (bs : List Booking)
    → All (λ c. same_seat b c ≡ false) bs
    → any_row (is_group_of b) (group_by_seat bs) ≡ false
unfolding group_by_seat
no_group b [] apart = refl
no_group b (c ∷ bs) apart = group_kept c b (group_by_seat bs) apart.0 (no_group b bs apart.1)

groups_small :
    (bs : List Booking)
    → AllPairs (λ b c. same_seat b c ≡ false) bs
    → All (λ g. ltb 1 g.count ≡ false) (group_by_seat bs)
unfolding group_by_seat
groups_small [] apart = tt
groups_small (b ∷ bs) apart =
    add_new b (group_by_seat bs) (no_group b bs apart.0) (groups_small bs apart.1)

no_double_bookings : (db : Db) → IsValid db → check_no_double_bookings db ≡ true
unfolding check_no_double_bookings
no_double_bookings db v =
    no_rows-select (λ g. ltb 1 g.count)
      (group_by_seat (select (λ b. is_active b.status) db.bookings))
      (groups_small (select (λ b. is_active b.status) db.bookings) (
        AllPairs-select (λ b. is_active b.status) _ db.bookings
          (AllPairs-map _ _ (λ x y h. ground arith) db.bookings v.distinct)))

audit_trail_complete : (db : Db) → IsValid db → check_audit_trail_completeness db ≡ true
unfolding check_audit_trail_completeness
audit_trail_complete db v =
    no_rows-select (λ b. not (has_row (λ a. a.booking_id) b.id db.audit_trail)) db.bookings
      (All-map _ _ (λ b r. ground (arith, has_entry b.id db.audit_trail b.status (r.logged)))
        db.bookings v.rows)

payments_consistent : (db : Db) → IsValid db → check_payment_consistency db ≡ true
unfolding check_payment_consistency
payments_consistent db v =
    no_rows-select
      (λ b. same_status b.status Status.confirmed && not (any_row (is_charge_of b.id) db.payments))
      db.bookings (All-map _ _ (λ b r. charge_there b db r) db.bookings v.rows)
  where
    charge_there :
        (b : Booking) (db : Db)
        → RowIsValid db.payments db.audit_trail b
        → (same_status b.status Status.confirmed && not (any_row (is_charge_of b.id) db.payments))
          ≡ false
    charge_there b db r = ground (arith, r.charged, count_none (is_charge_of b.id) db.payments)

-- Right after a pass that no lock held back, no reservation is stale for two minutes.
stale_none :
    (now t : ℕ) (xs : List Booking)
    → t ≤ now + minutes 2
    → count_rows (is_stale t) (map (expire_row now (λ _. false)) xs) ≡ 0
stale_none now t [] h = refl
stale_none now t (x ∷ xs) h = ground (arith, stale_none now t xs h)

-- In a valid database with the system user, after a pass of the cleanup task that no lock held back
-- the integrity checker exits with 0 for two minutes: no seat has two active bookings, every booking
-- has an audit entry, no reservation is stale, and every confirmed booking has a successful payment.
pub exit_code_after_cleanup :
    (now t : ℕ) (db : Db)
    → IsValid db
    → has_row (λ u. u.id) system_user_id db.users ≡ true
    → t ≤ now + minutes 2
    → exit_code t (cleanup_pass now (λ _. false) db) ≡ 0
unfolding exit_code
exit_code_after_cleanup now t db v system soon = rw (
  no_double_bookings after valid,
  audit_trail_complete after valid,
  payments_consistent after valid,
  fresh,
)
  where
    after : Db
    after = cleanup_pass now (λ _. false) db

    valid : IsValid after
    valid = cleanup_pass-IsValid now (λ _. false) db v

    fresh : check_no_stale_reservations t after ≡ true
    fresh =
        unfold check_no_stale_reservations in
        rw (cleanup_pass-eq-map now (λ _. false) db v system).0
          (ground (arith, stale_none now t db.bookings soon))
