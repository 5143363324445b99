-- ===== src/Loadtest.antt =====
-- loadtest/verify_integrity.py: the checks that run over the database after a load test. Each is
-- the Boolean that the script's function returns.
pub mod Passes
use railbook.Base.{
  ℕ, ◌+◌, ◌-◌, Bool, true, false, not, ◌&&◌, ◌||◌, List, [], ◌∷◌, map, ◌==◌, ltb, is_some,
  if◌then◌else◌, Option, none, some,
}
use railbook.Base.Rows.{select, count_rows, has_row, any_row}
use railbook.Models.{Status, same_status, is_success, Booking, Payment, AuditTrail, Db, minutes}
use railbook.Bookings.{is_active}
use railbook.Bookings.Refund.{is_charge_of}

-- A group of `GROUP BY schedule_id, seat_id` with its `COUNT(*)`.
pub record Group : Type 0 where
  pub schedule_id : ℕ
  pub seat_id : ℕ
  pub count : ℕ

abbrev pub add_to_groups : Booking → List Group → List Group
add_to_groups b [] = record { schedule_id = b.schedule_id; seat_id = b.seat_id; count = 1 } ∷ []
add_to_groups b (g ∷ gs) =
    let rest = add_to_groups b gs in
    if (g.schedule_id == b.schedule_id) && (g.seat_id == b.seat_id)
    then record g { count = g.count + 1 } ∷ gs
    else g ∷ rest

unfoldable pub group_by_seat : List Booking → List Group
group_by_seat [] = []
group_by_seat (b ∷ bs) = add_to_groups b (group_by_seat bs)

-- Whether a query returns no row.
abbrev pub no_rows {ℓ} : {A : Type ℓ} → List A → Bool
no_rows [] = true
no_rows (x ∷ xs) = false

unfoldable pub check_no_double_bookings : Db → Bool
unfolding group_by_seat
check_no_double_bookings db =
    no_rows
      (select (λ g. ltb 1 g.count) (group_by_seat (select (λ b. is_active b.status) db.bookings)))

-- `LEFT JOIN … WHERE a.id IS NULL`: the bookings without an entry.
unfoldable pub check_audit_trail_completeness : Db → Bool
check_audit_trail_completeness db =
    no_rows (select (λ b. not (has_row (λ a. a.booking_id) b.id db.audit_trail)) db.bookings)

-- `expires_at < NOW() - INTERVAL '2 minutes'`; the difference is written as a sum.
abbrev pub is_stale : (now : ℕ) → Booking → Bool
is_stale now b =
    same_status b.status Status.reserved
    && elim b.expires_at [ none ↦ false | some t ↦ ltb (t + minutes 2) now ]

unfoldable pub check_no_stale_reservations : (now : ℕ) → Db → Bool
check_no_stale_reservations now db = not (ltb 0 (count_rows (is_stale now) db.bookings))

unfoldable pub check_payment_consistency : Db → Bool
check_payment_consistency db = no_rows (
    select
      (λ b. same_status b.status Status.confirmed && not (any_row (is_charge_of b.id) db.payments))
      db.bookings)

abbrev pub all_true : List Bool → Bool
all_true [] = true
all_true (b ∷ bs) = b && all_true bs

-- `main`: the exit code, 0 where all the checks pass.
unfoldable pub exit_code : (now : ℕ) → Db → ℕ
unfolding check_no_double_bookings check_audit_trail_completeness check_no_stale_reservations
    check_payment_consistency
exit_code now db =
    if all_true (
      check_no_double_bookings db
      ∷ check_audit_trail_completeness db
      ∷ check_no_stale_reservations now db
      ∷ check_payment_consistency db
      ∷ [])
    then 0
    else 1
