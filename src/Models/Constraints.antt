-- ===== src/Models/Constraints.antt =====
-- What the tables of backend/app/models.py refuse: primary keys, unique columns, foreign keys. No
-- foreign key names a cascade and no `booking_id` is nullable, so a booking that a payment or an
-- audit entry refers to cannot be deleted. A refused statement is an `IntegrityError`.
use railbook.Base.{
  ℕ, ◌+◌, ◌≡◌, refl, arith, Bool, not, ◌&&◌, ◌||◌, List, [], ◌∷◌, ◌++◌, Option, none, some, ◌==◌,
  if◌then◌else◌,
}
use railbook.Base.Outcome.{Result, ok, err, integrity_error, multiple_results}
use railbook.Base.Rows.{any_row, has_row, update_row}
use railbook.Models.{User, Schedule, Seat, Booking, Payment, AuditTrail, Db}

-- `Result.scalar_one_or_none()`
abbrev pub scalar_one_or_none {ℓ} : {A : Type ℓ} → List A → Result (Option A)
scalar_one_or_none [] = ok none
scalar_one_or_none (x ∷ []) = ok (some x)
scalar_one_or_none (x ∷ y ∷ rest) = err multiple_results

module _ {ℓ} {A : Type ℓ} where
  pub scalar_none : (xs : List A) → scalar_one_or_none xs ≡ ok none → xs ≡ []
  scalar_none [] h = refl
  scalar_none (x ∷ []) h = cc
  scalar_none (x ∷ y ∷ xs) h = cc

  pub scalar_some : (xs : List A) {x : A} → scalar_one_or_none xs ≡ ok (some x) → xs ≡ x ∷ []
  scalar_some [] h = cc
  scalar_some (x ∷ []) h = ground arith
  scalar_some (x ∷ y ∷ xs) h = cc

-- `uq_booking_schedule_seat`
abbrev pub same_seat : Booking → Booking → Bool
same_seat a b = (a.schedule_id == b.schedule_id) && (a.seat_id == b.seat_id)

-- Two bookings that the table cannot hold together.
abbrev pub booking_clash : Booking → Booking → Bool
booking_clash a b = (a.id == b.id) || ((a.idempotency_key == b.idempotency_key) || same_seat a b)

abbrev pub booking_refs : Db → Booking → Bool
booking_refs db b =
    has_row (λ (u : User). u.id) b.user_id db.users
    && (has_row (λ (s : Schedule). s.id) b.schedule_id db.schedules
        && has_row (λ (s : Seat). s.id) b.seat_id db.seats)

unfoldable pub insert_booking : Booking → Db → Result Db
insert_booking b db =
    if booking_refs db b && not (any_row (λ x. booking_clash x b) db.bookings)
    then ok (record db { bookings = db.bookings ++ b ∷ [] })
    else err integrity_error

-- Whether a row of `payments` or `audit_trail` refers to the booking.
abbrev pub referenced : ℕ → Db → Bool
referenced k db =
    has_row (λ (p : Payment). p.booking_id) k db.payments
    || has_row (λ (a : AuditTrail). a.booking_id) k db.audit_trail

abbrev pub without : ℕ → List Booking → List Booking
without k [] = []
without k (x ∷ xs) = if x.id == k then xs else x ∷ without k xs

unfoldable pub delete_booking : Booking → Db → Result Db
delete_booking b db =
    if referenced b.id db
    then err integrity_error
    else ok (record db { bookings = without b.id db.bookings })

-- The UPDATE of one booking, by its primary key.
abbrev pub update_booking : ℕ → (Booking → Booking) → Db → Db
update_booking k f db = record db { bookings = update_row (λ b. b.id) k f db.bookings }

abbrev pub payment_clash : Payment → Payment → Bool
payment_clash a b = (a.id == b.id) || (a.idempotency_key == b.idempotency_key)

unfoldable pub insert_payment : Payment → Db → Result Db
insert_payment p db =
    if has_row (λ (b : Booking). b.id) p.booking_id db.bookings
      && not (any_row (λ x. payment_clash x p) db.payments)
    then ok (record db { payments = db.payments ++ p ∷ [] })
    else err integrity_error

unfoldable pub insert_audit : AuditTrail → Db → Result Db
insert_audit e db =
    if has_row (λ (b : Booking). b.id) e.booking_id db.bookings
      && has_row (λ (u : User). u.id) e.user_id db.users
    then ok (record db { audit_trail = db.audit_trail ++ e ∷ []; audit_seq = db.audit_seq + 1 })
    else err integrity_error
