-- ===== src/Integrity.antt =====
-- What the tables promise between two requests, and the life of a booking as a state machine that
-- the audit trail records.
pub mod Trails
pub mod Changes
pub mod Creates
pub mod Attempts
pub mod Pays
pub mod PayCases
pub mod Refunds
pub mod Cleanups
pub mod Growth
use railbook.Base.{
  ℕ, ◌≤◌, ◌≡◌, Bool, true, false, ◌&&◌, Option, none, some, List, [], ◌∷◌, ◌==◌, is_some,
  if◌then◌else◌,
}
use railbook.Base.Outcome.{ok}
use railbook.Base.Rows.{count_rows, get_row, has_row, All, AllPairs}
use railbook.Models.{Status, same_status, Action, Schedule, Seat, Booking, Payment, AuditTrail, Db}
use railbook.Models.Constraints.{booking_clash, payment_clash, booking_refs}
use railbook.Bookings.{is_active, overlaps}
use railbook.Bookings.Create.{seat_price}
use railbook.Bookings.Refund.{is_charge_of}

-- The transitions of a booking, by the action that an audit entry names.
abbrev pub legal : Action → Option Status → Status → Bool
legal Action.reserved none Status.reserved = true
legal Action.payment_attempted (some Status.reserved) Status.reserved = true
legal Action.confirmed (some Status.reserved) Status.confirmed = true
legal Action.payment_failed (some Status.reserved) Status.cancelled = true
legal Action.refunded (some Status.confirmed) Status.refunded = true
legal Action.expired_cleanup (some Status.reserved) Status.cancelled = true
legal _ _ _ = false

-- Where a booking stands after its entries: not yet made, in a status, or at an entry that the
-- state machine does not allow there.
pub data Trail : Type 0 where
  fresh : Trail
  at : Status → Trail
  broken : Trail

abbrev pub advance : Trail → AuditTrail → Trail
advance fresh e = elim e.previous_status [
  | none ↦ if legal e.action none e.new_status then at e.new_status else broken
  | some s ↦ broken
]
advance (at s) e = elim e.previous_status [
  | none ↦ broken
  | some p ↦
      if same_status p s && legal e.action (some s) e.new_status then at e.new_status else broken
]
advance broken e = broken

-- The entries of booking `k`, replayed in order.
unfoldable pub replay : ℕ → Trail → List AuditTrail → Trail
replay k t [] = t
replay k t (e ∷ es) = replay k (if e.booking_id == k then advance t e else t) es

-- How many successful payments a booking of this status has, and how many payments at most.
abbrev pub charges : Status → ℕ
charges Status.confirmed = 1
charges Status.refunded = 1
charges _ = 0

abbrev pub attempts : Status → ℕ
attempts Status.reserved = 0
attempts _ = 1

abbrev pub was_confirmed : Status → Bool
was_confirmed Status.confirmed = true
was_confirmed Status.refunded = true
was_confirmed _ = false

-- A booking with the payments and the audit entries that refer to it.
pub record RowIsValid (payments : List Payment) (audit : List AuditTrail) (b : Booking)
    : Type 0 where
  pub logged : replay b.id fresh audit ≡ at b.status
  pub charged : count_rows (is_charge_of b.id) payments ≡ charges b.status
  pub attempted : count_rows (λ p. p.booking_id == b.id) payments ≤ attempts b.status
  pub confirmed_stamp : is_some b.confirmed_at ≡ was_confirmed b.status

-- The amount of the booking that a payment refers to.
abbrev pub amount_of : Option Booking → Option ℕ
amount_of none = none
amount_of (some b) = some b.total_amount

abbrev pub PaymentIsValid : List Booking → Payment → Type 0
PaymentIsValid bookings p = amount_of (get_row (λ b. b.id) p.booking_id bookings) ≡ some p.amount

abbrev both_overlap : Option Schedule → Option Schedule → Bool
both_overlap (some s) (some t) = overlaps s t
both_overlap _ _ = false

-- Two active bookings of one user for journeys that overlap.
abbrev pub journeys_clash : List Schedule → Booking → Booking → Bool
journeys_clash schedules x y =
    (x.user_id == y.user_id)
    && (is_active x.status
        && (is_active y.status
            && both_overlap (get_row (λ s. s.id) x.schedule_id schedules)
                (get_row (λ s. s.id) y.schedule_id schedules)))

pub record IsValid (db : Db) : Type 0 where
  pub distinct : AllPairs (λ x y. booking_clash x y ≡ false) db.bookings
  pub apart : AllPairs (λ x y. journeys_clash db.schedules x y ≡ false) db.bookings
  pub rows : All (RowIsValid db.payments db.audit_trail) db.bookings
  pub refer : All (λ b. booking_refs db b ≡ true) db.bookings
  pub priced : All (λ b. seat_price b.seat_id db ≡ ok b.total_amount) db.bookings
  pub paid : All (PaymentIsValid db.bookings) db.payments
  pub payments_distinct : AllPairs (λ x y. payment_clash x y ≡ false) db.payments
  pub audited : All (λ e. has_row (λ b. b.id) e.booking_id db.bookings ≡ true) db.audit_trail

-- The timetable: each schedule has its train and an id of its own, each seat its compartment.
pub record TimetableIsValid (db : Db) : Type 0 where
  pub trains : All (λ (s : Schedule). has_row (λ t. t.id) s.train_id db.trains ≡ true) db.schedules
  pub compartments :
      All (λ (s : Seat). has_row (λ c. c.id) s.compartment_id db.compartments ≡ true) db.seats
  pub schedules : AllPairs (λ (x y : Schedule). (x.id == y.id) ≡ false) db.schedules
