-- ===== src/Integrity/Changes/Lookups.antt =====
-- Rows that refer to a booking, where the booking is not there, or is there.
use railbook.Base.{ℕ, ◌≡◌, refl, ◌∙◌, true, false, List, [], ◌∷◌, ◌++◌, arith, ◌==◌}
use railbook.Base.Rows.{any_row, count_rows, get_row, has_row, update_row, All}
use railbook.Base.Rows.Laws.{get_row-append_old, get_row_absent}
use railbook.Models.{Booking, Payment}
use railbook.Models.Constraints.{booking_clash}
use railbook.Bookings.Refund.{is_charge_of}
use railbook.Integrity.{PaymentIsValid, amount_of}

-- A booking that clashes with none has a new id.
pub new_id :
    (b : Booking) (xs : List Booking)
    → any_row (λ x. booking_clash x b) xs ≡ false
    → has_row (λ x. x.id) b.id xs ≡ false
new_id b [] h = refl
new_id b (x ∷ xs) h = ground (arith, new_id b xs)

module _ (k : ℕ) (bookings : List Booking)
    (absent : has_row (λ (x : Booking). x.id) k bookings ≡ false) where
  pub no_reference {ℓ} :
      {E : Type ℓ} (ref : E → ℕ) (es : List E)
      → All (λ e. has_row (λ x. x.id) (ref e) bookings ≡ true) es
      → has_row ref k es ≡ false
  no_reference ref [] all = refl
  no_reference ref (e ∷ es) all = ground (arith, no_reference ref es all.1)

  pub no_payments :
      (ps : List Payment)
      → All (PaymentIsValid bookings) ps
      → (count_rows (λ p. p.booking_id == k) ps ≡ 0) × (count_rows (is_charge_of k) ps ≡ 0)
  no_payments [] all = (refl, refl)
  no_payments (p ∷ ps) all =
      ground (arith, no_payments ps all.1, get_row_absent (λ x. x.id) k bookings absent)

-- A payment that is valid has its booking.
pub has_booking :
    (xs : List Booking) (p : Payment)
    → PaymentIsValid xs p
    → has_row (λ x. x.id) p.booking_id xs ≡ true
has_booking [] p h = cc
has_booking (x ∷ xs) p h = ground (arith, has_booking xs p)

pub PaymentIsValid-append :
    (xs : List Booking) (b : Booking) (p : Payment)
    → PaymentIsValid xs p
    → PaymentIsValid (xs ++ b ∷ []) p
PaymentIsValid-append xs b p h =
    rw (get_row-append_old (λ x. x.id) p.booking_id xs b (has_booking xs p h)) h

module _ (k : ℕ) (f : Booking → Booking) (id : (x : Booking) → (f x).id ≡ x.id)
    (total_amount : (x : Booking) → (f x).total_amount ≡ x.total_amount) where
  amount_of-update :
      (j : ℕ) (xs : List Booking)
      → amount_of (get_row (λ x. x.id) j (update_row (λ x. x.id) k f xs))
        ≡ amount_of (get_row (λ x. x.id) j xs)
  amount_of-update j [] = refl
  amount_of-update j (x ∷ xs) = ground (arith, id x, total_amount x, amount_of-update j xs)

  pub PaymentIsValid-update :
      (xs : List Booking) (p : Payment)
      → PaymentIsValid xs p
      → PaymentIsValid (update_row (λ x. x.id) k f xs) p
  PaymentIsValid-update xs p h = amount_of-update p.booking_id xs ∙ h
