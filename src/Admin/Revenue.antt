-- ===== src/Admin/Revenue.antt =====
-- The revenue in the statistics, against the bookings.
use railbook.Base.{
  ℕ, ◌+◌, ◌*◌, ◌≡◌, refl, sym, ◌∙◌, false, List, [], ◌∷◌, arith, inl, inr, Bool-cases, ◌==◌,
  if◌then◌else◌,
}
use railbook.Base.Rows.{length, count_rows, All, AllPairs}
use railbook.Base.Rows.Laws.{All-map, AllPairs-map}
use railbook.Models.{Status, same_status, is_success, Booking, Payment, Db}
use railbook.Bookings.Refund.{is_charge_of}
use railbook.Integrity.{PaymentIsValid, charges, IsValid}
use railbook.Admin.{sum_amounts, count_status, get_stats}

-- The prices of the bookings that a test takes.
abbrev pub sum_prices : (Booking → ℕ) → List Booking → ℕ
sum_prices times [] = 0
sum_prices times (b ∷ bs) = times b * b.total_amount + sum_prices times bs

-- One payment, seen from the bookings.
abbrev is_of : Payment → Booking → ℕ
is_of p b = if is_charge_of b.id p then 1 else 0

sum_others :
    (p : Payment) (bs : List Booking)
    → All (λ b. (b.id == p.booking_id) ≡ false) bs
    → sum_prices (is_of p) bs ≡ 0
sum_others p [] h = refl
sum_others p (b ∷ bs) h = ground (arith, sum_others p bs h.1)

sum_one :
    (p : Payment) (bs : List Booking)
    → AllPairs (λ x y. (y.id == x.id) ≡ false) bs
    → PaymentIsValid bs p
    → sum_prices (is_of p) bs ≡ (if is_success p.status then p.amount else 0)
sum_one p [] d h = cc
sum_one p (b ∷ bs) d h = elim (Bool-cases (b.id == p.booking_id)) [
  | inl hit ↦ ground (
    arith,
    hit,
    sum_others p bs (
        All-map (λ z. (z.id == b.id) ≡ false) (λ z. (z.id == p.booking_id) ≡ false)
          (λ z n. ground arith) bs d.0),
  )
  | inr miss ↦ ground (arith, miss, sum_one p bs d.1)
]

sum_split :
    (f g : Booking → ℕ) (bs : List Booking)
    → sum_prices (λ b. f b + g b) bs ≡ sum_prices f bs + sum_prices g bs
sum_split f g [] = refl
sum_split f g (b ∷ bs) = ground (arith, sum_split f g bs)

sum_same :
    (f g : Booking → ℕ) (bs : List Booking)
    → All (λ b. f b ≡ g b) bs
    → sum_prices f bs ≡ sum_prices g bs
sum_same f g [] h = refl
sum_same f g (b ∷ bs) h = ground (arith, h.0, sum_same f g bs h.1)

sum_zero : (bs : List Booking) → sum_prices (λ b. 0) bs ≡ 0
sum_zero [] = refl
sum_zero (b ∷ bs) = ground (arith, sum_zero bs)

-- The payments, seen from the bookings.
sum_payments :
    (bs : List Booking) (ps : List Payment)
    → AllPairs (λ x y. (y.id == x.id) ≡ false) bs
    → All (PaymentIsValid bs) ps
    → sum_amounts ps ≡ sum_prices (λ b. count_rows (is_charge_of b.id) ps) bs
unfolding sum_amounts
sum_payments bs [] d h = sym (sum_zero bs)
sum_payments bs (p ∷ ps) d h = ground (
  arith,
  sum_one p bs d h.0,
  sum_payments bs ps d h.1,
  sum_split (is_of p) (λ b. count_rows (is_charge_of b.id) ps) bs,
)

-- A booking has one of the four statuses.
count_split :
    (bs : List Booking)
    → length bs
      ≡ count_rows (λ b. same_status b.status Status.confirmed) bs
        + count_rows (λ b. same_status b.status Status.cancelled) bs
        + count_rows (λ b. same_status b.status Status.refunded) bs
        + count_rows (λ b. same_status b.status Status.reserved) bs
count_split [] = refl
count_split (b ∷ bs) = ground (arith, count_split bs)

-- In valid tables the statistics agree with each other and with the bookings: what is neither
-- confirmed, cancelled nor refunded is reserved, and the revenue is what the confirmed and the
-- refunded bookings cost together, so a refund takes nothing off it.
pub get_stats-bookings :
    (db : Db)
    → IsValid db
    → let s = get_stats db in
      (s.total_bookings
        ≡ s.confirmed_bookings
          + s.cancelled_bookings
          + s.refunded_bookings
          + count_status Status.reserved db)
      × (s.total_revenue ≡ sum_prices (λ b. charges b.status) db.bookings)
unfolding get_stats
get_stats-bookings db v = (
  count_split db.bookings,
  sum_payments db.bookings db.payments
        (AllPairs-map _ _ (λ x y h. ground arith) db.bookings v.distinct) v.paid
      ∙ sum_same (λ b. count_rows (is_charge_of b.id) db.payments) (λ b. charges b.status)
          db.bookings (All-map _ _ (λ b r. r.charged) db.bookings v.rows),
)
