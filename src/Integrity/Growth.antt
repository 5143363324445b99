-- ===== src/Integrity/Growth.antt =====
-- Rows that are added to the users and the timetable leave the tables valid.
pub mod Inserts
use railbook.Base.{
  ℕ, ◌+◌, ◌≡◌, ◌≢◌, refl, ap, sym, ◌∙◌, true, false, Bool, ◌&&◌, ◌||◌, Option, none, some, List, [],
  ◌∷◌, ◌++◌, arith, inl, inr, Bool-cases, Option-cases, ◌==◌, if◌then◌else◌,
}
use railbook.Base.Outcome.{Result, ok, err}
use railbook.Base.Rows.{get_row, has_row, any_row, All, AllPairs}
use railbook.Base.Rows.Laws.{All-map, All-zip, has_row-append, has_row_of_get, row_of_has}
use railbook.Models.{User, Train, Schedule, Compartment, Seat, Booking, Db}
use railbook.Models.Constraints.{booking_refs}
use railbook.Models.Timetable.{
  insert_user, insert_train, insert_schedule, insert_compartment, insert_seat, train_clash,
  schedule_clash, seat_clash,
}
use railbook.Bookings.{calculate_price}
use railbook.Bookings.Create.{seat_price}
use railbook.Integrity.{IsValid, journeys_clash}

module _ {ℓ} {A : Type ℓ} (key : A → ℕ) where
  pub get_row_first :
      (k : ℕ) (xs : List A) (y : A) {x : A}
      → get_row key k xs ≡ some x
      → get_row key k (xs ++ y ∷ []) ≡ some x
  get_row_first k [] y h = cc
  get_row_first k (z ∷ xs) y {x} h = ground (arith, get_row_first k xs y {x = x})

pairs_under {ℓ κ ι ο} :
    {A : Type ℓ} (P : A → Type κ) (R : A → A → Type ι) (S : A → A → Type ο)
    → ((x y : A) → P x → P y → R x y → S x y)
    → (xs : List A) → All P xs
    → AllPairs R xs
    → AllPairs S xs
pairs_under P R S h [] ps rs = tt
pairs_under P R S h (x ∷ xs) ps rs = (
  All-map (λ y. P y × R x y) (S x) (λ y k. h x y ps.0 k.0 k.1) xs (All-zip _ _ xs ps.1 rs.0),
  pairs_under P R S h xs ps.1 rs.1,
)

-- What a table that has only grown still finds.
pub record Grows (db db' : Db) : Type 0 where
  pub users :
      (k : ℕ)
      → has_row (λ (u : User). u.id) k db.users ≡ true
      → has_row (λ u. u.id) k db'.users ≡ true
  pub schedules :
      (k : ℕ) {s : Schedule}
      → get_row (λ x. x.id) k db.schedules ≡ some s
      → get_row (λ x. x.id) k db'.schedules ≡ some s
  pub compartments :
      (k : ℕ) {c : Compartment}
      → get_row (λ x. x.id) k db.compartments ≡ some c
      → get_row (λ x. x.id) k db'.compartments ≡ some c
  pub seats :
      (k : ℕ) {s : Seat}
      → get_row (λ x. x.id) k db.seats ≡ some s
      → get_row (λ x. x.id) k db'.seats ≡ some s
  pub bookings : db'.bookings ≡ db.bookings
  pub payments : db'.payments ≡ db.payments
  pub audit_trail : db'.audit_trail ≡ db.audit_trail

pub Grows-refl : (db : Db) → Grows db db
Grows-refl db = record {
  users = λ k h. h;
  schedules = λ k h. h;
  compartments = λ k h. h;
  seats = λ k h. h;
  bookings = refl;
  payments = refl;
  audit_trail = refl;
}

pub Grows-trans : (a b c : Db) → Grows a b → Grows b c → Grows a c
Grows-trans a b c g h = record {
  users = λ k f. h.users k (g.users k f);
  schedules = λ k f. h.schedules k (g.schedules k f);
  compartments = λ k f. h.compartments k (g.compartments k f);
  seats = λ k f. h.seats k (g.seats k f);
  bookings = h.bookings ∙ g.bookings;
  payments = h.payments ∙ g.payments;
  audit_trail = h.audit_trail ∙ g.audit_trail;
}

module _ (db db' : Db) (g : Grows db db') where
  refs_kept : (b : Booking) → booking_refs db b ≡ true → booking_refs db' b ≡ true
  refs_kept b h =
      let (s, schedule) =
        row_of_has (λ (x : Schedule). x.id) b.schedule_id db.schedules (ground (arith, h)) in
      let (seat, place) = row_of_has (λ (x : Seat). x.id) b.seat_id db.seats (ground (arith, h)) in
      ground (
        arith,
        h,
        g.users b.user_id (ground (arith, h)),
        has_row_of_get (λ (x : Schedule). x.id) b.schedule_id db'.schedules
            (g.schedules b.schedule_id schedule),
        has_row_of_get (λ (x : Seat). x.id) b.seat_id db'.seats (g.seats b.seat_id place),
      )

  price_kept : (k : ℕ) {n : ℕ} → seat_price k db ≡ ok n → seat_price k db' ≡ ok n
  unfolding seat_price
  price_kept k {n} h = elim (Option-cases (get_row (λ (x : Seat). x.id) k db.seats)) [
    | inl e ↦ ground (arith, e)
    | inr (s, e) ↦
        elim (Option-cases (get_row (λ (x : Compartment). x.id) s.compartment_id db.compartments)) [
          | inl f ↦ ground (arith, e, f)
          | inr (c, f) ↦ ground (arith, e, f, g.seats k e, g.compartments s.compartment_id f)
        ]
  ]

  clash_kept :
      (x y : Booking)
      → booking_refs db x ≡ true
      → booking_refs db y ≡ true
      → journeys_clash db.schedules x y ≡ false
      → journeys_clash db'.schedules x y ≡ false
  clash_kept x y rx ry h =
      let (s, sx) =
        row_of_has (λ (z : Schedule). z.id) x.schedule_id db.schedules (ground (arith, rx)) in
      let (t, sy) =
        row_of_has (λ (z : Schedule). z.id) y.schedule_id db.schedules (ground (arith, ry)) in
      ground (arith, h, sx, sy, g.schedules x.schedule_id sx, g.schedules y.schedule_id sy)

  pub Grows-IsValid : IsValid db → IsValid db'
  unfolding seat_price
  Grows-IsValid v = record {
    distinct = rw g.bookings v.distinct;
    apart = rw g.bookings (pairs_under _ _ _ clash_kept db.bookings v.refer v.apart);
    rows = rw (g.bookings, g.payments, g.audit_trail) v.rows;
    refer = rw g.bookings (All-map _ _ refs_kept db.bookings v.refer);
    priced = rw g.bookings (All-map _ _ (λ b h. price_kept b.seat_id h) db.bookings v.priced);
    paid = rw (g.bookings, g.payments) v.paid;
    payments_distinct = rw g.payments v.payments_distinct;
    audited = rw (g.bookings, g.audit_trail) v.audited;
  }
