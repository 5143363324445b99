-- ===== src/Integrity/Creates.antt =====
-- `create_booking` keeps `IsValid`.
use railbook.Base.{
  ℕ, ◌+◌, ◌≡◌, refl, ◌∙◌, ap, subst, true, false, Option, none, some, List, [], ◌∷◌, ◌++◌, ◌⊎◌, inl,
  inr, arith, ◌==◌,
}
use railbook.Base.Outcome.{ok, err, integrity_error}
use railbook.Base.Rows.{any_row, has_row, select, All}
use railbook.Base.Rows.Laws.{All-map, has_row-append}
use railbook.Base.Rows.Selects.{All-select, All_of_select_none}
use railbook.Models.{Status, Action, AuditTrail, for_seat, Schedule, Booking, Db, Env}
use railbook.Models.Constraints.{
  scalar_one_or_none, scalar_none, scalar_some, booking_clash, booking_refs, insert_booking,
  delete_booking, insert_audit,
}
use railbook.Audit.{log_audit}
use railbook.Bookings.{get_schedule, is_overlapping}
use railbook.Bookings.Create.{
  is_at, holds_seat, new_booking, seat_price, remove_old, add_reserved, reserve_seat,
  create_booking,
}
use railbook.Integrity.{RowIsValid, journeys_clash, IsValid}
use railbook.Integrity.Trails.{has_entry}
use railbook.Integrity.Changes.Opens.{opened-IsValid}

-- What a reservation that succeeds has passed.
pub record Reserved (user_id schedule_id seat_id idempotency_key : ℕ) (env : Env) (db : Db)
    (r : Booking × Db) : Type 0 where
  pub old : Option Booking
  pub schedule : Schedule
  pub price : ℕ
  pub db₁ : Db
  pub seat_query : scalar_one_or_none (select (is_at schedule_id seat_id) db.bookings) ≡ ok old
  pub seat_free : holds_seat old ≡ false
  pub scheduled : get_schedule schedule_id db ≡ some schedule
  pub no_overlap : select (is_overlapping db user_id schedule) db.bookings ≡ []
  pub priced : seat_price seat_id db ≡ ok price
  pub removed : remove_old old db ≡ ok db₁
  pub added :
      add_reserved (new_booking user_id schedule_id seat_id idempotency_key price env) env db₁
      ≡ ok r

pub reserve_seat-Reserved :
    (user_id schedule_id seat_id idempotency_key : ℕ) (env : Env) (db : Db) {r : Booking × Db}
    → reserve_seat user_id schedule_id seat_id idempotency_key env db ≡ ok r
    → Reserved user_id schedule_id seat_id idempotency_key env db r
unfolding reserve_seat
reserve_seat-Reserved user_id schedule_id seat_id idempotency_key env db h = ground arith

-- What every row satisfies, the row of the seat query satisfies.
pub row_at :
    (schedule_id seat_id : ℕ) (b : Booking) (db : Db)
    → IsValid db
    → scalar_one_or_none (select (is_at schedule_id seat_id) db.bookings) ≡ ok (some b)
    → (is_at schedule_id seat_id b ≡ true) × RowIsValid db.payments db.audit_trail b
row_at schedule_id seat_id b db v q =
    (subst
      (All (λ x. (is_at schedule_id seat_id x ≡ true) × RowIsValid db.payments db.audit_trail x))
      (scalar_some _ q) (All-select (is_at schedule_id seat_id) _ db.bookings v.rows)).0

-- In a valid database a booking always has an audit entry, so none can be deleted.
pub remove_old_refused :
    (b : Booking) (db : Db)
    → RowIsValid db.payments db.audit_trail b
    → remove_old (some b) db ≡ err integrity_error
unfolding remove_old delete_booking
remove_old_refused b db r = ground (arith, has_entry b.id db.audit_trail b.status r.logged)

pub remove_old-eq-ok :
    (schedule_id seat_id : ℕ) (old : Option Booking) (db : Db) {db₁ : Db}
    → IsValid db
    → scalar_one_or_none (select (is_at schedule_id seat_id) db.bookings) ≡ ok old
    → remove_old old db ≡ ok db₁
    → (old ≡ none) × (db₁ ≡ db)
unfolding remove_old
remove_old-eq-ok schedule_id seat_id none db v q h = ground arith
remove_old-eq-ok schedule_id seat_id (some b) db v q h =
    absurd (cc (h, remove_old_refused b db (row_at schedule_id seat_id b db v q).1))

abbrev pub first_entry : Booking → Env → Db → AuditTrail
first_entry booking env db = record {
  id = db.audit_seq;
  booking_id = booking.id;
  user_id = booking.user_id;
  action = Action.reserved;
  previous_status = none;
  new_status = Status.reserved;
  metadata = for_seat booking.schedule_id booking.seat_id;
  ip_address = env.ip_address;
  created_at = env.tx_time;
}

abbrev pub reserved_db : Booking → Env → Db → Db
reserved_db booking env db = record db {
  bookings = db.bookings ++ booking ∷ [];
  audit_trail = db.audit_trail ++ first_entry booking env db ∷ [];
  audit_seq = db.audit_seq + 1;
}

-- A reservation is one row and one entry more.
pub record Added (booking : Booking) (env : Env) (db : Db) (r : Booking × Db) : Type 0 where
  pub free : any_row (λ x. booking_clash x booking) db.bookings ≡ false
  pub refers : booking_refs db booking ≡ true
  pub result : r ≡ (booking, reserved_db booking env db)

add_reserved-Added :
    (booking : Booking) (env : Env) (db : Db) {r : Booking × Db}
    → add_reserved booking env db ≡ ok r
    → Added booking env db r
unfolding add_reserved insert_booking log_audit insert_audit
add_reserved-Added booking env db h = ground arith

pub add_reserved_lem :
    (booking : Booking) (env : Env) (db : Db)
    → any_row (λ x. booking_clash x booking) db.bookings ≡ false
    → booking_refs db booking ≡ true
    → add_reserved booking env db ≡ ok (booking, reserved_db booking env db)
unfolding add_reserved insert_booking log_audit insert_audit
add_reserved_lem booking env db free refers =
    ground (arith, has_row-append (λ (b : Booking). b.id) booking.id db.bookings booking)

-- A row with a new id, a new key and a seat of its own clashes with none.
pub no_clash :
    (b : Booking) (xs : List Booking)
    → has_row (λ x. x.id) b.id xs ≡ false
    → select (λ x. x.idempotency_key == b.idempotency_key) xs ≡ []
    → select (is_at b.schedule_id b.seat_id) xs ≡ []
    → any_row (λ x. booking_clash x b) xs ≡ false
no_clash b [] id key seat = refl
no_clash b (x ∷ xs) id key seat = ground (arith, no_clash b xs)

-- What a reservation in a valid database comes to: no booking had the seat, the key or the id, and
-- the result is the new row with its price, and the first audit entry.
pub record Reservation (user_id schedule_id seat_id idempotency_key : ℕ) (env : Env) (db : Db)
    (r : Booking × Db) : Type 0 where
  pub schedule : Schedule
  pub price : ℕ
  pub scheduled : get_schedule schedule_id db ≡ some schedule
  pub priced : seat_price seat_id db ≡ ok price
  pub seat_free : select (is_at schedule_id seat_id) db.bookings ≡ []
  pub no_overlap : select (is_overlapping db user_id schedule) db.bookings ≡ []
  pub added : Added (new_booking user_id schedule_id seat_id idempotency_key price env) env db r

module _ (user_id schedule_id seat_id idempotency_key : ℕ) (env : Env) (db : Db) {r : Booking × Db}
    (v : IsValid db) where
  pub reserve_seat-Reservation :
      reserve_seat user_id schedule_id seat_id idempotency_key env db ≡ ok r
      → Reservation user_id schedule_id seat_id idempotency_key env db r
  reserve_seat-Reservation h = record {
    schedule = c.schedule;
    price = c.price;
    scheduled = c.scheduled;
    priced = c.priced;
    seat_free = scalar_none _ (c.seat_query ∙ ap ok unused.0);
    no_overlap = c.no_overlap;
    added = add_reserved-Added _ env db (
        subst
          (λ x.
            add_reserved (new_booking user_id schedule_id seat_id idempotency_key c.price env) env x
            ≡ ok r)
          unused.1 c.added);
  }
    where
      c : Reserved user_id schedule_id seat_id idempotency_key env db r
      c = reserve_seat-Reserved user_id schedule_id seat_id idempotency_key env db h

      unused : (c.old ≡ none) × (c.db₁ ≡ db)
      unused = remove_old-eq-ok schedule_id seat_id c.old db v c.seat_query c.removed

  pub Reservation-IsValid :
      Reservation user_id schedule_id seat_id idempotency_key env db r → IsValid r.1
  Reservation-IsValid c = rw (ap (λ (z : Booking × Db). z.1) c.added.result) (
      opened-IsValid db booking (first_entry booking env db) v c.added.free c.added.refers c.priced
        alone refl refl refl refl)
    where
      booking : Booking
      booking = new_booking user_id schedule_id seat_id idempotency_key c.price env

      alone : All (λ x. journeys_clash db.schedules x booking ≡ false) db.bookings
      alone =
          All-map (λ x. is_overlapping db user_id c.schedule x ≡ false) _
            (λ x h. ground (arith, c.scheduled)) db.bookings
            (All_of_select_none (is_overlapping db user_id c.schedule) db.bookings c.no_overlap)

  pub create_cases :
      create_booking user_id schedule_id seat_id idempotency_key env db ≡ ok r
      → (r.1 ≡ db) ⊎ (reserve_seat user_id schedule_id seat_id idempotency_key env db ≡ ok r)
  unfolding create_booking
  create_cases h = ground arith

  -- A booking request that is answered, with a new booking or with an old one, leaves the tables valid.
  pub create_booking-IsValid :
      create_booking user_id schedule_id seat_id idempotency_key env db ≡ ok r → IsValid r.1
  create_booking-IsValid h = elim (create_cases h) [
    | inl old ↦ rw old v
    | inr new ↦ Reservation-IsValid (reserve_seat-Reservation new)
  ]
