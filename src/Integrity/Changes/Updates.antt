-- ===== src/Integrity/Changes/Updates.antt =====
-- An UPDATE of one booking, with an audit entry about it, keeps `IsValid`.
use railbook.Base.{
  ℕ, ◌+◌, ◌≤◌, ◌≡◌, ◌≢◌, ap, false, some, List, [], ◌∷◌, ◌++◌, arith, ◌==◌, is_some,
}
use railbook.Base.Rows.{count_rows, get_row, update_row, All, AllPairs}
use railbook.Base.Rows.Laws.{
  All-map, All-zip, All-append, AllPairs-map, get_row_unique, All-update, AllPairs-update,
  has_row-update, has_row_of_get,
}
use railbook.Models.{Status, Booking, Payment, AuditTrail, Db}
use railbook.Models.Constraints.{booking_clash, payment_clash}
use railbook.Bookings.{is_active}
use railbook.Bookings.Create.{seat_price}
use railbook.Bookings.Refund.{is_charge_of}
use railbook.Integrity.{
  fresh, at, advance, charges, attempts, was_confirmed, RowIsValid, PaymentIsValid, journeys_clash,
  IsValid,
}
use railbook.Integrity.Trails.{replay-append}
use railbook.Integrity.Changes.Lookups.{PaymentIsValid-update}

-- What an UPDATE leaves alone, and the status that it sets.
pub record Restamps (f : Booking → Booking) (from to : Status) : Type 0 where
  pub id : (x : Booking) → (f x).id ≡ x.id
  pub user_id : (x : Booking) → (f x).user_id ≡ x.user_id
  pub schedule_id : (x : Booking) → (f x).schedule_id ≡ x.schedule_id
  pub seat_id : (x : Booking) → (f x).seat_id ≡ x.seat_id
  pub idempotency_key : (x : Booking) → (f x).idempotency_key ≡ x.idempotency_key
  pub total_amount : (x : Booking) → (f x).total_amount ≡ x.total_amount
  pub status : (x : Booking) → (f x).status ≡ to
  pub stamp :
      (x : Booking)
      → is_some x.confirmed_at ≡ was_confirmed from
      → is_some (f x).confirmed_at ≡ was_confirmed to
  pub narrows : is_active from ≡ false → is_active to ≡ false

-- The payments after the change: as before for the other bookings, and fit for the new status.
pub record Settles (db : Db) (k : ℕ) (to : Status) (ps : List Payment) : Type 0 where
  pub others :
      (j : ℕ)
      → j ≢ k
      → (count_rows (is_charge_of j) ps ≡ count_rows (is_charge_of j) db.payments)
        × (count_rows (λ p. p.booking_id == j) ps ≡ count_rows (λ p. p.booking_id == j) db.payments)
  pub charged : count_rows (is_charge_of k) ps ≡ charges to
  pub attempted : count_rows (λ p. p.booking_id == k) ps ≤ attempts to
  pub paid : All (PaymentIsValid db.bookings) ps
  pub distinct : AllPairs (λ x y. payment_clash x y ≡ false) ps

-- The UPDATE of the booking `b` with id `k`, with the entry `e`.
module _ (db : Db) (k : ℕ) (f : Booking → Booking) (e : AuditTrail) (b : Booking) (to : Status)
    (ps : List Payment) (v : IsValid db) (found : get_row (λ x. x.id) k db.bookings ≡ some b)
    (change : Restamps f b.status to) (settles : Settles db k to ps) (about : e.booking_id ≡ k)
    (moves : advance (at b.status) e ≡ at to) where
  abbrev changed : Db
  changed = record db {
    bookings = update_row (λ x. x.id) k f db.bookings;
    payments = ps;
    audit_trail = db.audit_trail ++ e ∷ [];
    audit_seq = db.audit_seq + 1;
  }

  is_target : All (λ x. x.id ≡ k → x ≡ b) db.bookings
  is_target =
      get_row_unique (λ x. x.id) k db.bookings
        (AllPairs-map _ _ (λ x y h. ground arith) db.bookings v.distinct) found

  other_row :
      (x : Booking)
      → x.id ≢ k
      → RowIsValid db.payments db.audit_trail x × (x.id ≡ k → x ≡ b)
      → RowIsValid ps changed.audit_trail x
  other_row x ne (r, _) = record {
    logged = ground (arith, replay-append x.id fresh db.audit_trail e, r.logged);
    charged = ground (arith, settles.others x.id ne, r.charged);
    attempted = ground (arith, settles.others x.id ne, r.attempted);
    confirmed_stamp = r.confirmed_stamp;
  }

  target_row :
      (x : Booking)
      → x.id ≡ k
      → RowIsValid db.payments db.audit_trail x × (x.id ≡ k → x ≡ b)
      → RowIsValid ps changed.audit_trail (f x)
  target_row x is_k (r, is_b) = record {
    logged = ground (
      arith,
      replay-append (f x).id fresh db.audit_trail e,
      change.id x,
      change.status x,
      r.logged,
      is_b is_k,
    );
    charged = rw (change.status x, change.id x, is_k) settles.charged;
    attempted = rw (change.status x, change.id x, is_k) settles.attempted;
    confirmed_stamp =
        rw (change.status x)
          (change.stamp x (rw (ap (λ (z : Booking). z.status) (is_b is_k)) at r.confirmed_stamp));
  }

  keeps_clash_left : (x y : Booking) → booking_clash x y ≡ false → booking_clash (f x) y ≡ false
  keeps_clash_left x y h =
      rw (change.id x, change.idempotency_key x, change.schedule_id x, change.seat_id x) h

  keeps_clash_right : (x y : Booking) → booking_clash x y ≡ false → booking_clash x (f y) ≡ false
  keeps_clash_right x y h =
      rw (change.id y, change.idempotency_key y, change.schedule_id y, change.seat_id y) h

  keeps_apart_left :
      (x y : Booking)
      → x.status ≡ b.status
      → journeys_clash db.schedules x y ≡ false
      → journeys_clash db.schedules (f x) y ≡ false
  keeps_apart_left x y e h =
      rw (change.user_id x, change.schedule_id x, change.status x) (ground (arith, change.narrows))

  keeps_apart_right :
      (x y : Booking)
      → y.status ≡ b.status
      → journeys_clash db.schedules x y ≡ false
      → journeys_clash db.schedules x (f y) ≡ false
  keeps_apart_right x y e h =
      rw (change.user_id y, change.schedule_id y, change.status y) (ground (arith, change.narrows))

  pub changed-IsValid : IsValid changed
  unfolding seat_price
  changed-IsValid = record {
    distinct =
        AllPairs-update (λ x. x.id) k f (λ x. x.id ≡ k → x ≡ b) _
          (λ x y _ _ h. keeps_clash_left x y h) (λ x y _ _ h. keeps_clash_right x y h) db.bookings
          is_target v.distinct;
    apart =
        AllPairs-update (λ x. x.id) k f (λ x. x.id ≡ k → x ≡ b) _
          (λ x y is_k is_b h. keeps_apart_left x y (ap (λ (z : Booking). z.status) (is_b is_k)) h)
          (λ x y is_k is_b h. keeps_apart_right x y (ap (λ (z : Booking). z.status) (is_b is_k)) h)
          db.bookings is_target v.apart;
    rows =
        All-update (λ x. x.id) k f _ _ other_row target_row db.bookings
          (All-zip _ _ db.bookings v.rows is_target);
    refer =
        All-update (λ x. x.id) k f _ _ (λ x _ h. h)
          (λ x _ h. rw (change.user_id x, change.schedule_id x, change.seat_id x) h) db.bookings
          v.refer;
    priced =
        All-update (λ x. x.id) k f _ _ (λ x _ h. h)
          (λ x _ h. rw (change.seat_id x, change.total_amount x) h) db.bookings v.priced;
    paid =
        All-map _ _ (PaymentIsValid-update k f change.id change.total_amount db.bookings) ps
          settles.paid;
    payments_distinct = settles.distinct;
    audited =
        All-append _ db.audit_trail e
          (All-map _ _
            (λ a h. rw (has_row-update (λ x. x.id) k f change.id a.booking_id db.bookings) h)
            db.audit_trail v.audited)
          (rw (has_row-update (λ x. x.id) k f change.id e.booking_id db.bookings, about)
            (has_row_of_get (λ x. x.id) k db.bookings found));
  }
