-- ===== src/Integrity/Changes/Opens.antt =====
-- A new booking with its first audit entry keeps `IsValid`.
use railbook.Base.{◌+◌, ◌≡◌, true, false, none, [], ◌∷◌, ◌++◌, arith}
use railbook.Base.Outcome.{ok}
use railbook.Base.Rows.{any_row, has_row, All}
use railbook.Base.Rows.Laws.{All-map, All-zip, All-append, AllPairs-append, has_row-append}
use railbook.Base.Rows.Selects.{All_of_none}
use railbook.Models.{Status, Booking, AuditTrail, Db}
use railbook.Models.Constraints.{booking_clash, booking_refs}
use railbook.Bookings.Create.{seat_price}
use railbook.Integrity.{fresh, at, advance, RowIsValid, journeys_clash, IsValid}
use railbook.Integrity.Trails.{replay-append, replay_absent}
use railbook.Integrity.Changes.Lookups.{no_reference, no_payments, new_id, PaymentIsValid-append}

-- A new booking `b`, with the entry `e` that records it.
module _ (db : Db) (b : Booking) (e : AuditTrail) (v : IsValid db)
    (free : any_row (λ x. booking_clash x b) db.bookings ≡ false)
    (refers : booking_refs db b ≡ true) (price : seat_price b.seat_id db ≡ ok b.total_amount)
    (alone : All (λ x. journeys_clash db.schedules x b ≡ false) db.bookings)
    (is_new : b.status ≡ Status.reserved) (unstamped : b.confirmed_at ≡ none)
    (about : e.booking_id ≡ b.id) (opens : advance fresh e ≡ at Status.reserved) where
  abbrev opened : Db
  opened = record db {
    bookings = db.bookings ++ b ∷ [];
    audit_trail = db.audit_trail ++ e ∷ [];
    audit_seq = db.audit_seq + 1;
  }

  absent : has_row (λ (x : Booking). x.id) b.id db.bookings ≡ false
  absent = new_id b db.bookings free

  old_row :
      (x : Booking)
      → (booking_clash x b ≡ false) × RowIsValid db.payments db.audit_trail x
      → RowIsValid opened.payments opened.audit_trail x
  old_row x (other, r) = record {
    logged = ground (arith, replay-append x.id fresh db.audit_trail e, r.logged);
    charged = r.charged;
    attempted = r.attempted;
    confirmed_stamp = r.confirmed_stamp;
  }

  new_row : RowIsValid opened.payments opened.audit_trail b
  new_row = record {
    logged = ground (
      arith,
      replay-append b.id fresh db.audit_trail e,
      replay_absent b.id fresh db.audit_trail
          (no_reference b.id db.bookings absent (λ x. x.booking_id) db.audit_trail v.audited),
    );
    charged = ground (arith, no_payments b.id db.bookings absent db.payments v.paid);
    attempted = ground (arith, no_payments b.id db.bookings absent db.payments v.paid);
    confirmed_stamp = ground arith;
  }

  pub opened-IsValid : IsValid opened
  unfolding seat_price
  opened-IsValid = record {
    distinct = AllPairs-append _ db.bookings b v.distinct (All_of_none _ db.bookings free);
    apart = AllPairs-append _ db.bookings b v.apart alone;
    rows =
        All-append _ db.bookings b
          (All-map _ _ old_row db.bookings
            (All-zip _ _ db.bookings (All_of_none _ db.bookings free) v.rows))
          new_row;
    refer = All-append _ db.bookings b v.refer refers;
    priced = All-append _ db.bookings b v.priced price;
    paid = All-map _ _ (PaymentIsValid-append db.bookings b) db.payments v.paid;
    payments_distinct = v.payments_distinct;
    audited =
        All-append _ db.audit_trail e
          (All-map _ _
            (λ a h.
              ground (arith, has_row-append (λ (x : Booking). x.id) a.booking_id db.bookings b))
            db.audit_trail v.audited)
          (ground (arith, has_row-append (λ (x : Booking). x.id) e.booking_id db.bookings b));
  }
