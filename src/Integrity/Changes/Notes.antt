-- ===== src/Integrity/Changes/Notes.antt =====
-- An audit entry alone, one that leaves its booking in its status, keeps `IsValid`.
use railbook.Base.{ℕ, ◌+◌, ◌≡◌, ap, some, [], ◌∷◌, ◌++◌, arith}
use railbook.Base.Rows.{get_row, All}
use railbook.Base.Rows.Laws.{
  All-map, All-zip, All-append, AllPairs-map, get_row_unique, has_row_of_get,
}
use railbook.Models.{Booking, AuditTrail, Db}
use railbook.Bookings.Create.{seat_price}
use railbook.Integrity.{fresh, at, advance, RowIsValid, IsValid}
use railbook.Integrity.Trails.{replay-append}

module _ (db : Db) (k : ℕ) (e : AuditTrail) (b : Booking) (v : IsValid db)
    (found : get_row (λ x. x.id) k db.bookings ≡ some b) (about : e.booking_id ≡ k)
    (stays : advance (at b.status) e ≡ at b.status) where
  abbrev noted : Db
  noted = record db { audit_trail = db.audit_trail ++ e ∷ []; audit_seq = db.audit_seq + 1 }

  is_target : All (λ x. x.id ≡ k → x ≡ b) db.bookings
  is_target =
      get_row_unique (λ x. x.id) k db.bookings
        (AllPairs-map _ _ (λ x y h. ground arith) db.bookings v.distinct) found

  noted_row :
      (x : Booking)
      → RowIsValid db.payments db.audit_trail x × (x.id ≡ k → x ≡ b)
      → RowIsValid db.payments noted.audit_trail x
  noted_row x (r, is_b) = record {
    logged =
        rw (replay-append x.id fresh db.audit_trail e, r.logged)
          (ground (arith, λ (h : x.id ≡ k). ap (λ (z : Booking). z.status) (is_b h)));
    charged = r.charged;
    attempted = r.attempted;
    confirmed_stamp = r.confirmed_stamp;
  }

  pub noted-IsValid : IsValid noted
  unfolding seat_price
  noted-IsValid = record {
    distinct = v.distinct;
    apart = v.apart;
    rows = All-map _ _ noted_row db.bookings (All-zip _ _ db.bookings v.rows is_target);
    refer = v.refer;
    priced = v.priced;
    paid = v.paid;
    payments_distinct = v.payments_distinct;
    audited =
        All-append _ db.audit_trail e v.audited
          (rw about (has_row_of_get (λ x. x.id) k db.bookings found));
  }
