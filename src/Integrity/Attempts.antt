-- ===== src/Integrity/Attempts.antt =====
-- A payment attempt before the charge, and the payments table after it.
use railbook.Base.{ℕ, ◌+◌, ◌≡◌, sym, ap, false, some, [], ◌∷◌, ◌++◌, arith, ◌==◌, if◌then◌else◌}
use railbook.Base.Outcome.{ok}
use railbook.Base.Rows.{any_row, get_row, select}
use railbook.Base.Rows.Laws.{All-get, All-append, AllPairs-append, key_of_get}
use railbook.Base.Rows.Selects.{All_of_none, count_rows-append}
use railbook.Models.{
  Status, Action, is_success, AuditTrail, Metadata, Booking, Payment, Db, Env, empty,
}
use railbook.Models.Constraints.{payment_clash, insert_audit}
use railbook.Audit.{log_audit}
use railbook.Bookings.Refund.{is_charge_of}
use railbook.Bookings.Pay.{is_past, payable, to_charge, prepare}
use railbook.Integrity.{charges, attempts, RowIsValid, IsValid}
use railbook.Integrity.Changes.Updates.{Settles}

abbrev pub entry :
    Booking → (user_id : ℕ) → Action → Status → Status → Metadata → Env → Db → AuditTrail
entry booking user_id action from to metadata env db = record {
  id = db.audit_seq;
  booking_id = booking.id;
  user_id = user_id;
  action = action;
  previous_status = some from;
  new_status = to;
  metadata = metadata;
  ip_address = env.ip_address;
  created_at = env.tx_time;
}

abbrev pub attempted_db : Booking → ℕ → Env → Db → Db
attempted_db booking user_id env db = record db {
  audit_trail =
      db.audit_trail
      ++ entry booking user_id Action.payment_attempted Status.reserved Status.reserved empty env db
        ∷ [];
  audit_seq = db.audit_seq + 1;
}

-- A payment attempt that reaches the gateway: the booking is reserved, and one entry is added.
pub record Prepared (booking_id user_id idempotency_key : ℕ) (env : Env) (db : Db)
    (booking : Booking) (db₁ : Db) : Type 0 where
  pub found : get_row (λ b. b.id) booking_id db.bookings ≡ some booking
  pub owner : booking.user_id ≡ user_id
  pub is_reserved : booking.status ≡ Status.reserved
  pub in_time : is_past booking.expires_at (env.clock 0) ≡ false
  pub unused : select (λ p. p.idempotency_key == idempotency_key) db.payments ≡ []
  pub attempt : db₁ ≡ attempted_db booking user_id env db

pub prepare-Prepared :
    (booking_id user_id idempotency_key : ℕ) (env : Env) (db : Db) {booking : Booking} {db₁ : Db}
    → prepare booking_id user_id idempotency_key env db ≡ ok (to_charge booking db₁)
    → Prepared booking_id user_id idempotency_key env db booking db₁
unfolding prepare payable log_audit insert_audit
prepare-Prepared booking_id user_id idempotency_key env db h = ground arith

-- A settled payment `p` of booking `b`, which goes to the status `to` by the entry `e`.
module _ (db : Db) (k : ℕ) (b : Booking) (p : Payment) (to : Status) (v : IsValid db)
    (found : get_row (λ x. x.id) k db.bookings ≡ some b) (is_reserved : b.status ≡ Status.reserved)
    (pays : p.booking_id ≡ k) (amount : p.amount ≡ b.total_amount)
    (free : any_row (λ x. payment_clash x p) db.payments ≡ false)
    (charged : charges to ≡ (if is_success p.status then 1 else 0))
    (attempted : attempts to ≡ 1) where
  row : RowIsValid db.payments db.audit_trail b
  row = All-get (λ x. x.id) k _ db.bookings v.rows found

  pub settled : Settles db k to (db.payments ++ p ∷ [])
  settled = record {
    others = λ j ne. (
      ground (arith, count_rows-append (is_charge_of j) db.payments p),
      ground (arith, count_rows-append (λ (x : Payment). x.booking_id == j) db.payments p),
    );
    charged = ground (
      arith,
      count_rows-append (is_charge_of k) db.payments p,
      row.charged,
      key_of_get (λ (x : Booking). x.id) k db.bookings found,
    );
    attempted = ground (
      arith,
      count_rows-append (λ (x : Payment). x.booking_id == k) db.payments p,
      row.attempted,
      key_of_get (λ (x : Booking). x.id) k db.bookings found,
    );
    paid = All-append _ db.payments p v.paid (rw (pays, found) (ap some (sym amount)));
    distinct = AllPairs-append _ db.payments p v.payments_distinct (All_of_none _ db.payments free);
  }
