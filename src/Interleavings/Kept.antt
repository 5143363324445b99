-- ===== src/Interleavings/Kept.antt =====
-- A payment that the gateway has accepted is not lost to the cleanup.
use railbook.Base.{ℕ, ◌≡◌, refl, true, false, some, arith}
use railbook.Base.Outcome.{ok}
use railbook.Base.Rows.{get_row, any_row}
use railbook.Base.Rows.Laws.{
  All-get, key_of_get, has_row_of_get, has_row-update, get_row-update_self,
}
use railbook.Models.{PaymentStatus, Booking, Db}
use railbook.Models.Constraints.{payment_clash, booking_refs, insert_payment, insert_audit}
use railbook.Audit.{log_audit}
use railbook.Payments.{PaymentResult}
use railbook.Bookings.Pay.{mark_confirmed, settle_success}
use railbook.Auth.{Bcrypt, Jwt}
use railbook.Integrity.{IsValid}
use railbook.Integrity.Pays.{success_row, confirmed_db}
use railbook.Interleavings.{Pending, State, booking_id, commit_payment, committed, Reach}
use railbook.Interleavings.Held.{Held, IsSafe, inside, Reach-IsSafe}

commit_confirms :
    (p : Pending) (result : PaymentResult) (db : Db)
    → IsValid db
    → Held db p
    → result.status ≡ PaymentStatus.success
    → any_row (λ x. payment_clash x (success_row p.booking p.key result p.env)) db.payments ≡ false
    → commit_payment p result db
      ≡ ok (
        mark_confirmed (p.env.clock 1) p.booking,
        confirmed_db p.booking p.user_id p.key result p.env (inside p result db),
      )
unfolding commit_payment settle_success insert_payment log_audit insert_audit
commit_confirms p result db v h accepted free =
    let refers =
      All-get (λ (b : Booking). b.id) p.booking.id (λ b. booking_refs db b ≡ true) db.bookings
        v.refer h.found in
    let here = has_row_of_get (λ (b : Booking). b.id) p.booking.id db.bookings h.found in
    ground (
      arith,
      accepted,
      free,
      refers,
      here,
      h.owner,
      has_row-update (λ (b : Booking). b.id) p.booking.id (mark_confirmed (p.env.clock 1))
          (λ b. refl) p.booking.id db.bookings,
    )

module _ (bcrypt : Bcrypt) (jwt : Jwt) where
  -- A payment that the gateway has accepted is not lost to an expired reservation: in every state that
  -- is reached from a safe one, whatever cleanup passes and other requests ran since the payment's
  -- checks and however late it is, its commit confirms the booking, unless the payments have its key
  -- or its id by then.
  pub charge_is_kept :
      {s t : State} (k : ℕ) (p : Pending) (result : PaymentResult)
      → Reach bcrypt jwt s t
      → IsSafe s
      → get_row booking_id k t.pending ≡ some p
      → result.status ≡ PaymentStatus.success
      → any_row
          (λ x. payment_clash x (success_row p.booking p.key result p.env))
          t.world.db.payments
        ≡ false
      → get_row (λ b. b.id) k (committed p result t).world.db.bookings
        ≡ some (mark_confirmed (p.env.clock 1) p.booking)
  charge_is_kept {t = t} k p result r i found accepted free =
      let safe = Reach-IsSafe bcrypt jwt r i in
      let held = All-get booking_id k (Held t.world.db) t.pending safe.held found in
      let same = key_of_get booking_id k t.pending found in
      rw (commit_confirms p result t.world.db safe.valid held accepted free, ← same)
        (get_row-update_self (λ (b : Booking). b.id) (mark_confirmed (p.env.clock 1)) (λ b. refl)
          p.booking.id t.world.db.bookings p.booking held.found)
