-- ===== src/Routes/Users.antt =====
-- The services and the cleanup leave the users alone, and a registration adds one.
use railbook.Base.{ℕ, ◌≡◌, refl, ap, sym, ◌∙◌, String, Bool, Option, List, [], ◌∷◌, inl, inr}
use railbook.Base.Outcome.{Result, ok, err, ok-injective, await-eq-ok}
use railbook.Models.{Booking, Db, Env}
use railbook.Payments.{MockPaymentGateway, RefundResult}
use railbook.Bookings.Create.{create_booking}
use railbook.Bookings.Pay.{pay_booking}
use railbook.Bookings.Refund.{refund_booking}
use railbook.Bookings.Cleanup.{expired_rows, release, release_all, committed, cleanup_pass}
use railbook.Integrity.{IsValid}
use railbook.Integrity.Creates.{reserve_seat-Reservation}
use railbook.Integrity.PayCases.{pay_cases, settle_cases}
use railbook.Integrity.Refunds.{refund_booking-Refunded}
use railbook.Integrity.Cleanups.{release-eq-ok}
use railbook.Routes.Answers.{create_ways}

pub create_booking-users :
    (user_id schedule_id seat_id key : ℕ) (env : Env) (db : Db) (r : Booking × Db)
    → IsValid db
    → create_booking user_id schedule_id seat_id key env db ≡ ok r
    → r.1.users ≡ db.users
create_booking-users user_id schedule_id seat_id key env db r v h =
    elim (create_ways user_id schedule_id seat_id key env db h) [
      | inl (_, same) ↦ rw same refl
      | inr new ↦
          rw (reserve_seat-Reservation user_id schedule_id seat_id key env db v new).added.result
            refl
    ]

pub pay_booking-users :
    (booking_id user_id key draw : ℕ) (hex : String) (env : Env) (db : Db) (g : MockPaymentGateway)
    (r : Booking × Db)
    → (pay_booking booking_id user_id key draw hex env db g).0 ≡ ok r
    → r.1.users ≡ db.users
pay_booking-users booking_id user_id key draw hex env db g r h =
    elim (pay_cases booking_id user_id key draw hex env db g h) [
      | inl (c, same) ↦ rw same refl
      | inr c ↦ elim (settle_cases _ c.booking user_id key _ env c.before c.settled) [
        | inl e ↦ rw (e, c.prepared.attempt) refl
        | inr e ↦ rw (e, c.prepared.attempt) refl
      ]
    ]

release_all-users :
    (now : ℕ) (bs : List Booking) (db : Db) {db' : Db}
    → release_all now bs db ≡ ok db'
    → db'.users ≡ db.users
unfolding release_all
release_all-users now [] db h = ap (λ (d : Db). d.users) (sym (ok-injective h))
release_all-users now (b ∷ bs) db h =
    let (db₁, rest, first) = await-eq-ok (release_all now bs) (release now b db) h in
    release_all-users now bs db₁ rest ∙ ap (λ (d : Db). d.users) (release-eq-ok now b db first)

pub cleanup_pass-users :
    (now : ℕ) (locked : ℕ → Bool) (db : Db) → (cleanup_pass now locked db).users ≡ db.users
unfolding cleanup_pass
cleanup_pass-users now locked db = go (release_all now (expired_rows now locked db) db) refl
  where
    go :
        (r : Result Db)
        → release_all now (expired_rows now locked db) db ≡ r
        → (committed r db).users ≡ db.users
    go (ok db') e = release_all-users now (expired_rows now locked db) db e
    go (err e) _ = refl

pub refund_booking-users :
    (booking_id user_id : ℕ) (hex : String) (env : Env) (db : Db)
    (r : Booking × Option RefundResult × Db)
    → refund_booking booking_id user_id hex env db ≡ ok r
    → r.2.users ≡ db.users
refund_booking-users booking_id user_id hex env db r h =
    rw (refund_booking-Refunded booking_id user_id hex env db h).result refl
