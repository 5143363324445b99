-- ===== src/Interleavings/Rows.antt =====
-- What the steps of others leave of a reserved booking, and of the payments.
use railbook.Base.{
  ℕ, ◌≡◌, refl, ap, sym, ◌∙◌, String, Bool, true, false, not, ◌&&◌, Option, some, List, [], ◌∷◌,
  arith, inl, inr, Bool-cases, ◌==◌, subst, eq_of_test,
}
use railbook.Base.Outcome.{Result, ok, err, ok-injective, await-eq-ok}
use railbook.Base.Rows.{get_row, All}
use railbook.Base.Rows.Laws.{All-map, get_row-append_old, has_row_of_get, get_row-update, get_self}
use railbook.Base.Rows.Selects.{All_pass}
use railbook.Models.{Status, Booking, Db, Env}
use railbook.Payments.{RefundResult}
use railbook.Bookings.Create.{create_booking}
use railbook.Bookings.Refund.{mark_refunded, refund_booking}
use railbook.Bookings.Pay.{mark_cancelled}
use railbook.Bookings.Cleanup.{
  is_expired, expired_rows, release, release_all, committed, cleanup_pass,
}
use railbook.Auth.{Bcrypt, Jwt, TokenResponse, register}
use railbook.Auth.Accounts.{register-Registered}
use railbook.Integrity.{IsValid}
use railbook.Integrity.Creates.{create_cases, reserve_seat-Reservation}
use railbook.Integrity.Refunds.{refund_booking-Refunded}
use railbook.Integrity.Cleanups.{release-eq-ok}
use railbook.Integrity.Growth.{Grows}
use railbook.Seed.Runs.{seed_database-Grows}
use railbook.System
use railbook.System.{World, Request, commit_or, without_answer, seeded_or, serve}
use railbook.Interleavings.{is_one_step}

-- The row of a booking stays as it is.
abbrev pub Stays : Booking → Db → Db → Type 0
Stays b db db' =
    get_row (λ x. x.id) b.id db.bookings ≡ some b → get_row (λ x. x.id) b.id db'.bookings ≡ some b

-- The reserved bookings and the payments stay.
pub record Leaves (db db' : Db) : Type 0 where
  pub payments : db'.payments ≡ db.payments
  pub reserved : (b : Booking) → b.status ≡ Status.reserved → Stays b db db'

Leaves-refl : (db : Db) → Leaves db db
Leaves-refl db = record { payments = refl; reserved = λ b r h. h }

module _ (db : Db) (v : IsValid db) where
  create-Leaves :
      (user_id schedule_id seat_id key : ℕ) (env : Env) (result : Result (Booking × Db))
      → create_booking user_id schedule_id seat_id key env db ≡ result
      → Leaves db (commit_or result db)
  create-Leaves user_id schedule_id seat_id key env (err e) h = Leaves-refl db
  create-Leaves user_id schedule_id seat_id key env (ok r) h =
      elim (create_cases user_id schedule_id seat_id key env db v h) [
        | inl same ↦ rw same (Leaves-refl db)
        | inr new ↦
            let c = reserve_seat-Reservation user_id schedule_id seat_id key env db v new in
            rw c.added.result (record {
              payments = refl;
              reserved = λ b r found.
                  get_row-append_old (λ (x : Booking). x.id) b.id db.bookings _
                    (has_row_of_get (λ (x : Booking). x.id) b.id db.bookings found)
                  ∙ found;
            })
      ]

  refund-Leaves :
      (id user_id : ℕ) (hex : String) (env : Env)
      (result : Result (Booking × Option RefundResult × Db))
      → refund_booking id user_id hex env db ≡ result
      → Leaves db (commit_or (without_answer result) db)
  refund-Leaves id user_id hex env (err e) h = Leaves-refl db
  refund-Leaves id user_id hex env (ok r) h =
      let c = refund_booking-Refunded id user_id hex env db h in
      let found = get_self (λ (x : Booking). x.id) id db.bookings c.found in
      rw c.result (record {
        payments = refl;
        reserved = λ b is_reserved here. ground (
          arith,
          get_row-update (λ (x : Booking). x.id) c.booking.id (mark_refunded (env.clock 1))
              (λ x. refl) b.id db.bookings,
          here,
          found,
          is_reserved,
          c.is_confirmed,
        );
      })

module _ (bcrypt : Bcrypt) (jwt : Jwt) where
  register-Leaves :
      (email password full_name : String) (phone : Option String) (salt : ℕ) (env : Env) (db : Db)
      (result : Result (TokenResponse jwt × Db))
      → register bcrypt jwt email password full_name phone salt env db ≡ result
      → Leaves db (commit_or result db)
  register-Leaves email password full_name phone salt env db (ok r) h =
      let c = register-Registered bcrypt jwt email password full_name phone salt env db h in
      rw c.result (record { payments = refl; reserved = λ b r found. found })
  register-Leaves email password full_name phone salt env db (err e) h = Leaves-refl db

  start-Leaves :
      (db : Db) (result : Result Db)
      → ((db' : Db) → result ≡ ok db' → Grows db db')
      → Leaves db (seeded_or result db)
  start-Leaves db (ok db') h =
      let g = h db' refl in
      record { payments = g.payments; reserved = λ b r found. rw g.bookings found }
  start-Leaves db (err e) h = Leaves-refl db

  -- A request that is one step leaves the reserved bookings and the payments as they are.
  pub serve-Leaves :
      (q : Request) (w : World)
      → IsValid w.db
      → is_one_step q ≡ true
      → Leaves w.db (serve bcrypt jwt q w).db
  unfolding serve
  serve-Leaves (System.start ids salts now tx_time) w v one =
      start-Leaves w.db _ (λ db' h. seed_database-Grows bcrypt ids salts now tx_time w.db h)
  serve-Leaves (System.create u s t k env) w v one = create-Leaves w.db v u s t k env _ refl
  serve-Leaves (System.refund b u hex env) w v one = refund-Leaves w.db v b u hex env _ refl
  serve-Leaves (System.register email password full_name phone salt env) w v one =
      register-Leaves email password full_name phone salt env w.db _ refl
  serve-Leaves (System.configure config) w v one = Leaves-refl w.db
  serve-Leaves (System.pay b u k draw hex env) w v one = cc
  serve-Leaves (System.cleanup now locked) w v one = cc

-- The releases of a pass leave the payments, and every other row.
release_all-payments :
    (now : ℕ) (bs : List Booking) (db : Db) {db' : Db}
    → release_all now bs db ≡ ok db'
    → db'.payments ≡ db.payments
unfolding release_all
release_all-payments now [] db h = ap (λ (z : Db). z.payments) (sym (ok-injective h))
release_all-payments now (x ∷ xs) db h =
    let (db₁, rest, first) = await-eq-ok (release_all now xs) (release now x db) h in
    release_all-payments now xs db₁ rest
    ∙ ap (λ (z : Db). z.payments) (release-eq-ok now x db first)

release_all-Stays :
    (now : ℕ) (bs : List Booking) (b : Booking) (db : Db) {db' : Db}
    → All (λ x. (b.id == x.id) ≡ false) bs
    → release_all now bs db ≡ ok db'
    → Stays b db db'
unfolding release_all
release_all-Stays now [] b db away h = subst (Stays b db) (ok-injective h) (λ found. found)
release_all-Stays now (x ∷ xs) b db away h =
    let (db₁, rest, first) = await-eq-ok (release_all now xs) (release now x db) h in
    λ found. release_all-Stays now xs b db₁ away.1 rest (
      rw (release-eq-ok now x db first) (
        ground (
          arith,
          get_row-update (λ (y : Booking). y.id) x.id (mark_cancelled now) (λ y. refl) b.id
              db.bookings,
          found,
          away.0,
        )))

module _ (now : ℕ) (locked : ℕ → Bool) (db : Db) where
  pub cleanup_pass-payments : (cleanup_pass now locked db).payments ≡ db.payments
  unfolding cleanup_pass
  cleanup_pass-payments = go (release_all now (expired_rows now locked db) db) refl
    where
      go :
          (r : Result Db)
          → release_all now (expired_rows now locked db) db ≡ r
          → (committed r db).payments ≡ db.payments
      go (ok db') e = release_all-payments now (expired_rows now locked db) db e
      go (err _) e = refl

  -- A pass of the cleanup leaves every row that is locked.
  pub cleanup_pass-Stays :
      (b : Booking) → locked b.id ≡ true → Stays b db (cleanup_pass now locked db)
  unfolding cleanup_pass
  cleanup_pass-Stays b held = go (release_all now (expired_rows now locked db) db) refl
    where
      away : All (λ x. (b.id == x.id) ≡ false) (expired_rows now locked db)
      away =
          All-map (λ x. (is_expired now x && not (locked x.id)) ≡ true)
            (λ x. (b.id == x.id) ≡ false)
            (λ x h. elim (Bool-cases (b.id == x.id)) [
              | inl same ↦ ground (arith, h, held, ap locked (eq_of_test b.id x.id same))
              | inr differs ↦ differs
            ])
            (expired_rows now locked db) (All_pass _ db.bookings)

      go :
          (r : Result Db)
          → release_all now (expired_rows now locked db) db ≡ r
          → Stays b db (committed r db)
      go (ok db') e = release_all-Stays now (expired_rows now locked db) b db away e
      go (err _) e = λ found. found
