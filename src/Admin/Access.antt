-- ===== src/Admin/Access.antt =====
-- The routes of backend/app/admin/router.py behind `Depends(require_admin)`.
use railbook.Base.{
  ℕ, ◌≡◌, refl, ◌∙◌, ap, String, Bool, true, false, Option, none, some, List, [], ◌∷◌, arith, inl,
  inr, Bool-cases, subst, ==_refl, ◌==◌, eq_text,
}
use railbook.Base.Ints.{ℤ}
use railbook.Base.Outcome.{Error, Result, ok, err, ◌>>=◌, await-eq-ok}
use railbook.Base.Rows.{select, any_row, All}
use railbook.Base.Rows.Selects.{select-append}
use railbook.Payments.{RefundResult}
use railbook.Models.{User, Booking, Db, Env}
use railbook.Bookings.Queries.{NewestFirst}
use railbook.Integrity.{IsValid}
use railbook.Auth.{Bcrypt, Jwt, TokenResponse, register, new_user, get_current_user, require_admin}
use railbook.Auth.Accounts.{register-Registered}
use railbook.Auth.Tokens.{get_current_user-row}
use mathlib.Core.List.{append-nil}
use railbook.System
use railbook.System.{World, Request, commit_or, without_answer, serve, run}
use railbook.System.Validity.{serve-IsValid}
use railbook.Routes.Users.{
  create_booking-users, pay_booking-users, refund_booking-users, cleanup_pass-users,
}
use railbook.Api.{user_of}
use railbook.Admin.{
  Stats, get_stats, OccupancyRow, ByDeparture, get_occupancy, BookingSummary, list_all_bookings,
  AuditSummary, AuditFilter, LatestFirst, audit_trail,
}

pub data AdminCall : Type 0 where
  stats occupancy : AdminCall
  all_bookings : (status : Option String) (limit offset : ℤ) → AdminCall
  audit : (booking_id : AuditFilter) (limit : ℤ) → AdminCall

pub data AdminReply : Type 0 where
  of_stats : Stats → AdminReply
  of_occupancy : List OccupancyRow → AdminReply
  of_bookings : List BookingSummary → AdminReply
  of_audit : List AuditSummary → AdminReply

-- The handlers, with the orders of their queries.
unfoldable pub admin_answer :
    NewestFirst → ByDeparture → LatestFirst → AdminCall → Db → Result AdminReply
admin_answer newest by_departure latest stats db = ok (of_stats (get_stats db))
admin_answer newest by_departure latest occupancy db =
    ok (of_occupancy (get_occupancy by_departure db))
admin_answer newest by_departure latest (all_bookings status limit offset) db = do
  bookings ← list_all_bookings newest status limit offset db
  ok (of_bookings bookings)
admin_answer newest by_departure latest (audit booking_id limit) db = do
  entries ← audit_trail latest booking_id limit db
  ok (of_audit entries)

unfoldable pub admin_handle :
    (bcrypt : Bcrypt) (jwt : Jwt) (no_credentials : Error)
    → NewestFirst
    → ByDeparture
    → LatestFirst
    → (token : Option jwt.Token) (now : ℕ) → AdminCall
    → Db
    → Result AdminReply
unfolding user_of require_admin admin_answer
admin_handle bcrypt jwt no_credentials newest by_departure latest token now c db = do
  user ← user_of bcrypt jwt no_credentials token now db
  _ ← require_admin user
  admin_answer newest by_departure latest c db

abbrev pub is_admin : User → Bool
is_admin user = eq_text user.role "admin"

abbrev pub is_start : Request → Bool
is_start (System.start _ _ _ _) = true
is_start _ = false

-- The rows of the administrators.
abbrev pub admins : Db → List User
admins db = select is_admin db.users

commit_or-admins :
    (result : Result (Booking × Db)) (db : Db)
    → ((r : Booking × Db) → result ≡ ok r → r.1.users ≡ db.users)
    → admins (commit_or result db) ≡ admins db
commit_or-admins (ok r) db same = ap (select is_admin) (same r refl)
commit_or-admins (err e) db same = refl

refund-admins :
    (result : Result (Booking × Option RefundResult × Db)) (db : Db)
    → ((r : Booking × Option RefundResult × Db) → result ≡ ok r → r.2.users ≡ db.users)
    → admins (commit_or (without_answer result) db) ≡ admins db
refund-admins (ok r) db same = ap (select is_admin) (same r refl)
refund-admins (err e) db same = refl

module _ (bcrypt : Bcrypt) (jwt : Jwt) where
  -- Who registers is no administrator.
  register-admins :
      (email password full_name : String) (phone : Option String) (salt : ℕ) (env : Env) (db : Db)
      (result : Result (TokenResponse jwt × Db))
      → register bcrypt jwt email password full_name phone salt env db ≡ result
      → admins (commit_or result db) ≡ admins db
  register-admins email password full_name phone salt env db (ok r) h =
      let c = register-Registered bcrypt jwt email password full_name phone salt env db h in
      rw c.result (
        select-append is_admin db.users (new_user email c.hash full_name phone env)
        ∙ append-nil (admins db))
  register-admins email password full_name phone salt env db (err e) h = refl

  serve-admins :
      (q : Request) (w : World)
      → IsValid w.db
      → is_start q ≡ false
      → admins (serve bcrypt jwt q w).db ≡ admins w.db
  unfolding serve
  serve-admins (System.start ids salts now tx_time) w v no_start = cc
  serve-admins (System.create u s k key env) w v no_start =
      commit_or-admins _ w.db (λ r e. create_booking-users u s k key env w.db r v e)
  serve-admins (System.pay b u key draw hex env) w v no_start =
      commit_or-admins _ w.db (λ r e. pay_booking-users b u key draw hex env w.db w.gateway r e)
  serve-admins (System.refund b u hex env) w v no_start =
      refund-admins _ w.db (λ r e. refund_booking-users b u hex env w.db r e)
  serve-admins (System.register email password full_name phone salt env) w v no_start =
      register-admins email password full_name phone salt env w.db _ refl
  serve-admins (System.configure config) w v no_start = refl
  serve-admins (System.cleanup now locked) w v no_start =
      ap (select is_admin) (cleanup_pass-users now locked w.db)

  run-admins :
      (qs : List Request) (w : World)
      → IsValid w.db
      → All (λ q. is_start q ≡ false) qs
      → admins (run bcrypt jwt qs w).db ≡ admins w.db
  unfolding run
  run-admins [] w v no_start = refl
  run-admins (q ∷ qs) w v no_start =
      run-admins qs (serve bcrypt jwt q w) (serve-IsValid bcrypt jwt q w v) no_start.1
      ∙ serve-admins q w v no_start.0

  -- An administrator whom a query by id finds is among the administrators.
  among_admins :
      (k : ℕ) (user : User) (users : List User)
      → select (λ u. u.id == k) users ≡ user ∷ []
      → is_admin user ≡ true
      → any_row (λ u. u.id == user.id) (select is_admin users) ≡ true
  among_admins k user [] one h = cc
  among_admins k user (u ∷ users) one h = elim (Bool-cases (u.id == k)) [
    | inl hit ↦ ground (arith, hit, ==_refl user.id)
    | inr miss ↦ ground (arith, miss, among_admins k user users)
  ]

  module _ (no_credentials : Error) (newest : NewestFirst) (by_departure : ByDeparture)
      (latest : LatestFirst) where
    -- After any bookings, payments, refunds, registrations, changes of the settings and cleanup passes
    -- from valid tables, a route of the administrators answers only a token of a user who was an
    -- administrator before them.
    pub only_admins_answered :
        (qs : List Request) (w : World) (token : Option jwt.Token) (now : ℕ) (c : AdminCall)
        {reply : AdminReply}
        → IsValid w.db
        → All (λ q. is_start q ≡ false) qs
        → let db = (run bcrypt jwt qs w).db in
          admin_handle bcrypt jwt no_credentials newest by_departure latest token now c db
            ≡ ok reply
          → (user : User) × (user_of bcrypt jwt no_credentials token now db ≡ ok user)
            × (any_row (λ u. u.id == user.id) (admins w.db) ≡ true)
    unfolding admin_handle require_admin user_of
    only_admins_answered qs w none now c v no_start h = cc
    only_admins_answered qs w (some token) now c v no_start h =
        let db = (run bcrypt jwt qs w).db in
        let (user, rest, signed) =
          await-eq-ok
            (λ (u : User). require_admin u >>= λ _. admin_answer newest by_departure latest c db)
            (get_current_user jwt now token db) h in
        let (k, one) = get_current_user-row jwt db token now user signed in
        (
          user,
          signed,
          subst (λ rows. any_row (λ (u : User). u.id == user.id) rows ≡ true)
              (run-admins qs w v no_start)
              (among_admins k user db.users one (ground (arith, rest))),
        )
