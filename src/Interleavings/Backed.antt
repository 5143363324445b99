-- ===== src/Interleavings/Backed.antt =====
-- Every payment in the table has its answer at the gateway, in every reachable state.
use railbook.Base.{ℕ, ◌≡◌, refl, ◌∙◌, true, some, [], ◌∷◌, ◌++◌, arith, subst, String}
use railbook.Base.Outcome.{Result, ok, err}
use railbook.Base.Rows.{get_row, All}
use railbook.Base.Rows.Laws.{
  All-map, All-zip, All-get, All-append, All-update, AllPairs-map, get_row_unique, get_self,
}
use railbook.Base.Rows.Selects.{All_select, All-select}
use railbook.Models.{Status, PaymentStatus, is_success, Booking, Payment, Db}
use railbook.Payments.{PaymentResult, MockPaymentGateway, lookup_processed, charge}
use railbook.Payments.Settings.{ConfigUpdate, update_config}
use railbook.Bookings.Pay.{settle}
use railbook.Bookings.Refund.{is_charge_of}
use railbook.Auth.{Bcrypt, Jwt}
use railbook.Integrity.Pays.{success_row, failed_row, settle_success-eq-ok, settle_failure-eq-ok}
use railbook.Guarantees.Refunds.{PaidBy, confirmed-PaidBy}
use railbook.System
use railbook.System.{World, Request, commit_or, serve}
use railbook.Interleavings.{
  Pending, State, booking_id, answered, commit_payment, is_one_step, charged, released, committed,
  Transition, begins, charges, commits, aborts, cleans, serves, Reach, here, next,
}
use railbook.Interleavings.Rows.{serve-Leaves, cleanup_pass-payments}
use railbook.Interleavings.Held.{IsSafe, inside, commit_settles, Reach-IsSafe}

-- The gateway remembers an answer with the same outcome under the key of the payment.
pub record IsBacked (g : MockPaymentGateway) (x : Payment) : Type 0 where
  pub result : PaymentResult
  pub remembered : lookup_processed x.idempotency_key g.processed ≡ some result
  pub outcome : is_success x.status ≡ is_success result.status

-- What the gateway has answered a payment that has not committed, it remembers.
abbrev pub IsAnswered : MockPaymentGateway → Pending → Type 0
IsAnswered g p =
    (result : PaymentResult)
    → p.outcome ≡ some result
    → lookup_processed p.key g.processed ≡ some result

pub record IsSettled (s : State) : Type 0 where
  pub payments : All (IsBacked s.world.gateway) s.world.db.payments
  pub pending : All (IsAnswered s.world.gateway) s.pending

-- The gateway forgets nothing.
abbrev Remembers : MockPaymentGateway → MockPaymentGateway → Type 0
Remembers g g' =
    (k : ℕ) (r : PaymentResult)
    → lookup_processed k g.processed ≡ some r
    → lookup_processed k g'.processed ≡ some r

Remembers-IsBacked :
    (g g' : MockPaymentGateway) → Remembers g g' → (x : Payment) → IsBacked g x → IsBacked g' x
Remembers-IsBacked g g' m x b = record {
  result = b.result;
  remembered = m x.idempotency_key b.result b.remembered;
  outcome = b.outcome;
}

module _ (amount key draw : ℕ) (hex : String) (g : MockPaymentGateway) where
  charge-Remembers : Remembers g (charge amount key draw hex g).1
  unfolding charge
  charge-Remembers k r h = ground arith

  charge_answers :
      lookup_processed key (charge amount key draw hex g).1.processed
      ≡ some (charge amount key draw hex g).0
  unfolding charge
  charge_answers = ground arith

-- The row that a settled payment adds.
settle_adds :
    (st : PaymentStatus) (p : Pending) (result : PaymentResult) (db : Db) {r : Booking × Db}
    → settle st p.booking p.user_id p.key result p.env db ≡ ok r
    → (x : Payment) × (r.1.payments ≡ db.payments ++ x ∷ [])
      × (x.idempotency_key ≡ p.key)
      × (is_success x.status ≡ is_success st)
settle_adds PaymentStatus.success p result db h =
    let e = (settle_success-eq-ok p.booking p.user_id p.key result p.env db h).1 in
    (success_row p.booking p.key result p.env, rw e refl, refl, refl)
settle_adds PaymentStatus.failed p result db h =
    let e = (settle_failure-eq-ok p.booking p.user_id p.key result p.env db h).1 in
    (failed_row p.booking p.key result p.env, rw e refl, refl, refl)
settle_adds PaymentStatus.pending p result db h =
    let e = (settle_failure-eq-ok p.booking p.user_id p.key result p.env db h).1 in
    (failed_row p.booking p.key result p.env, rw e refl, refl, refl)

configured :
    (config : ConfigUpdate) (g : MockPaymentGateway)
    → (update_config config g).1.processed ≡ g.processed
unfolding update_config
configured config g = ground arith

module _ (s : State) (i : IsSafe s) (z : IsSettled s) where
  charged-IsSettled :
      (p : Pending) (draw : ℕ) (hex : String)
      → get_row booking_id p.booking.id s.pending ≡ some p
      → IsSettled (charged p draw hex s)
  charged-IsSettled p draw hex found =
      let g = s.world.gateway in
      let remembers = charge-Remembers p.booking.total_amount p.key draw hex g in
      let is_p =
        get_row_unique booking_id p.booking.id s.pending
          (AllPairs-map _ _ (λ x y h. ground arith) s.pending i.apart) found in
      record {
        payments = All-map _ _ (Remembers-IsBacked g _ remembers) s.world.db.payments z.payments;
        pending =
            All-update booking_id p.booking.id (answered _)
              (λ q. IsAnswered g q × (booking_id q ≡ p.booking.id → q ≡ p))
              (IsAnswered (charge p.booking.total_amount p.key draw hex g).1)
              (λ q _ h r o. remembers q.key r (h.0 r o))
              (λ q e h r o. rw (h.1 e) (charge_answers p.booking.total_amount p.key draw hex g ∙ o))
              s.pending (All-zip _ _ s.pending z.pending is_p);
      }

  committed-IsSettled :
      (p : Pending) (result : PaymentResult)
      → lookup_processed p.key s.world.gateway.processed ≡ some result
      → IsSettled (committed p result s)
  committed-IsSettled p result known = go (commit_payment p result s.world.db) refl
    where
      rest : All (IsAnswered s.world.gateway) (released p s).pending
      rest = All_select _ _ s.pending z.pending

      go :
          (r : Result (Booking × Db))
          → commit_payment p result s.world.db ≡ r
          → IsSettled
              (record (released p s) { world = record s.world { db = commit_or r s.world.db } })
      go (err _) e = record { payments = z.payments; pending = rest }
      go (ok r) e =
          let (x, added, key, outcome) =
            settle_adds result.status p result (inside p result s.world.db)
              (commit_settles p result s.world.db e) in
          record {
            payments = rw added (
                All-append _ s.world.db.payments x z.payments
                  (record { result = result; remembered = rw key known; outcome = outcome }));
            pending = rest;
          }

module _ (bcrypt : Bcrypt) (jwt : Jwt) where
  serve-Remembers :
      (q : Request) (w : World)
      → is_one_step q ≡ true
      → Remembers w.gateway (serve bcrypt jwt q w).gateway
  unfolding serve update_config
  serve-Remembers (System.start ids salts now tx_time) w one k r h = h
  serve-Remembers (System.create u s t key env) w one k r h = h
  serve-Remembers (System.refund b u hex env) w one k r h = h
  serve-Remembers (System.register email password full_name phone salt env) w one k r h = h
  serve-Remembers (System.configure config) w one k r h = rw (configured config w.gateway) h
  serve-Remembers (System.pay b u key draw hex env) w one k r h = absurd (cc one)
  serve-Remembers (System.cleanup now locked) w one k r h = absurd (cc one)

  Transition-IsSettled :
      {s t : State} → Transition bcrypt jwt s t → IsSafe s → IsSettled s → IsSettled t
  Transition-IsSettled (begins id user_id key env b db₁ free prep e) i z =
      rw e (record { payments = z.payments; pending = (λ r h. cc, z.pending) })
  Transition-IsSettled {s} (charges k draw hex p found fresh e) i z =
      rw e (charged-IsSettled s i z p draw hex (get_self booking_id k s.pending found))
  Transition-IsSettled {s} (commits k p result found ends e) i z = rw e (
      committed-IsSettled s i z p result
        (All-get booking_id k (IsAnswered s.world.gateway) s.pending z.pending found result ends))
  Transition-IsSettled {s} (aborts k p found e) i z =
      rw e (record { payments = z.payments; pending = All_select _ _ s.pending z.pending })
  Transition-IsSettled {s} (cleans now others e) i z = rw e (record {
    payments = rw (cleanup_pass-payments now _ s.world.db) z.payments;
    pending = z.pending;
  })
  Transition-IsSettled {s} (serves q one e) i z =
      let remembers = serve-Remembers q s.world one in
      rw e (record {
        payments = rw (serve-Leaves bcrypt jwt q s.world i.valid one).payments (
            All-map _ _ (Remembers-IsBacked s.world.gateway _ remembers) s.world.db.payments
              z.payments);
        pending =
            All-map (IsAnswered s.world.gateway) _
              (λ p h r outcome. remembers p.key r (h r outcome)) s.pending z.pending;
      })

  Reach-IsSettled : {s t : State} → Reach bcrypt jwt s t → IsSafe s → IsSettled s → IsSettled t
  Reach-IsSettled here i z = z
  Reach-IsSettled (next r st) i z =
      Transition-IsSettled st (Reach-IsSafe bcrypt jwt r i) (Reach-IsSettled r i z)

  -- Whatever runs in between, a booking is confirmed only where the gateway has answered a payment of
  -- it with a success: in every state that is reached from a safe state whose payments are backed, each
  -- confirmed booking has one successful payment, over its amount, and the gateway remembers the
  -- successful charge under the key of that payment.
  pub confirmed_was_charged :
      {s t : State} (k : ℕ) (b : Booking)
      → Reach bcrypt jwt s t
      → IsSafe s
      → IsSettled s
      → get_row (λ x. x.id) k t.world.db.bookings ≡ some b
      → b.status ≡ Status.confirmed
      → (x : Payment) × PaidBy b t.world.db x
        × ((result : PaymentResult) × (lookup_processed x.idempotency_key t.world.gateway.processed
              ≡ some result)
            × (is_success result.status ≡ true))
  confirmed_was_charged {t = t} k b r i z found is_confirmed =
      let (x, paid) =
        confirmed-PaidBy k t.world.db b (Reach-IsSafe bcrypt jwt r i).valid found is_confirmed in
      let (hit, backed) =
        (subst (All (λ y. (is_charge_of b.id y ≡ true) × IsBacked t.world.gateway y)) paid.only (
          All-select (is_charge_of b.id) _ t.world.db.payments
            (Reach-IsSettled r i z).payments)).0 in
      (x, paid, (backed.result, backed.remembered, ground (arith, hit, backed.outcome)))
