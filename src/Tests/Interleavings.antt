-- ===== src/Tests/Interleavings.antt =====
-- The theorems on interleaved payments at a concrete run: the reservation is being paid, it expires
-- before the gateway answers, and a pass of the cleanup comes before the commit.
use railbook.Base.{◌≡◌, refl, true, false, some, none, []}
use railbook.Base.Rows.{get_row}
use railbook.Models.{Payment, hours}
use railbook.Models.Constraints.{insert_audit, insert_payment}
use railbook.Audit.{log_audit}
use railbook.Models.{is_success}
use railbook.Payments.{PaymentResult, payment_gateway, lookup_processed, accepted, charge}
use railbook.Bookings.Cleanup.{release_all, cleanup_pass}
use railbook.Bookings.Pay.{payable, prepare, settle_success, mark_confirmed}
use railbook.Guarantees.Refunds.{PaidBy}
use railbook.Integrity.Attempts.{attempted_db}
use railbook.Interleavings.{
  Pending, State, begun, charged, committed, commit_payment, cleaned, Reach, here, next, begins,
  charges, commits, cleans,
}
use railbook.Interleavings.Held.{IsSafe, Reach-IsSafe}
use railbook.Interleavings.Backed.{IsSettled, confirmed_was_charged}
use railbook.Interleavings.Kept.{charge_is_kept}
use railbook.Tests.Crypto.{bcrypt, jwt}
use railbook.Tests.Data.{booked, booked-IsValid, reservation, paid, env_at}

abbrev quiet : State
quiet = record { world = record { db = booked; gateway = payment_gateway }; pending = [] }

abbrev paying : Pending
paying = record {
  booking = reservation;
  user_id = 1;
  key = 600;
  env = env_at 2 200;
  outcome = none;
}

abbrev answer : Pending
answer = record paying { outcome = some (accepted "0badcafe") }

-- Checked, charged, and a pass of the cleanup an hour later.
abbrev late : State
late = cleaned (hours 1) (λ _. false) (charged paying 7 "0badcafe" (begun paying quiet))

quiet-IsSafe : IsSafe quiet
quiet-IsSafe = record { valid = booked-IsValid; held = tt; apart = tt }

quiet-IsSettled : IsSettled quiet
quiet-IsSettled = record { payments = tt; pending = tt }

begins_paying : Reach bcrypt jwt quiet (begun paying quiet)
unfolding prepare payable log_audit insert_audit
begins_paying = next here (
    begins 100 1 600 (env_at 2 200) reservation (attempted_db reservation 1 (env_at 2 200) booked)
      refl refl refl)

reaches_late : Reach bcrypt jwt quiet late
reaches_late =
    next (next begins_paying (charges 100 7 "0badcafe" paying refl refl refl))
      (cleans (hours 1) (λ _. false) refl)

Reach-IsSafe_example : IsSafe late
Reach-IsSafe_example = Reach-IsSafe bcrypt jwt reaches_late quiet-IsSafe

-- The pass has left the reservation, and the payment confirms it.
charge_is_kept_example :
    get_row (λ b. b.id) 100 (committed answer (accepted "0badcafe") late).world.db.bookings
    ≡ some (mark_confirmed ((env_at 2 200).clock 1) reservation)
unfolding charge cleanup_pass release_all
charge_is_kept_example =
    charge_is_kept bcrypt jwt 100 answer (accepted "0badcafe") reaches_late quiet-IsSafe refl refl
      refl

-- After the commit.
abbrev done : State
done = committed answer (accepted "0badcafe") late

reaches_done : Reach bcrypt jwt quiet done
unfolding charge
reaches_done = next reaches_late (commits 100 answer (accepted "0badcafe") refl refl refl)

confirmed_was_charged_example :
    (x : Payment) × PaidBy paid.0 done.world.db x
    × ((result : PaymentResult) × (lookup_processed x.idempotency_key done.world.gateway.processed
          ≡ some result)
        × (is_success result.status ≡ true))
unfolding charge cleanup_pass release_all commit_payment settle_success insert_payment log_audit
    insert_audit
confirmed_was_charged_example =
    confirmed_was_charged bcrypt jwt 100 paid.0 reaches_done quiet-IsSafe quiet-IsSettled refl refl
