-- ===== src/Payments/Gateway.antt =====
-- What the mock gateway promises of a charge.
use railbook.Base.{ℕ, ◌≡◌, String, some, List, [], ◌∷◌, arith}
use railbook.Payments.{PaymentResult, MockPaymentGateway, lookup_processed, charge}

-- A charge to come: its amount, key, random draw and the digits of its reference.
pub record Charge : Type 0 where
  pub amount : ℕ
  pub key : ℕ
  pub draw : ℕ
  pub hex : String

abbrev pub charge_one : Charge → MockPaymentGateway → PaymentResult × MockPaymentGateway
charge_one c g = charge c.amount c.key c.draw c.hex g

-- The gateway after a sequence of charges.
pub charges_after : List Charge → MockPaymentGateway → MockPaymentGateway
charges_after [] g = g
charges_after (c ∷ cs) g = charges_after cs (charge_one c g).1

lookup_charge :
    (c : Charge) (g : MockPaymentGateway)
    → lookup_processed c.key (charge_one c g).1.processed ≡ some (charge_one c g).0
unfolding charge
lookup_charge c g = ground arith

lookup_other :
    (c : Charge) (g : MockPaymentGateway) (k : ℕ) (r : PaymentResult)
    → lookup_processed k g.processed ≡ some r
    → lookup_processed k (charge_one c g).1.processed ≡ some r
unfolding charge
lookup_other c g k r h = ground arith

lookup_charges :
    (cs : List Charge) (g : MockPaymentGateway) (k : ℕ) (r : PaymentResult)
    → lookup_processed k g.processed ≡ some r
    → lookup_processed k (charges_after cs g).processed ≡ some r
unfolding charges_after
lookup_charges [] g k r h = h
lookup_charges (c ∷ cs) g k r h = lookup_charges cs (charge_one c g).1 k r (lookup_other c g k r h)

repeat_charge :
    (c : Charge) (g : MockPaymentGateway) (r : PaymentResult)
    → lookup_processed c.key g.processed ≡ some r
    → charge_one c g ≡ (r, g)
unfolding charge
repeat_charge c g r h = ground arith

-- A charge is made once for each key: whatever other charges come between, a charge with the same
-- key, of any amount and with any draw, has the answer of the first and changes nothing.
pub charge_once :
    (c : Charge) (g : MockPaymentGateway) (between : List Charge) (again : Charge)
    → again.key ≡ c.key
    → let later = charges_after between (charge_one c g).1 in
      charge_one again later ≡ ((charge_one c g).0, later)
charge_once c g between again same =
    repeat_charge again (charges_after between (charge_one c g).1) (charge_one c g).0 (
      rw same
        (lookup_charges between (charge_one c g).1 c.key (charge_one c g).0 (lookup_charge c g)))
