-- ===== src/Payments.antt =====
-- backend/app/payments/gateway.py: the mock gateway and the charges that it has processed.
-- A float is counted in units of 2^-1074, of which every finite non-negative float is a whole
-- number, so the comparison with the failure rate is exact. The value of `random.random()` and the
-- digits of a generated UUID are arguments. The simulated latency delays the answer and changes
-- nothing else.
pub mod Gateway
pub mod Settings
pub mod Clamping
use railbook.Base.{
  ℕ, ◌*◌, ◌^◌, String, Bool, Option, none, some, List, [], ◌∷◌, ◌==◌, ltb, if◌then◌else◌,
}
use Prim.Native.String.{◌++◌}
use railbook.Models.{PaymentStatus, success, failed}

pub record PaymentResult : Type 0 where
  pub status : PaymentStatus
  pub gateway_ref : Option String
  pub failure_reason : Option String

pub record RefundResult : Type 0 where
  pub status : PaymentStatus
  pub refund_ref : Option String

-- `processed` is the dict `_processed`.
pub record MockPaymentGateway : Type 0 where
  pub failure_rate : ℕ
  pub latency_ms : ℕ
  pub processed : List (ℕ × PaymentResult)

-- 1.0
abbrev pub one : ℕ
one = 2 ^ 1074

-- The module's singleton, `MockPaymentGateway()`.
abbrev pub payment_gateway : MockPaymentGateway
payment_gateway = record { failure_rate = 0; latency_ms = 500; processed = [] }

abbrev pub lookup_processed : ℕ → List (ℕ × PaymentResult) → Option PaymentResult
lookup_processed k [] = none
lookup_processed k ((j, r) ∷ rest) = if j == k then some r else lookup_processed k rest

abbrev pub declined : PaymentResult
declined = record {
  status = failed;
  gateway_ref = none;
  failure_reason = some "Card declined (simulated)";
}

abbrev pub accepted : String → PaymentResult
accepted hex = record {
  status = success;
  gateway_ref = some ("MOCK-" ++ hex);
  failure_reason = none;
}

-- `draw` is `random.random()`, `hex` the first eight digits of a new UUID.
unfoldable pub charge :
    (amount idempotency_key draw : ℕ) (hex : String)
    → MockPaymentGateway
    → PaymentResult × MockPaymentGateway
charge amount idempotency_key draw hex g = elim (lookup_processed idempotency_key g.processed) [
  | some result ↦ (result, g)
  | none ↦
      let result = if ltb draw g.failure_rate then declined else accepted hex in
      (result, record g { processed = (idempotency_key, result) ∷ g.processed })
]

unfoldable pub refund : (gateway_ref : Option String) (hex : String) → RefundResult
refund gateway_ref hex = record { status = success; refund_ref = some ("REFUND-" ++ hex) }
