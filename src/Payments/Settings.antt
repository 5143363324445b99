-- ===== src/Payments/Settings.antt =====
-- `get_config` and `update_config` of backend/app/demo/router.py. A float of a request is counted
-- in units of 2^-1074, as the failure rate is, and may also be below zero, infinite or no number.
use railbook.Base.{ℕ, Bool, true, false, ◌||◌, Option, none, some, ltb, if◌then◌else◌}
use railbook.Base.Ints.{ℤ, pos, negsuc}
use railbook.Payments.{MockPaymentGateway, one}

-- `negative n` is -n units; -0.0 is `negative 0`.
pub data Float : Type 0 where
  positive negative : ℕ → Float
  infinity minus_infinity nan : Float

-- `x < y`
abbrev pub less : Float → Float → Bool
less (positive m) (positive n) = ltb m n
less (positive m) infinity = true
less (negative m) (positive n) = ltb 0 m || ltb 0 n
less (negative m) (negative n) = ltb n m
less (negative m) infinity = true
less minus_infinity (positive n) = true
less minus_infinity (negative n) = true
less minus_infinity infinity = true
less _ _ = false

-- Python's `min(a, b)` and `max(a, b)`: the first argument unless the second is less, or greater.
abbrev pub min : Float → Float → Float
min a b = if less b a then b else a

abbrev pub max : Float → Float → Float
max a b = if less a b then b else a

-- A rate between 0.0 and 1.0 as a number of units.
abbrev pub units : Float → ℕ
units (positive n) = n
units _ = 0

abbrev pub clamped_rate : Float → Float
clamped_rate rate = max (positive 0) (min (positive one) rate)

abbrev pub clamped_latency : ℤ → ℕ
clamped_latency (pos n) = n
clamped_latency (negsuc n) = 0

pub record ConfigUpdate : Type 0 where
  pub failure_rate : Option Float
  pub latency_ms : Option ℤ

abbrev pub set_rate : Option Float → MockPaymentGateway → MockPaymentGateway
set_rate none g = g
set_rate (some rate) g = record g { failure_rate = units (clamped_rate rate) }

abbrev pub set_latency : Option ℤ → MockPaymentGateway → MockPaymentGateway
set_latency none g = g
set_latency (some n) g = record g { latency_ms = clamped_latency n }

-- The route answers with the two settings of the gateway.
unfoldable pub update_config : ConfigUpdate → MockPaymentGateway → (ℕ × ℕ) × MockPaymentGateway
update_config config g =
    let g' = set_latency config.latency_ms (set_rate config.failure_rate g) in
    ((g'.failure_rate, g'.latency_ms), g')

unfoldable pub get_config : MockPaymentGateway → ℕ × ℕ
get_config g = (g.failure_rate, g.latency_ms)
