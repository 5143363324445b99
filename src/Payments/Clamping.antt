-- ===== src/Payments/Clamping.antt =====
-- The settings of the gateway, and the charges after them.
use railbook.Base.{
  ℕ, ◌≡◌, ◌≤◌, ◌<◌, String, Bool, true, false, not, ◌||◌, Option, none, some, arith,
}
use railbook.Models.{is_success}
use railbook.Payments.{MockPaymentGateway, one, lookup_processed, charge}
use railbook.Base.Ints.{ℤ}
use railbook.Payments.Settings.{
  Float, positive, negative, infinity, minus_infinity, nan, less, update_config,
}

abbrev pub is_nan : Float → Bool
is_nan nan = true
is_nan _ = false

-- The clamping never shows in a charge: after the failure rate was set to any value, a new charge is
-- declined exactly where its draw, which is below 1.0, is below that value, or where it is no number.
-- The rate that is kept lies between 0.0 and 1.0.
pub update_config-charge :
    (rate : Float) (latency : Option ℤ) (g : MockPaymentGateway) (amount key draw : ℕ)
    (hex : String)
    → lookup_processed key g.processed ≡ none
    → draw < one
    → let g' = (update_config (record { failure_rate = some rate; latency_ms = latency }) g).1 in
      (is_success (charge amount key draw hex g').0.status
        ≡ not (less (positive draw) rate || is_nan rate))
      × (g'.failure_rate ≤ one)
      × (g'.processed ≡ g.processed)
unfolding update_config charge
update_config-charge (positive n) latency g amount key draw hex new below = ground (arith, below)
update_config-charge (negative n) latency g amount key draw hex new below = ground (arith, below)
update_config-charge infinity latency g amount key draw hex new below = ground (arith, below)
update_config-charge minus_infinity latency g amount key draw hex new below = ground (arith, below)
update_config-charge nan latency g amount key draw hex new below = ground (arith, below)
