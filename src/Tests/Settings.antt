-- ===== src/Tests/Settings.antt =====
-- The theorem on the settings of the gateway at a concrete input: a rate that is no number.
use railbook.Base.{◌≡◌, ◌≤◌, refl, not, some, ◌||◌, arith}
use railbook.Models.{is_success}
use railbook.Payments.{payment_gateway, one, charge}
use railbook.Base.Ints.{negsuc}
use railbook.Payments.Settings.{positive, nan, less, update_config}
use railbook.Payments.Clamping.{is_nan, update_config-charge}

update_config-charge_example :
    let g' =
      (update_config
        (record { failure_rate = some nan; latency_ms = some (negsuc 4) })
        payment_gateway).1 in
    (is_success (charge 150000 600 7 "0badcafe" g').0.status
      ≡ not (less (positive 7) nan || is_nan nan))
    × (g'.failure_rate ≤ one)
    × (g'.processed ≡ payment_gateway.processed)
update_config-charge_example =
    update_config-charge nan (some (negsuc 4)) payment_gateway 150000 600 7 "0badcafe" refl
      (omega arith)
