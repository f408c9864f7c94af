-- ===== src/Gravity/Tests/Setups.antt =====
-- The constructor of the coordinator on an ether swap, and the gate before its maker-stall window.
use pyrxd.Common.{◌≤◌, ◌≡◌, refl, arith, true, false, none, some, ok}
use pyrxd.Common.Ratio.{ceil_div, ceil_over}
use pyrxd.Gravity.Timelock.{to_blocks, normalize_to}
use pyrxd.Gravity.Finality.{without_depth, not_yet_final_live}
use pyrxd.Gravity.Margin.{
  reserve_to_blocks, value_scaled_burial_blocks, taker_refund_window_open, assess_claim_finality,
  wait, scaled_burial,
}
use pyrxd.Gravity.Tests.Swaps.{eth_terms}
use pyrxd.Gravity.Tests.Gates.{policy}
use pyrxd.Gravity.Coordinator.{CoordinatorConfig}
use pyrxd.Gravity.Coordinator.Setup.{
  check_setup, setup-waits, check_stall_window, stall_floor, is_value_bearing,
}
use pyrxd.Gravity.Tests.Coordinators.{config}

-- A measured policy and an ether swap of value, as the constructor accepts them.
abbrev eth_config : CoordinatorConfig
eth_config = record config {
  margin_policy = record policy {
    rxd_reorg_cost_per_block = some 1000;
    value_at_risk_photons = some 900;
  };
}

setup_accepts : check_setup eth_config (some "mainnet") (some "mainnet") true eth_terms ≡ ok tt
unfolding check_setup check_stall_window stall_floor is_value_bearing ceil_over ceil_div
    reserve_to_blocks
setup_accepts = refl

refund_shut :
    taker_refund_window_open 1040 1000 eth_terms.t_rxd eth_config.maker_stall_safety_window_blocks
      false eth_config.margin_policy.block_interval_s
    ≡ ok false
unfolding taker_refund_window_open to_blocks normalize_to
refund_shut = refl

flat_suffices :
    value_scaled_burial_blocks eth_config.margin_policy
      eth_config.margin_policy.value_at_risk_photons
    ≤ reserve_to_blocks eth_config.margin_policy.rxd_claim_burial
        eth_config.margin_policy.block_interval_s
unfolding value_scaled_burial_blocks reserve_to_blocks scaled_burial ceil_div
flat_suffices = omega arith

setup-waits_example :
    assess_claim_finality
      (without_depth not_yet_final_live)
      1040
      1000
      eth_terms.t_rxd
      eth_config.margin_policy
      none
    ≡ ok wait
setup-waits_example =
    setup-waits eth_config (some "mainnet") (some "mainnet") true eth_terms 1040 1000 setup_accepts
      refl refl (omega arith) (λ cost e h. cc h) flat_suffices refund_shut
