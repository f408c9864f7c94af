-- ===== src/Gravity/Tests/Gates.antt =====
-- Runs of the margin policy and of the reorg-finality gate.
use pyrxd.Common.{ℕ, ◌+◌, ◌*◌, ◌≤◌, ◌≡◌, ◌↔◌, refl, arith, true, false, none, some, ok}
use pyrxd.Common.Ratio.{whole, ceil_div}
use pyrxd.Gravity.Timelock.{Timelock, blocks, to_blocks, normalize_to}
use pyrxd.Gravity.Finality.{CounterClaimFinality, final, from_btc_depth, remaining_positive}
use pyrxd.Gravity.Margin.{
  MarginPolicy, make_policy, blocks_of, safe, wait, value_scaled_burial_blocks, max_protected_value,
  scaled_burial, reserve_to_blocks, required_burial, counter_reserve_rxd, effective_value,
  depth_reserve, assess_claim_finality,
}
use pyrxd.Gravity.Margin.Gate.{
  HasRoom, assess_claim_finality-safe_iff, wait-then-safe, safe-covers_value,
}

abbrev in_blocks : ℕ → Timelock
in_blocks n = record { value = n; unit = blocks }

abbrev pub policy : MarginPolicy
policy = record {
  margin = in_blocks 36;
  block_interval_s = whole 600;
  is_measured = true;
  require_measured = true;
  rxd_block_interval_s = whole 300;
  btc_claim_reorg_depth = in_blocks 3;
  rxd_claim_burial = in_blocks 6;
  rxd_reorg_cost_per_block = some 100;
  value_at_risk_photons = none;
  burial_safety_factor = whole 2;
  accept_flat_burial = false;
  eth_finalization_window_s = some 900;
  cross_clock_margin = none;
  max_covenant_confirm_wait_s = none;
}

pub policy_made : make_policy policy ≡ ok policy
unfolding make_policy blocks_of to_blocks normalize_to
policy_made = refl

refund_in_blocks : to_blocks (whole 600) (in_blocks 72) ≡ ok 72
unfolding to_blocks normalize_to
refund_in_blocks = refl

protects : max_protected_value 18 100 (whole 2) ≡ ok 900
unfolding max_protected_value
protects = refl

abbrev claim : ℕ → CounterClaimFinality
claim confirmations = from_btc_depth confirmations 3

assess_claim_finality-safe_iff_example :
    (assess_claim_finality (claim 3) 1010 1000 (in_blocks 72) policy (some 900) ≡ ok safe)
    ↔ (((claim 3).state ≡ final) × HasRoom (claim 3) 1010 1000 (in_blocks 72) policy (some 900))
assess_claim_finality-safe_iff_example =
    assess_claim_finality-safe_iff (claim 3) 1010 1000 (in_blocks 72) policy (some 900)

claim_is_final : (claim 3).state ≡ final
unfolding from_btc_depth
claim_is_final = refl

claim_waits : assess_claim_finality (claim 1) 1010 1000 (in_blocks 72) policy (some 900) ≡ ok wait
unfolding assess_claim_finality from_btc_depth blocks_of to_blocks normalize_to counter_reserve_rxd
    reserve_to_blocks required_burial value_scaled_burial_blocks scaled_burial depth_reserve
    ceil_div remaining_positive
claim_waits = refl

claim_reserve : counter_reserve_rxd policy (claim 1) ≡ ok 6
unfolding from_btc_depth counter_reserve_rxd reserve_to_blocks depth_reserve ceil_div
claim_reserve = refl

wait-then-safe_example :
    assess_claim_finality (claim 3) 1016 1000 (in_blocks 72) policy (some 900) ≡ ok safe
wait-then-safe_example =
    wait-then-safe (claim 1) (claim 3) 1010 1016 1000 (in_blocks 72) policy (some 900) 6 claim_waits
      claim_reserve (omega arith) (omega arith) claim_is_final

claim_safe : assess_claim_finality (claim 3) 1016 1000 (in_blocks 72) policy (some 900) ≡ ok safe
unfolding assess_claim_finality from_btc_depth blocks_of to_blocks normalize_to reserve_to_blocks
    required_burial value_scaled_burial_blocks scaled_burial ceil_div
claim_safe = refl

converted : blocks_of policy (in_blocks 72) ≡ ok 72
unfolding blocks_of to_blocks normalize_to
converted = refl

safe-covers_value_example :
    (at_risk : ℕ) × (effective_value policy (some 900) ≡ some at_risk)
    × (blocks_left : ℕ) × (1016 + blocks_left ≡ 1000 + 72)
    × (at_risk * policy.burial_safety_factor.num
        ≤ blocks_left * 100 * policy.burial_safety_factor.den)
safe-covers_value_example =
    safe-covers_value (claim 3) 1016 1000 (in_blocks 72) policy (some 900) 100 72 refl (omega arith)
      (omega arith) converted claim_safe
