-- ===== src/Gravity/Margin.antt =====
-- src/pyrxd/gravity/swap_coordinator.py: the margin policy, the value-scaled burial, the maker-stall
-- window and the reorg-finality gate. Heights and amounts are natural numbers by their type; where the
-- source subtracts and compares, the model adds on the other side.
pub mod Burial
pub mod Policy
pub mod Gate
use pyrxd.Common.{
  ℕ, ◌+◌, ◌*◌, ◌/◌, ◌≤◌, ◌<◌, ◌≡◌, max, Bool, true, false, ◌&&◌, not, ltb, leb, ◌==◌, if◌then◌else◌,
  Option, none, some, Result, ok, err, ◌>>=◌, ◌>>◌, refuse, map_err,
}
use pyrxd.Common.Ratio.{Ratio, whole, ceil_div, ceil_over}
use pyrxd.Gravity.Timelock.{TimeUnit, blocks, seconds, Timelock, TimelockError, to_blocks}
use pyrxd.Gravity.CrossClock.{CrossClockMargin}
use pyrxd.Gravity.Finality.{
  CounterClaimState, final, not_yet_final_live, counter_chain_not_finalizing, CounterClaimFinality,
  remaining_positive,
}

-- `MarginPolicy`. Times per block and the safety factor are Python floats.
pub record MarginPolicy : Type 0 where
  pub margin : Timelock
  pub block_interval_s : Ratio
  pub is_measured : Bool
  pub require_measured : Bool
  pub rxd_block_interval_s : Ratio
  pub btc_claim_reorg_depth : Timelock
  pub rxd_claim_burial : Timelock
  pub rxd_reorg_cost_per_block : Option ℕ
  pub value_at_risk_photons : Option ℕ
  pub burial_safety_factor : Ratio
  pub accept_flat_burial : Bool
  pub eth_finalization_window_s : Option ℕ
  pub cross_clock_margin : Option CrossClockMargin
  pub max_covenant_confirm_wait_s : Option ℕ

pub data MarginError : Type 0 where
  interval_not_positive rxd_interval_not_positive reorg_depth_too_small : MarginError
  burial_too_small not_measured cost_not_positive value_not_positive : MarginError
  factor_below_one window_not_positive window_too_small : MarginError
  ordering_violated insufficient_margin : MarginError
  burial_not_positive now_below_lock depth_mismatch window_missing : MarginError
  timelock : TimelockError → MarginError

-- `_MIN_REORG_DEPTH_BLOCKS` and `_MIN_ETH_FINALIZATION_WINDOW_S`.
abbrev pub min_reorg_depth_blocks : ℕ
min_reorg_depth_blocks = 2

abbrev pub min_eth_finalization_window_s : ℕ
min_eth_finalization_window_s = 768

-- `t.normalize_to(TimeUnit.BLOCKS, block_interval_s=policy.block_interval_s).value`.
unfoldable pub blocks_of : MarginPolicy → Timelock → Result MarginError ℕ
blocks_of policy t = map_err timelock (to_blocks policy.block_interval_s t)

abbrev is_zero : Option ℕ → Bool
is_zero none = false
is_zero (some n) = n == 0

abbrev below : Option ℕ → ℕ → Bool
below none n = false
below (some m) n = ltb m n

-- `MarginPolicy.__post_init__`; the checks of types hold by the types.
unfoldable pub make_policy : MarginPolicy → Result MarginError MarginPolicy
make_policy p = do
  refuse (p.block_interval_s.num == 0) interval_not_positive
  refuse (p.rxd_block_interval_s.num == 0) rxd_interval_not_positive
  depth ← blocks_of p p.btc_claim_reorg_depth
  refuse (ltb depth min_reorg_depth_blocks) reorg_depth_too_small
  burial ← blocks_of p p.rxd_claim_burial
  refuse (ltb burial min_reorg_depth_blocks) burial_too_small
  refuse (p.require_measured && not p.is_measured) not_measured
  refuse (is_zero p.rxd_reorg_cost_per_block) cost_not_positive
  refuse (is_zero p.value_at_risk_photons) value_not_positive
  refuse (ltb p.burial_safety_factor.num p.burial_safety_factor.den) factor_below_one
  refuse (is_zero p.eth_finalization_window_s) window_not_positive
  refuse (below p.eth_finalization_window_s min_eth_finalization_window_s) window_too_small
  ok p

-- `assert_timelock_margin`.
unfoldable pub assert_timelock_margin :
    Timelock → Timelock → MarginPolicy → Result MarginError (Unit {0})
assert_timelock_margin t_btc t_rxd policy = do
  refuse (policy.require_measured && not policy.is_measured) not_measured
  btc_blocks ← blocks_of policy t_btc
  rxd_blocks ← blocks_of policy t_rxd
  margin_blocks ← blocks_of policy policy.margin
  refuse (leb btc_blocks rxd_blocks) ordering_violated
  refuse (ltb btc_blocks (rxd_blocks + margin_blocks)) insufficient_margin
  ok tt

-- `taker_refund_window_open`.
unfoldable pub taker_refund_window_open :
    ℕ → ℕ → Timelock → ℕ → Bool → Ratio → Result MarginError Bool
taker_refund_window_open now lock t_rxd safety_window maker_has_claimed interval =
    if maker_has_claimed then ok false else (do
      rxd_blocks ← map_err timelock (to_blocks interval t_rxd)
      ok (leb (lock + rxd_blocks) (now + safety_window)))

-- `ClaimFinality`.
pub data ClaimFinality : Type 0 where
  safe wait squeezed : ClaimFinality

-- `_value_scaled_burial_blocks`: the least burial whose reorg costs the value times the factor.
unfoldable pub scaled_burial : Option ℕ → Option ℕ → Ratio → ℕ
scaled_burial none value factor = 0
scaled_burial (some cost) none factor = 0
scaled_burial (some cost) (some value) factor = ceil_div (value * factor.num) (factor.den * cost)

unfoldable pub value_scaled_burial_blocks : MarginPolicy → Option ℕ → ℕ
unfolding scaled_burial
value_scaled_burial_blocks policy value =
    scaled_burial policy.rxd_reorg_cost_per_block value policy.burial_safety_factor

-- `max_protected_value`.
unfoldable pub max_protected_value : ℕ → ℕ → Ratio → Result MarginError ℕ
max_protected_value burial cost factor = do
  refuse (burial == 0) burial_not_positive
  refuse (cost == 0) cost_not_positive
  refuse (ltb factor.num factor.den) factor_below_one
  ok (burial * cost * factor.den / factor.num)

-- `_reserve_to_blocks`.
reserve_at : TimeUnit → ℕ → Ratio → ℕ
reserve_at blocks value interval = value
reserve_at seconds value interval = ceil_over value interval

unfoldable pub reserve_to_blocks : Timelock → Ratio → ℕ
unfolding reserve_at
reserve_to_blocks reserve interval = reserve_at reserve.unit reserve.value interval

abbrev pub or_else : Option ℕ → Option ℕ → Option ℕ
or_else none other = other
or_else (some v) other = some v

abbrev is_some : Option ℕ → Bool
is_some none = false
is_some (some v) = true

-- `effective_value` and `rxd_burial` of `assess_claim_finality`.
abbrev pub effective_value : MarginPolicy → Option ℕ → Option ℕ
effective_value policy value = or_else value policy.value_at_risk_photons

unfoldable pub required_burial : MarginPolicy → Option ℕ → ℕ
required_burial policy value =
    max (reserve_to_blocks policy.rxd_claim_burial policy.block_interval_s)
      (value_scaled_burial_blocks policy (effective_value policy value))

-- `counter_reserve_rxd` of `assess_claim_finality`: the RXD blocks that the counter leg still needs.
-- A depth is in counter-chain blocks, an ETH window in seconds; both are rounded up.
unfoldable pub depth_reserve : MarginPolicy → ℕ → ℕ
depth_reserve policy depth =
    ceil_div (depth * (policy.block_interval_s.num * policy.rxd_block_interval_s.den))
      (policy.block_interval_s.den * policy.rxd_block_interval_s.num)

window_reserve : MarginPolicy → Option ℕ → Result MarginError ℕ
window_reserve policy none = err window_missing
window_reserve policy (some window) = ok (ceil_over window policy.rxd_block_interval_s)

reserve_at_depth : MarginPolicy → Option ℕ → ℕ → Result MarginError ℕ
reserve_at_depth policy none policy_depth = window_reserve policy policy.eth_finalization_window_s
reserve_at_depth policy (some depth) policy_depth = do
  refuse (not (depth == policy_depth)) depth_mismatch
  ok (depth_reserve policy policy_depth)

unfoldable pub counter_reserve_rxd : MarginPolicy → CounterClaimFinality → Result MarginError ℕ
unfolding reserve_at_depth window_reserve
counter_reserve_rxd policy verdict =
    reserve_at_depth policy verdict.required_depth
      (reserve_to_blocks policy.btc_claim_reorg_depth policy.block_interval_s)

-- The three cases of `assess_claim_finality` on the verdict, from `blocks_left` on.
judge :
    CounterClaimState
    → CounterClaimFinality
    → MarginPolicy
    → ℕ
    → ℕ
    → ℕ
    → Result MarginError ClaimFinality
judge counter_chain_not_finalizing v policy now refund_opens_at burial = ok squeezed
judge final v policy now refund_opens_at burial =
    ok (if leb (now + burial) refund_opens_at then safe else squeezed)
judge not_yet_final_live v policy now refund_opens_at burial = do
  reserve ← counter_reserve_rxd policy v
  ok (
      if leb (now + reserve + burial) refund_opens_at && remaining_positive v
      then wait
      else squeezed)

-- `assess_claim_finality`.
unfoldable pub assess_claim_finality :
    CounterClaimFinality
    → ℕ
    → ℕ
    → Timelock
    → MarginPolicy
    → Option ℕ
    → Result MarginError ClaimFinality
unfolding judge
assess_claim_finality v now lock t_rxd policy value = do
  refuse (ltb now lock) now_below_lock
  rxd_blocks ← blocks_of policy t_rxd
  if is_some policy.rxd_reorg_cost_per_block && not (is_some (effective_value policy value))
      then ok squeezed
      else judge v.state v policy now (lock + rxd_blocks) (required_burial policy value)
