-- ===== src/Gravity/Coordinator/Setup.antt =====
-- src/pyrxd/gravity/swap_coordinator.py: what `SwapCoordinator.__init__` refuses, and how the maker-stall
-- window that it demands of an ETH swap goes with the reorg gate.
use pyrxd.Common.{
  ℕ, ◌+◌, ◌≤◌, ◌<◌, ◌≡◌, refl, arith, Bool, true, false, ◌&&◌, ◌||◌, not, ltb, Option, none, some,
  Result, ok, err, ◌>>◌, refuse, List, [], ◌∷◌, ok_value, Option-cases, inl, inr, if◌then◌else◌,
}
use pyrxd.Common.Ratio.{ceil_over}
use pyrxd.Gravity.Finality.{without_depth, not_yet_final_live, remaining_positive}
use pyrxd.Gravity.Margin.{
  MarginPolicy, blocks_of, reserve_to_blocks, required_burial, value_scaled_burial_blocks,
  counter_reserve_rxd, wait, assess_claim_finality, taker_refund_window_open,
}
use pyrxd.Gravity.Margin.Gate.{IsScalable, assess_claim_finality-wait_iff}
use pyrxd.Gravity.Terms.{NegotiatedTerms}
use pyrxd.Gravity.Coordinator.{CoordinatorConfig}
use pyrxd.Gravity.Coordinator.Parts.{is_btc}
use Prim.Native.String.{String}
use text.Mathlib.Text.{◌==◌ as str_eq}

pub data SetupError : Type 0 where
  nondurable_seen flat_burial value_understated estimated_margins window_missing : SetupError
  stall_window_too_small : SetupError

-- `AUDIT_CLEARED_NETWORKS`, and `_leg_is_value_bearing` on the tag of a leg.
abbrev cleared : List String
cleared = "bcrt" ∷ "regtest" ∷ "tb" ∷ "signet" ∷ "rltc" ∷ "tltc" ∷ []

abbrev listed : List String → String → Bool
listed [] s = false
listed (n ∷ ns) s = str_eq n s || listed ns s

unfoldable pub is_value_bearing : Option String → Bool
is_value_bearing none = false
is_value_bearing (some net) = not (str_eq net "") && not (listed cleared net)

abbrev is_none : Option ℕ → Bool
is_none none = true
is_none (some n) = false

abbrev is_below : Option ℕ → ℕ → Bool
is_below none n = false
is_below (some v) n = ltb v n

-- The least stall window of an ETH swap with a measured policy, plus one.
unfoldable pub stall_floor : MarginPolicy → ℕ → ℕ
stall_floor policy window =
    ceil_over window policy.rxd_block_interval_s
    + reserve_to_blocks policy.rxd_claim_burial policy.block_interval_s

unfoldable pub check_stall_window : CoordinatorConfig → Option ℕ → Result SetupError (Unit {0})
check_stall_window config none = err window_missing
check_stall_window config (some window) =
    refuse
      (config.margin_policy.is_measured
        && ltb (config.maker_stall_safety_window_blocks + 1)
            (stall_floor config.margin_policy window))
      stall_window_too_small

-- `SwapCoordinator.__init__`: the networks of the two legs, whether the store is durable, the terms.
unfoldable pub check_setup :
    CoordinatorConfig
    → Option String
    → Option String
    → Bool
    → NegotiatedTerms
    → Result SetupError (Unit {0})
unfolding check_stall_window
check_setup config counter_network radiant_network store_durable terms = do
  let policy = config.margin_policy
  let radiant_bearing = is_value_bearing radiant_network
  let value_bearing = is_value_bearing counter_network || radiant_bearing
  refuse (value_bearing && not store_durable && not config.accept_nondurable_seen) nondurable_seen
  refuse
      (radiant_bearing
        && not policy.accept_flat_burial
        && (is_none policy.rxd_reorg_cost_per_block || is_none policy.value_at_risk_photons))
      flat_burial
  refuse
      (radiant_bearing
        && str_eq terms.asset_variant "rxd"
        && is_below policy.value_at_risk_photons terms.radiant_amount)
      value_understated
  refuse
      (value_bearing
        && not (is_btc terms)
        && not policy.is_measured
        && not config.accept_estimated_eth_margins)
      estimated_margins
  if is_btc terms then ok tt else check_stall_window config policy.eth_finalization_window_s

module _ (config : CoordinatorConfig) (counter_network radiant_network : Option String)
    (store_durable : Bool) (terms : NegotiatedTerms) where
  stall-window :
      check_setup config counter_network radiant_network store_durable terms ≡ ok tt
      → is_btc terms ≡ false
      → check_stall_window config config.margin_policy.eth_finalization_window_s ≡ ok tt
  unfolding check_setup
  stall-window h eth = ground arith

  setup-window :
      check_setup config counter_network radiant_network store_durable terms ≡ ok tt
      → is_btc terms ≡ false
      → config.margin_policy.is_measured ≡ true
      → (window : ℕ) × (config.margin_policy.eth_finalization_window_s ≡ some window)
        × (stall_floor config.margin_policy window ≤ config.maker_stall_safety_window_blocks + 1)
  unfolding check_stall_window
  setup-window h eth measured =
      let g = stall-window h eth in
      elim (Option-cases config.margin_policy.eth_finalization_window_s) [
        | inl e ↦ ground arith
        | inr (window, e) ↦ (window, e, ground arith)
      ]

  -- The window is shut only before the last `N` blocks.
  before-window :
      (now lock : ℕ)
      → taker_refund_window_open now lock terms.t_rxd config.maker_stall_safety_window_blocks false
          config.margin_policy.block_interval_s
        ≡ ok false
      → (rxd : ℕ) × (blocks_of config.margin_policy terms.t_rxd ≡ ok rxd)
        × (now + config.maker_stall_safety_window_blocks < lock + rxd)
  unfolding taker_refund_window_open blocks_of
  before-window now lock shut =
      let (rxd, e) =
        ok_value (blocks_of config.margin_policy terms.t_rxd) (λ e bad. ground arith) in
      (rxd, e, ground arith)

  reserve-window :
      (window : ℕ)
      → config.margin_policy.eth_finalization_window_s ≡ some window
      → counter_reserve_rxd config.margin_policy (without_depth not_yet_final_live)
        ≡ ok (ceil_over window config.margin_policy.rxd_block_interval_s)
  unfolding counter_reserve_rxd
  reserve-window window e = rw e

  -- On an ETH swap with a measured policy that the constructor accepts, whose value-scaled burial is no
  -- more than the flat one: at every height from the lock on, before the maker-stall window opens, the
  -- gate answers WAIT on a live ETH claim, not SQUEEZED, where the value at risk is known if a reorg cost is
  -- configured.
  pub setup-waits :
      (now lock : ℕ)
      → check_setup config counter_network radiant_network store_durable terms ≡ ok tt
      → is_btc terms ≡ false
      → config.margin_policy.is_measured ≡ true
      → lock ≤ now
      → IsScalable (without_depth not_yet_final_live) now lock terms.t_rxd config.margin_policy none
      → value_scaled_burial_blocks config.margin_policy config.margin_policy.value_at_risk_photons
        ≤ reserve_to_blocks config.margin_policy.rxd_claim_burial
            config.margin_policy.block_interval_s
      → taker_refund_window_open now lock terms.t_rxd config.maker_stall_safety_window_blocks false
          config.margin_policy.block_interval_s
        ≡ ok false
      → assess_claim_finality
          (without_depth not_yet_final_live)
          now
          lock
          terms.t_rxd
          config.margin_policy
          none
        ≡ ok wait
  unfolding required_burial stall_floor remaining_positive
  setup-waits now lock h eth measured from scalable flat shut =
      let (window, there, room) = setup-window h eth measured in
      let (rxd, is, before) = before-window now lock shut in
      (assess_claim_finality-wait_iff (without_depth not_yet_final_live) now lock terms.t_rxd
          config.margin_policy none).1
        (
          refl,
          record {
            rxd = rxd;
            reserve = ceil_over window config.margin_policy.rxd_block_interval_s;
            rxd_blocks = is;
            reserve_blocks = reserve-window window there;
            not_before_lock = from;
            scalable = scalable;
            remaining = refl;
            fits = ground arith;
          },
        )
