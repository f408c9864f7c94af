-- ===== src/Gravity/Tests/Towers.antt =====
-- Runs of the swap record and of the watchtower's decisions.
use pyrxd.Common.{ℕ, ◌≡◌, ◌≢◌, refl, arith, true, false, none, some, ok}
use pyrxd.Common.Ratio.{ceil_div, ceil_over}
use pyrxd.Gravity.Machine.{SwapState, btc_locked, both_locked, is_terminal}
use pyrxd.Gravity.Timelock.{seconds, to_blocks, normalize_to, make_timelock}
use pyrxd.Gravity.Finality.{from_btc_depth}
use pyrxd.Gravity.Margin.{
  MarginPolicy, blocks_of, wait, assess_claim_finality, reserve_to_blocks, required_burial,
  value_scaled_burial_blocks, scaled_burial,
}
use pyrxd.Gravity.Record.{btc_locator, SwapRecord, check_locator, check_spk, make_record}
use pyrxd.Gravity.Record.Updates.{IsWellFormed}
use pyrxd.Gravity.Tests.Swaps.{btc_terms, btc_terms-IsValid}
use pyrxd.Gravity.Tests.Gates.{policy, policy_made}
use pyrxd.Gravity.Watch.Decide.{
  page_claim, page_refund, claim_safe, never_locked, claim_asset, refund_btc, Observations,
  Decision, page, decide, decide_at, decide_btc, btc_claim_race, claim_page,
  required_btc_depth_blocks, refund_opens_at, value_at_risk_photons, btc_silent, btc_locked_page,
  btc_refund_matured,
}
use pyrxd.Gravity.Watch.Decide.Sound.{IsClaimable, IsRefundable}
use pyrxd.Gravity.Watch.Decide.Safety.{decide_claims, decide_refunds}
use pyrxd.Gravity.Watch.Decide.Faithful.{IsFaithful}
use pyrxd.Gravity.Watch.Decide.Branches.{decide-IsFaithful}
use pyrxd.Gravity.Watch.Decide.Total.{decide_total, assess_claim_finality_diverges}

-- A locator is a number here, and its JSON form too.
abbrev pub swap : SwapState → SwapRecord ℕ ℕ
swap s = record {
  state = s;
  terms = btc_terms;
  counterchain_locator = btc_locator 7;
  radiant_covenant_outpoint = none;
  radiant_covenant_spk_hex = none;
}

swap_made : make_record (swap both_locked) ≡ ok (swap both_locked)
unfolding make_record check_locator check_spk
swap_made = refl

swap_formed : IsWellFormed (swap both_locked)
swap_formed = record { on_chain = refl; spk = unfold check_spk in refl }

abbrev pub seen : Observations
seen = record {
  maker_has_claimed_btc = true;
  now_rxd_height = 1010;
  asset_locked_at_height = some 1000;
  btc_claim_confirmations = some 3;
  btc_funding_confirmations = some 20;
  eth_claim_detected = false;
  eth_claim_finality = none;
  low_corroboration = false;
}

abbrev unseen : Observations
unseen = record seen {
  maker_has_claimed_btc = false;
  asset_locked_at_height = none;
  btc_funding_confirmations = some 150;
}

abbrev claiming : Decision
claiming = record (page page_claim claim_safe (some claim_asset) (some 1072) false) {
  autonomous_asset_claim = true;
}

abbrev refunding : Decision
refunding = record (page page_refund never_locked (some refund_btc) none false) {
  autonomous_btc_refund = true;
}

abbrev flat : MarginPolicy
flat = record policy { rxd_reorg_cost_per_block = none }

claims : decide (swap both_locked) seen flat 12 ≡ ok claiming
unfolding decide decide_at decide_btc btc_claim_race claim_page required_btc_depth_blocks
    refund_opens_at value_at_risk_photons blocks_of to_blocks normalize_to assess_claim_finality
    from_btc_depth required_burial reserve_to_blocks value_scaled_burial_blocks scaled_burial
    is_terminal
claims = refl

refunds : decide (swap btc_locked) unseen policy 12 ≡ ok refunding
unfolding decide decide_at decide_btc btc_silent btc_locked_page btc_refund_matured is_terminal
refunds = refl

decide_claims_example : (page_claim ≡ page_claim) × IsClaimable both_locked btc_terms seen flat
decide_claims_example = decide_claims (swap both_locked) seen flat 12 claiming claims refl

decide_refunds_example : (page_refund ≡ page_refund) × IsRefundable btc_locked btc_terms unseen
decide_refunds_example = decide_refunds (swap btc_locked) unseen policy 12 refunding refunds refl

both_locked_live : is_terminal both_locked ≡ false
unfolding is_terminal
both_locked_live = refl

decide-IsFaithful_example : IsFaithful both_locked btc_terms seen flat claiming
decide-IsFaithful_example =
    decide-IsFaithful (swap both_locked) seen flat 12 claiming both_locked_live btc_terms-IsValid
      claims

decide_total_example : (d : Decision) × (decide (swap both_locked) seen policy 12 ≡ ok d)
decide_total_example = decide_total (swap both_locked) seen policy 12 policy_made btc_terms-IsValid

-- Half an hour and a second: three blocks rounded down, four rounded up.
abbrev odd : MarginPolicy
odd = record policy { btc_claim_reorg_depth = record { value = 1801; unit = seconds } }

odd_depth : required_btc_depth_blocks odd ≡ ok 3
unfolding required_btc_depth_blocks blocks_of to_blocks normalize_to make_timelock
odd_depth = refl

odd_reserve : reserve_to_blocks odd.btc_claim_reorg_depth odd.block_interval_s ≡ 4
unfolding reserve_to_blocks ceil_over ceil_div
odd_reserve = refl

odd_apart : 3 ≢ reserve_to_blocks odd.btc_claim_reorg_depth odd.block_interval_s
odd_apart e = omega (arith, e, odd_reserve)

assess_claim_finality_diverges_example :
    assess_claim_finality (from_btc_depth 1 3) 1010 1000 btc_terms.t_rxd odd (some 900) ≢ ok wait
assess_claim_finality_diverges_example =
    assess_claim_finality_diverges odd 3 1 1010 1000 btc_terms.t_rxd (some 900) odd_depth odd_apart
