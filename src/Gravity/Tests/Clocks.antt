-- ===== src/Gravity/Tests/Clocks.antt =====
-- Runs of the timelocks, the cross-clock bridge and the stall tracker.
use pyrxd.Common.{
  ℕ, ◌+◌, ◌*◌, ◌≤◌, ◌<◌, ◌≡◌, ◌≢◌, refl, arith, true, List, [], ◌∷◌, none, some, ok, ◌>>=◌,
}
use pyrxd.Common.Ratio.{Ratio, IsPositive, whole, floor_over, ceil_times, ceil_div}
use pyrxd.Gravity.Timelock.{
  Timelock, blocks, seconds, to_blocks, sequence_locktime_mask, normalize_to, make_timelock,
}
use pyrxd.Gravity.Timelock.Normalize.{to_blocks_bounds}
use pyrxd.Gravity.CrossClock.{
  CrossClockMargin, total_s, max_rxd_csv_blocks, eth_absolute_to_rxd_relative_blocks,
  assert_covenant_confirms_before_eth_deadline,
}
use pyrxd.Gravity.CrossClock.Ordering.{
  eth_absolute_to_rxd_relative_blocks_fits, assert_covenant_confirms_before_eth_deadline_safe,
}
use pyrxd.Gravity.Finality.{
  CounterClaimFinality, not_yet_final_live, FinalityStallTracker, make_tracker, observe,
  without_depth,
}
use pyrxd.Gravity.Finality.Stall.{Sample, Frozen, after, observe-stalled, after-observe_declares}

abbrev day : Timelock
day = record { value = 86400; unit = seconds }

abbrev five_minutes : Ratio
five_minutes = whole 300

five_minutes_pos : IsPositive five_minutes
five_minutes_pos = omega arith

day_in_blocks : to_blocks five_minutes day ≡ ok 288
unfolding to_blocks normalize_to make_timelock floor_over
day_in_blocks = refl

to_blocks_bounds_example :
    (288 ≤ sequence_locktime_mask)
    × (day.unit ≡ blocks → 288 ≡ day.value)
    × (day.unit ≡ seconds
        → (288 * five_minutes.num ≤ day.value * five_minutes.den)
          × (day.value * five_minutes.den < 288 * five_minutes.num + five_minutes.num))
to_blocks_bounds_example =
    to_blocks_bounds five_minutes day 288 five_minutes_pos (omega arith) day_in_blocks

abbrev margin : CrossClockMargin
margin = record {
  eth_reorg_finality_s = 900;
  rxd_claim_burial_s = 1800;
  rxd_confirm_slack_s = 600;
  rounding_slack_s = 300;
  eth_finality_stall_tolerance_s = 400;
}

abbrev window : Timelock
window = record { value = 253; unit = blocks }

sized : eth_absolute_to_rxd_relative_blocks 100000 20000 margin five_minutes 12 ≡ ok window
unfolding eth_absolute_to_rxd_relative_blocks total_s make_timelock floor_over
sized = refl

eth_absolute_to_rxd_relative_blocks_fits_example :
    (window.unit ≡ blocks)
    × (12 ≤ window.value)
    × (window.value ≤ max_rxd_csv_blocks)
    × ((20000 + total_s margin) * five_minutes.den + window.value * five_minutes.num
        ≤ 100000 * five_minutes.den)
    × (100000 * five_minutes.den
        < (20000 + total_s margin) * five_minutes.den
          + window.value * five_minutes.num
          + five_minutes.num)
    × ((20000 + total_s margin) * five_minutes.den + window.value * five_minutes.num
          ≡ 100000 * five_minutes.den
        → assert_covenant_confirms_before_eth_deadline 20000 100000 margin window five_minutes 0
          ≢ ok tt)
eth_absolute_to_rxd_relative_blocks_fits_example =
    eth_absolute_to_rxd_relative_blocks_fits 100000 20000 margin five_minutes 12 window
      five_minutes_pos sized

confirms :
    assert_covenant_confirms_before_eth_deadline 18000 100000 margin window five_minutes 1500
    ≡ ok tt
unfolding assert_covenant_confirms_before_eth_deadline total_s ceil_times ceil_div
confirms = refl

assert_covenant_confirms_before_eth_deadline_safe_example :
    (window.unit ≡ blocks)
    × ((19000 + total_s margin) * five_minutes.den + window.value * five_minutes.num
        < 100000 * five_minutes.den)
assert_covenant_confirms_before_eth_deadline_safe_example =
    assert_covenant_confirms_before_eth_deadline_safe 18000 100000 margin window five_minutes 1500
      19000 five_minutes_pos confirms (omega arith)

abbrev fresh : FinalityStallTracker
fresh = record {
  patience_slots = 10;
  max_normal_lag_slots = 5;
  stuck_finalized = none;
  head_at_run_start = none;
}

abbrev stuck : FinalityStallTracker
stuck = record fresh { stuck_finalized = some 100; head_at_run_start = some 110 }

abbrev samples : List Sample
samples = (115, 100) ∷ (110, 100) ∷ (105, 90) ∷ []

fresh_made : make_tracker 10 5 ≡ ok fresh
unfolding make_tracker
fresh_made = refl

samples_seen : after fresh samples ≡ ok stuck
unfolding after observe
samples_seen = refl

stalled : observe stuck 120 100 ≡ ok (stuck, true)
unfolding observe
stalled = refl

observe-stalled_example : (h0 : ℕ) × Frozen 100 h0 samples × (h0 + 10 ≤ 120) × (100 + 5 < 120)
observe-stalled_example =
    observe-stalled 10 5 fresh stuck stuck samples 120 100 fresh_made samples_seen stalled

after-observe_declares_example :
    (after stuck ((115, 100) ∷ []) >>= λ t. observe t 121 100) ≡ ok (stuck, true)
after-observe_declares_example =
    after-observe_declares stuck 100 110 121 ((115, 100) ∷ []) refl refl (omega arith) (omega arith)
      (omega arith)

abbrev live : CounterClaimFinality
live = without_depth not_yet_final_live
