-- ===== src/Gravity/CrossClock.antt =====
-- src/pyrxd/gravity/eth_rxd_timelock.py: from an absolute ETH deadline, in seconds, to a relative RXD
-- window, in blocks. Times are integers from the epoch on, so they are natural numbers; where the
-- source subtracts and compares, the model adds on the other side.
pub mod Ordering
use pyrxd.Common.{
  ℕ, ◌+◌, ◌-◌, ◌*◌, ◌≤◌, ◌<◌, ◌≡◌, Bool, true, false, not, ltb, leb, ◌==◌, Result, ok, err, ◌>>=◌,
  ◌>>◌, refuse, map_err,
}
use pyrxd.Common.Ratio.{Ratio, floor_over, ceil_times}
use pyrxd.Gravity.Timelock.{
  TimeUnit, blocks, seconds, Timelock, TimelockError, make_timelock, sequence_locktime_mask,
}

-- `CrossClockMargin`; each budget is an integer of seconds and not negative by its type.
pub record CrossClockMargin : Type 0 where
  pub eth_reorg_finality_s : ℕ
  pub rxd_claim_burial_s : ℕ
  pub rxd_confirm_slack_s : ℕ
  pub rounding_slack_s : ℕ
  pub eth_finality_stall_tolerance_s : ℕ

-- `CrossClockMargin.total_s`.
unfoldable pub total_s : CrossClockMargin → ℕ
total_s m =
    m.eth_reorg_finality_s + m.rxd_claim_burial_s + m.rxd_confirm_slack_s + m.rounding_slack_s
    + m.eth_finality_stall_tolerance_s

pub data CrossClockError : Type 0 where
  floor_not_positive interval_not_positive no_budget below_floor beyond_cap : CrossClockError
  not_blocks confirms_too_late : CrossClockError
  timelock : TimelockError → CrossClockError

-- `_MAX_RXD_CSV_BLOCKS`.
abbrev pub max_rxd_csv_blocks : ℕ
max_rxd_csv_blocks = 0xffff

-- `eth_absolute_to_rxd_relative_blocks`.
unfoldable pub eth_absolute_to_rxd_relative_blocks :
    ℕ → ℕ → CrossClockMargin → Ratio → ℕ → Result CrossClockError Timelock
unfolding make_timelock
eth_absolute_to_rxd_relative_blocks eth_timeout lock_time margin interval floor_blocks = do
  refuse (ltb floor_blocks 1) floor_not_positive
  refuse (interval.num == 0) interval_not_positive
  refuse (leb eth_timeout (total_s margin + lock_time)) no_budget
  let t_rxd_blocks = floor_over (eth_timeout - total_s margin - lock_time) interval
  refuse (ltb t_rxd_blocks floor_blocks) below_floor
  refuse (ltb max_rxd_csv_blocks t_rxd_blocks) beyond_cap
  map_err timelock (make_timelock t_rxd_blocks blocks)

abbrev is_blocks : TimeUnit → Bool
is_blocks blocks = true
is_blocks seconds = false

-- `assert_covenant_confirms_before_eth_deadline`.
unfoldable pub assert_covenant_confirms_before_eth_deadline :
    ℕ → ℕ → CrossClockMargin → Timelock → Ratio → ℕ → Result CrossClockError (Unit {0})
assert_covenant_confirms_before_eth_deadline now eth_timeout margin t_rxd interval max_wait = do
  refuse (not (is_blocks t_rxd.unit)) not_blocks
  refuse (interval.num == 0) interval_not_positive
  let projected_rxd_open = now + max_wait + ceil_times t_rxd.value interval
  refuse (leb eth_timeout (projected_rxd_open + total_s margin)) confirms_too_late
  ok tt
