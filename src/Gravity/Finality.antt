-- ===== src/Gravity/Finality.antt =====
-- src/pyrxd/gravity/finality.py: the verdict on the counter-leg claim, and the tracker that judges a
-- finality stall over several observations. Block numbers are natural numbers by their type.
pub mod Stall
use pyrxd.Common.{
  ℕ, ◌+◌, ◌-◌, ◌*◌, ◌≤◌, ◌<◌, ◌≡◌, Bool, true, false, ◌&&◌, not, ltb, leb, ◌==◌, if◌then◌else◌,
  Option, none, some, Result, ok, err, ◌>>=◌, ◌>>◌, refuse,
}

-- `CounterClaimState`.
pub data CounterClaimState : Type 0 where
  final not_yet_final_live counter_chain_not_finalizing : CounterClaimState

-- `CounterClaimFinality`.
pub record CounterClaimFinality : Type 0 where
  pub state : CounterClaimState
  pub confirmations : Option ℕ
  pub required_depth : Option ℕ

-- `CounterClaimFinality(state=…)`, the verdict of a finalized-checkpoint leg.
abbrev pub without_depth : CounterClaimState → CounterClaimFinality
without_depth s = record { state = s; confirmations = none; required_depth = none }

-- `CounterClaimFinality.from_btc_depth`.
unfoldable pub from_btc_depth : ℕ → ℕ → CounterClaimFinality
from_btc_depth confirmations required_depth = record {
  state = if leb required_depth confirmations then final else not_yet_final_live;
  confirmations = some confirmations;
  required_depth = some required_depth;
}

-- `CounterClaimFinality.remaining_positive`.
positive_depth : Option ℕ → Option ℕ → Bool
positive_depth none required = true
positive_depth (some c) none = true
positive_depth (some c) (some d) = ltb c d

unfoldable pub remaining_positive : CounterClaimFinality → Bool
unfolding positive_depth
remaining_positive v = positive_depth v.confirmations v.required_depth

-- `FinalityStallTracker` and its attributes.
pub record FinalityStallTracker : Type 0 where
  pub patience_slots : ℕ
  pub max_normal_lag_slots : ℕ
  pub stuck_finalized : Option ℕ
  pub head_at_run_start : Option ℕ

pub data StallError : Type 0 where
  patience_not_positive lag_not_positive finalized_above_head : StallError

abbrev pub slots_per_epoch : ℕ
slots_per_epoch = 32

-- `FinalityStallTracker.__init__`.
unfoldable pub make_tracker : ℕ → ℕ → Result StallError FinalityStallTracker
make_tracker patience lag = do
  refuse (ltb patience 1) patience_not_positive
  refuse (ltb lag 1) lag_not_positive
  ok (record {
    patience_slots = patience;
    max_normal_lag_slots = lag;
    stuck_finalized = none;
    head_at_run_start = none;
  })

-- The defaults of `__init__`.
unfoldable pub default_tracker : Result StallError FinalityStallTracker
unfolding make_tracker
default_tracker = make_tracker (4 * slots_per_epoch) (3 * slots_per_epoch)

same_block : Option ℕ → ℕ → Bool
same_block none f = false
same_block (some g) f = g == f

-- `head_progress >= patience`; the patience is positive, so that no progress is negative or zero.
progressed : Option ℕ → ℕ → ℕ → Bool
progressed none patience head = leb patience 0
progressed (some start) patience head = leb (start + patience) head

-- `FinalityStallTracker.observe`: the new tracker, and whether a stall is declared.
unfoldable pub observe :
    FinalityStallTracker → ℕ → ℕ → Result StallError (FinalityStallTracker × Bool)
unfolding same_block progressed
observe t head finalized = do
  refuse (ltb head finalized) finalized_above_head
  if not (same_block t.stuck_finalized finalized)
      then ok (record t { stuck_finalized = some finalized; head_at_run_start = some head }, false)
      else ok (
        t,
        progressed t.head_at_run_start t.patience_slots head
            && ltb (finalized + t.max_normal_lag_slots) head,
      )

abbrev is_final : CounterClaimState → Bool
is_final final = true
is_final _ = false

-- `FinalityStallTracker.verdict`.
unfoldable pub verdict :
    FinalityStallTracker
    → CounterClaimFinality
    → ℕ
    → ℕ
    → Result StallError (FinalityStallTracker × CounterClaimFinality)
unfolding observe
verdict t point_in_time head finalized =
    if is_final point_in_time.state then ok (t, point_in_time) else (do
      (t', stalled) ← observe t head finalized
      ok (t', if stalled then without_depth counter_chain_not_finalizing else point_in_time))
