-- ===== src/Gravity/Timelock.antt =====
-- src/pyrxd/btc_wallet/taproot.py: the unit-tagged relative timelock (BIP68/112).
pub mod Encoding
pub mod Normalize
use pyrxd.Common.{
  ℕ, ◌+◌, ◌*◌, ◌/◌, ◌%◌, ◌^◌, ◌≤◌, ◌<◌, ◌≡◌, Bool, true, false, ◌&&◌, ltb, leb, ◌==◌, if◌then◌else◌,
  Result, ok, err, ◌>>=◌, ◌>>◌, refuse,
}
use pyrxd.Common.Ratio.{Ratio, floor_times, floor_over}

-- `TimeUnit`.
pub data TimeUnit : Type 0 where
  blocks seconds : TimeUnit

pub record Timelock : Type 0 where
  pub value : ℕ
  pub unit : TimeUnit

pub data TimelockError : Type 0 where
  blocks_too_large seconds_too_large interval_not_positive : TimelockError

abbrev pub sequence_locktime_mask : ℕ
sequence_locktime_mask = 0xffff

abbrev pub sequence_locktime_type_flag : ℕ
sequence_locktime_type_flag = 2 ^ 22

abbrev pub seconds_granularity : ℕ
seconds_granularity = 512

-- `Timelock.__post_init__`; a value is an integer and not negative by its type.
unfoldable pub make_timelock : ℕ → TimeUnit → Result TimelockError Timelock
make_timelock value blocks = do
  refuse (ltb sequence_locktime_mask value) blocks_too_large
  ok (record { value = value; unit = blocks })
make_timelock value seconds = do
  refuse (ltb sequence_locktime_mask (value / seconds_granularity)) seconds_too_large
  ok (record { value = value; unit = seconds })

-- The timelocks that can be constructed.
abbrev IsValidAt : TimeUnit → ℕ → Type 0
IsValidAt blocks v = v ≤ sequence_locktime_mask
IsValidAt seconds v = v / seconds_granularity ≤ sequence_locktime_mask

abbrev pub IsValid : Timelock → Type 0
IsValid t = IsValidAt t.unit t.value

-- `Timelock.to_nsequence`: `x & 0xffff` is `x % 2 ^ 16`; the flag is bit 22, which is clear in the
-- masked units, so that `|` adds it.
to_nsequence_at : TimeUnit → ℕ → ℕ
to_nsequence_at blocks v = v % (sequence_locktime_mask + 1)
to_nsequence_at seconds v =
    sequence_locktime_type_flag + v / seconds_granularity % (sequence_locktime_mask + 1)

unfoldable pub to_nsequence : Timelock → ℕ
unfolding to_nsequence_at
to_nsequence t = to_nsequence_at t.unit t.value

-- `Timelock.csv_script_operand`.
unfoldable pub csv_script_operand : Timelock → ℕ
unfolding to_nsequence
csv_script_operand t = to_nsequence t

-- `Timelock.normalize_to`.
convert : TimeUnit → TimeUnit → Ratio → Timelock → Result TimelockError Timelock
unfolding make_timelock floor_times floor_over
convert blocks blocks interval t = ok t
convert seconds seconds interval t = ok t
convert seconds blocks interval t = make_timelock (floor_times t.value interval) seconds
convert blocks seconds interval t = make_timelock (floor_over t.value interval) blocks

unfoldable pub normalize_to : TimeUnit → Ratio → Timelock → Result TimelockError Timelock
unfolding convert
normalize_to unit interval t = do
  refuse (interval.num == 0) interval_not_positive
  convert unit t.unit interval t

-- `t.normalize_to(TimeUnit.BLOCKS, block_interval_s=…).value`.
unfoldable pub to_blocks : Ratio → Timelock → Result TimelockError ℕ
unfolding normalize_to
to_blocks interval t = do t' ← normalize_to blocks interval t; ok t'.value
