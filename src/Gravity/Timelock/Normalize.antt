-- ===== src/Gravity/Timelock/Normalize.antt =====
-- Conversion of a timelock between the two clocks.
use pyrxd.Common.{ℕ, ◌+◌, ◌*◌, ◌≤◌, ◌<◌, ◌≡◌, arith, ok}
use pyrxd.Common.Ratio.{Ratio, IsPositive}
use pyrxd.Gravity.Timelock.{blocks, seconds, Timelock, IsValid, to_blocks, sequence_locktime_mask}
use native.Mathlib.Nat.{div-mul-le_self, lt-div-mul-add}

-- `to_blocks` on a lock in blocks is its value; on a lock in seconds it is rounded down, by less than
-- one block. The count always fits BIP68's 16 bits.
pub to_blocks_bounds :
    (r : Ratio) (t : Timelock) (n : ℕ)
    → IsPositive r
    → IsValid t
    → to_blocks r t ≡ ok n
    → (n ≤ sequence_locktime_mask)
      × (t.unit ≡ blocks → n ≡ t.value)
      × (t.unit ≡ seconds → (n * r.num ≤ t.value * r.den) × (t.value * r.den < n * r.num + r.num))
unfolding to_blocks
to_blocks_bounds r t n p v h = ground (
  arith,
  div-mul-le_self (t.value * r.den) r.num,
  lt-div-mul-add {a = t.value * r.den} {b = r.num} p.num_pos,
)

-- With a positive interval, `to_blocks` of a lock in blocks succeeds.
pub to_blocks_of_blocks :
    (r : Ratio) (t : Timelock) → 0 < r.num → t.unit ≡ blocks → to_blocks r t ≡ ok t.value
unfolding to_blocks
to_blocks_of_blocks r t p u = ground arith
