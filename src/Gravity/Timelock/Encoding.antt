-- ===== src/Gravity/Timelock/Encoding.antt =====
-- What the nSequence field says of a timelock.
use pyrxd.Common.{ℕ, ◌+◌, ◌*◌, ◌%◌, ◌^◌, ◌≤◌, ◌<◌, ◌≡◌, leb, if◌then◌else◌, arith, ok, ◌↔◌}
use pyrxd.Gravity.Timelock.{
  TimeUnit, blocks, seconds, Timelock, make_timelock, IsValid, to_nsequence,
  sequence_locktime_type_flag,
}

-- A timelock is constructed exactly when its count fits the 16 bits of BIP68, as it was given.
pub make_timelock_iff : (t : Timelock) → (make_timelock t.value t.unit ≡ ok t) ↔ IsValid t
unfolding make_timelock
make_timelock_iff t = (λ h. ground arith, λ h. ground arith)

pub make_timelock-IsValid :
    (v : ℕ) (u : TimeUnit) {t : Timelock}
    → make_timelock v u ≡ ok t
    → IsValid t × (t.value ≡ v) × (t.unit ≡ u)
unfolding make_timelock
make_timelock-IsValid v blocks h = ground arith
make_timelock-IsValid v seconds h = ground arith

-- BIP68's reading of an nSequence value: bit 22 is the unit, the low 16 bits are the count.
abbrev pub decode : ℕ → Timelock
decode n =
    if leb sequence_locktime_type_flag n
    then record { value = n % 2 ^ 16 * 512; unit = seconds }
    else record { value = n % 2 ^ 16; unit = blocks }

-- A valid timelock's nSequence has the disable bit clear, and BIP68 reads it back: a block lock as it
-- was, a lock in seconds rounded down to the granularity of 512 s, so by less than 512 s.
pub decode-to_nsequence :
    (t : Timelock)
    → IsValid t
    → (to_nsequence t < 2 ^ 31)
      × ((decode (to_nsequence t)).unit ≡ t.unit)
      × ((decode (to_nsequence t)).value ≤ t.value)
      × (t.value < (decode (to_nsequence t)).value + 512)
      × (t.unit ≡ blocks → decode (to_nsequence t) ≡ t)
unfolding to_nsequence
decode-to_nsequence t h = ground arith
