-- ===== src/Gravity/CrossClock/Ordering.antt =====
-- The deadline ordering that the cross-clock bridge gives: the RXD refund opens before the ETH
-- deadline, by the whole margin.
use pyrxd.Common.{ℕ, ◌+◌, ◌-◌, ◌*◌, ◌≤◌, ◌<◌, ◌≡◌, ◌≢◌, arith, ok, sym, ap, ◌∙◌}
use pyrxd.Common.Ratio.{Ratio, IsPositive, floor_over, ceil_times, le-ceil_div, ceil_div-le_iff}
use pyrxd.Gravity.Timelock.{blocks, Timelock}
use pyrxd.Gravity.CrossClock.{
  CrossClockMargin, total_s, eth_absolute_to_rxd_relative_blocks,
  assert_covenant_confirms_before_eth_deadline, max_rxd_csv_blocks,
}
use native.Mathlib.Nat.{div-mul-le_self, lt-div-mul-add}

mul-le-mul : (a b d : ℕ) → a ≤ b → a * d ≤ b * d
mul-le-mul a b d h = grind arith

le-ceil_times : (v : ℕ) (r : Ratio) → IsPositive r → v * r.num ≤ ceil_times v r * r.den
unfolding ceil_times
le-ceil_times v r p = le-ceil_div (v * r.num) r.den p.den_pos

ceil_times-le : (v k : ℕ) (r : Ratio) → IsPositive r → v * r.num ≤ k * r.den → ceil_times v r ≤ k
unfolding ceil_times
ceil_times-le v k r p h = (ceil_div-le_iff (v * r.num) r.den k p.den_pos).1 h

module _ (timeout lock : ℕ) (m : CrossClockMargin) (r : Ratio) (floor : ℕ) where
  sized :
      (t : Timelock)
      → eth_absolute_to_rxd_relative_blocks timeout lock m r floor ≡ ok t
      → (t.unit ≡ blocks)
        × (floor ≤ t.value)
        × (t.value ≤ max_rxd_csv_blocks)
        × (total_s m + lock < timeout)
        × (t.value ≡ floor_over (timeout - total_s m - lock) r)
  unfolding eth_absolute_to_rxd_relative_blocks
  sized t h = ground arith

floor_over_bounds :
    (v : ℕ) (r : Ratio)
    → IsPositive r
    → (floor_over v r * r.num ≤ v * r.den) × (v * r.den < floor_over v r * r.num + r.num)
unfolding floor_over
floor_over_bounds v r p =
    (div-mul-le_self (v * r.den) r.num, lt-div-mul-add {a = v * r.den} {b = r.num} p.num_pos)

regroup :
    (timeout total lock d : ℕ)
    → total + lock < timeout
    → (timeout - total - lock) * d + (lock + total) * d ≡ timeout * d
regroup timeout total lock d h =
    let e : timeout ≡ (timeout - total - lock) + (lock + total) = omega arith in
    sym (ap (λ (x : ℕ). x * d) e ∙ omega arith)

-- If the funding-confirmation gate passes, then at whatever time up to `max_wait` seconds later the
-- covenant is mined, its refund opens before the ETH deadline less the margin; and the window is in
-- blocks.
pub assert_covenant_confirms_before_eth_deadline_safe :
    (now timeout : ℕ) (m : CrossClockMargin) (t : Timelock) (r : Ratio) (max_wait mined : ℕ)
    → IsPositive r
    → assert_covenant_confirms_before_eth_deadline now timeout m t r max_wait ≡ ok tt
    → mined ≤ now + max_wait
    → (t.unit ≡ blocks) × ((mined + total_s m) * r.den + t.value * r.num < timeout * r.den)
assert_covenant_confirms_before_eth_deadline_safe now timeout m t r max_wait mined p h late =
    let (u, room) = passed in
    let covered = le-ceil_times t.value r p in
    let early : mined + total_s m + ceil_times t.value r + 1 ≤ timeout = omega arith in
    (u, omega (arith, mul-le-mul _ _ r.den early, covered, p.den_pos))
  where
    passed : (t.unit ≡ blocks) × (now + max_wait + ceil_times t.value r + total_s m < timeout)
    passed = unfold assert_covenant_confirms_before_eth_deadline in ground arith

-- The window that `eth_absolute_to_rxd_relative_blocks` returns is in blocks, between the safety
-- floor and the 16-bit cap, and it is the largest that opens the RXD refund no later than the ETH
-- deadline less the margin: `value` blocks after the expected lock time still fit, one more does not.
-- Where they fit exactly, so that the refund opens at that very moment and not before it, the
-- funding-confirmation gate refuses the window at the lock time. (Times are multiplied by the interval's
-- denominator.)
pub eth_absolute_to_rxd_relative_blocks_fits :
    (timeout lock : ℕ) (m : CrossClockMargin) (r : Ratio) (floor : ℕ) (t : Timelock)
    → IsPositive r
    → eth_absolute_to_rxd_relative_blocks timeout lock m r floor ≡ ok t
    → (t.unit ≡ blocks)
      × (floor ≤ t.value)
      × (t.value ≤ max_rxd_csv_blocks)
      × ((lock + total_s m) * r.den + t.value * r.num ≤ timeout * r.den)
      × (timeout * r.den < (lock + total_s m) * r.den + t.value * r.num + r.num)
      × ((lock + total_s m) * r.den + t.value * r.num ≡ timeout * r.den
          → assert_covenant_confirms_before_eth_deadline lock timeout m t r 0 ≢ ok tt)
eth_absolute_to_rxd_relative_blocks_fits timeout lock m r floor t p h =
    let (u, lo, hi, room, size) = sized timeout lock m r floor t h in
    let (below, above) = floor_over_bounds (timeout - total_s m - lock) r p in
    let total = regroup timeout (total_s m) lock r.den room in
    let size' = ap (λ (x : ℕ). x * r.num) size in
    (
      u,
      lo,
      hi,
      omega arith,
      omega arith,
      λ exact passed.
          let before =
            assert_covenant_confirms_before_eth_deadline_safe lock timeout m t r 0 lock p passed
              (omega arith) in
          omega (arith, exact, before.1),
    )

-- The two halves agree: a window sized for a covenant mined at `lock` passes the gate whenever the
-- latest moment of confirmation is before `lock`.
pub sized-confirms :
    (timeout lock : ℕ) (m : CrossClockMargin) (r : Ratio) (floor now max_wait : ℕ) (t : Timelock)
    → IsPositive r
    → eth_absolute_to_rxd_relative_blocks timeout lock m r floor ≡ ok t
    → now + max_wait < lock
    → assert_covenant_confirms_before_eth_deadline now timeout m t r max_wait ≡ ok tt
unfolding assert_covenant_confirms_before_eth_deadline
sized-confirms timeout lock m r floor now max_wait t p h early =
    let (u, lo, hi, fits, most, _) =
      eth_absolute_to_rxd_relative_blocks_fits timeout lock m r floor t p h in
    let (_, _, _, room, _) = sized timeout lock m r floor t h in
    let total = regroup timeout (total_s m) lock r.den room in
    let short = ceil_times-le t.value (timeout - total_s m - lock) r p (omega arith) in
    let lim : now + max_wait + ceil_times t.value r + total_s m < timeout = omega arith in
    let pos = p.num_pos in ground arith
