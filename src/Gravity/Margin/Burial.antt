-- ===== src/Gravity/Margin/Burial.antt =====
-- The value-scaled burial against the cost of a reorg, and `max_protected_value` as its inverse.
use pyrxd.Common.{ℕ, ◌*◌, ◌/◌, ◌≤◌, ◌<◌, ◌≡◌, ◌↔◌, arith, some, ok}
use pyrxd.Common.Ratio.{Ratio, ceil_div-le_iff}
use pyrxd.Gravity.Margin.{
  MarginPolicy, scaled_burial, value_scaled_burial_blocks, max_protected_value,
}
use native.Mathlib.Nat.{le-div_iff_mul-le}

scaled_burial-le_iff :
    (cost value : ℕ) (factor : Ratio) (k : ℕ)
    → 0 < factor.den * cost
    → (scaled_burial (some cost) (some value) factor ≤ k)
      ↔ (value * factor.num ≤ k * (factor.den * cost))
unfolding scaled_burial
scaled_burial-le_iff cost value factor k h =
    ceil_div-le_iff (value * factor.num) (factor.den * cost) k h

-- `_value_scaled_burial_blocks` is the least burial that covers the value: where the policy has a
-- cost per block and there is a value at risk, a burial of `k` blocks costs at least the value times
-- the safety factor exactly if `k` is at least that many blocks. (Both sides are multiplied by the
-- factor's denominator.)
pub value_scaled_burial_blocks-le_iff :
    (policy : MarginPolicy) (cost value k : ℕ)
    → policy.rxd_reorg_cost_per_block ≡ some cost
    → 0 < cost
    → 0 < policy.burial_safety_factor.den
    → (value_scaled_burial_blocks policy (some value) ≤ k)
      ↔ (value * policy.burial_safety_factor.num ≤ k * cost * policy.burial_safety_factor.den)
unfolding value_scaled_burial_blocks
value_scaled_burial_blocks-le_iff policy cost value k e c d =
    let f = policy.burial_safety_factor in
    let iff = scaled_burial-le_iff cost value f k (grind arith) in
    rw e (λ h. omega (arith, iff.0 h), λ h. iff.1 (omega arith))

max_protected_value_lem :
    (burial cost : ℕ) (factor : Ratio) (m : ℕ)
    → max_protected_value burial cost factor ≡ ok m
    → (0 < cost) × (factor.den ≤ factor.num) × (m ≡ burial * cost * factor.den / factor.num)
unfolding max_protected_value
max_protected_value_lem burial cost factor m h = ground arith

-- `max_protected_value` is the exact inverse of the value-scaled burial: a value is at most the
-- protected one exactly if the burial that the value calls for is at most the given burial.
pub max_protected_value_iff :
    (burial cost : ℕ) (factor : Ratio) (m value : ℕ)
    → 0 < factor.den
    → max_protected_value burial cost factor ≡ ok m
    → (value ≤ m) ↔ (scaled_burial (some cost) (some value) factor ≤ burial)
max_protected_value_iff burial cost factor m value d h =
    let (c, one, size) = max_protected_value_lem burial cost factor m h in
    let iff = scaled_burial-le_iff cost value factor burial (grind arith) in
    let iff' =
      le-div_iff_mul-le {k = factor.num} {x = value} {y = burial * cost * factor.den}
        (omega arith) in
    rw size (λ p. iff.1 (omega (arith, iff'.0 p)), λ p. iff'.1 (omega (arith, iff.0 p)))
