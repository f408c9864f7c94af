-- ===== src/Common/Ratio.antt =====
-- Python numbers that are not integers, as exact ratios, and the roundings that the code applies.
-- A Python float is such a ratio, and `Fraction` computes with it exactly. Where the code multiplies
-- or divides floats, the double's own rounding is left out: it does not arise for intervals of whole
-- seconds and values below 2 ^ 53.
use Prim.Native.Nat.{ℕ, ◌+◌, ◌-◌, ◌*◌, ◌/◌, ◌≤◌, ◌<◌}
use mathlib.Core.Logic.{◌↔◌}
use native.Mathlib.Omega.{arith}
use native.Mathlib.Nat.{div-lt_iff_lt-mul, le-div_iff_mul-le, div-mul-le_self}

pub record Ratio : Type 0 where
  pub num : ℕ
  pub den : ℕ

-- A ratio of positive numbers.
pub record IsPositive (r : Ratio) : Type 0 where
  pub num_pos : 0 < r.num
  pub den_pos : 0 < r.den

abbrev pub whole : ℕ → Ratio
whole n = record { num = n; den = 1 }

-- `math.ceil(a / b)`, for b above 0.
unfoldable pub ceil_div : ℕ → ℕ → ℕ
ceil_div a b = (a + b - 1) / b

-- `int(v * r)`, `int(v // r)` and `math.ceil(v / r)`.
unfoldable pub floor_times : ℕ → Ratio → ℕ
floor_times v r = v * r.num / r.den

unfoldable pub floor_over : ℕ → Ratio → ℕ
floor_over v r = v * r.den / r.num

unfoldable pub ceil_over : ℕ → Ratio → ℕ
ceil_over v r = ceil_div (v * r.den) r.num

-- `math.ceil(v * r)`.
unfoldable pub ceil_times : ℕ → Ratio → ℕ
ceil_times v r = ceil_div (v * r.num) r.den

-- The ceiling is the least count of blocks that covers `a`.
pub ceil_div-le_iff : (a b k : ℕ) → 0 < b → (ceil_div a b ≤ k) ↔ (a ≤ k * b)
unfolding ceil_div
ceil_div-le_iff a b k h = (
  λ p. omega (arith, (div-lt_iff_lt-mul {k = b} {x = a + b - 1} {y = k + 1} h).0 (omega arith)),
  λ p. omega (arith, (div-lt_iff_lt-mul {k = b} {x = a + b - 1} {y = k + 1} h).1 (omega arith)),
)

-- The covered amount, at the ceiling itself.
pub le-ceil_div : (a b : ℕ) → 0 < b → a ≤ ceil_div a b * b
le-ceil_div a b h = (ceil_div-le_iff a b (ceil_div a b) h).0 (omega arith)

pub div-le-ceil_div : (a b : ℕ) → 0 < b → a / b ≤ ceil_div a b
unfolding ceil_div
div-le-ceil_div a b h =
    (le-div_iff_mul-le {k = b} {x = a / b} {y = a + b - 1} h).1 (omega (arith, div-mul-le_self a b))
