-- ===== src/Common/Hex.antt =====
-- `bytes.hex` and `bytes.fromhex` of Python, on texts as lists of ASCII codes.
use Prim.Native.Nat.{ℕ, ◌+◌, ◌-◌, ◌*◌, ◌/◌, ◌%◌, ◌<◌}
use mathlib.Core.Path.{◌≡◌, refl, ◌∙◌, subst}
use mathlib.Core.Logic.{inl, inr}
use mathlib.Core.Bool.{Bool, false, ◌&&◌, ◌||◌}
use mathlib.Core.Option.{Option, none, some}
use mathlib.Core.List.{List, [], ◌∷◌}
use native.Mathlib.Omega.{arith}
use pyrxd.Common.Tests.{ltb, leb, ◌==◌, if◌then◌else◌, Bool-cases}
use pyrxd.Common.Lists.{length}

abbrev pub IsBytes : List ℕ → Type 0
IsBytes [] = Unit
IsBytes (b ∷ bs) = (b < 256) × IsBytes bs

hex_digit : ℕ → ℕ
hex_digit n = if ltb n 10 then n + 48 else n + 87

-- `data.hex()`.
unfoldable pub to_hex : List ℕ → List ℕ
unfolding hex_digit
to_hex [] = []
to_hex (b ∷ bs) = hex_digit (b / 16) ∷ hex_digit (b % 16) ∷ to_hex bs

digit_value : ℕ → Option ℕ
digit_value c =
    if leb 48 c && leb c 57
    then some (c - 48)
    else if leb 97 c && leb c 102
    then some (c - 87)
    else if leb 65 c && leb c 70
    then some (c - 55)
    else none

is_space : ℕ → Bool
is_space c = c == 32 || (leb 9 c && leb c 13)

join : Option ℕ → Option ℕ → Option (List ℕ) → Option (List ℕ)
join none lo rest = none
join (some h) none rest = none
join (some h) (some l) none = none
join (some h) (some l) (some bs) = some ((h * 16 + l) ∷ bs)

-- `bytes.fromhex(text)`; `none` is its `ValueError`. White space between two bytes is skipped.
unfoldable pub from_hex : List ℕ → Option (List ℕ)
unfolding digit_value is_space join
from_hex [] = some []
from_hex (c ∷ []) = if is_space c then some [] else none
from_hex (c ∷ d ∷ text) =
    let skipped = from_hex (d ∷ text) in
    let pair = join (digit_value c) (digit_value d) (from_hex text) in
    if is_space c then skipped else pair

digit_value-hex_digit : (n : ℕ) → n < 16 → digit_value (hex_digit n) ≡ some n
unfolding digit_value hex_digit
digit_value-hex_digit n h = ground arith

is_space-hex_digit : (n : ℕ) → n < 16 → is_space (hex_digit n) ≡ false
unfolding is_space hex_digit
is_space-hex_digit n h = ground arith

from_hex_pair :
    (b : ℕ) (text : List ℕ)
    → b < 256
    → from_hex (hex_digit (b / 16) ∷ hex_digit (b % 16) ∷ text)
      ≡ join (some (b / 16)) (some (b % 16)) (from_hex text)
unfolding from_hex
from_hex_pair b text h = rw (
  is_space-hex_digit (b / 16) (omega arith),
  digit_value-hex_digit (b / 16) (omega arith),
  digit_value-hex_digit (b % 16) (omega arith),
)

-- Bytes written in hexadecimal are read back.
pub from_hex-to_hex : (bs : List ℕ) → IsBytes bs → from_hex (to_hex bs) ≡ some bs
unfolding to_hex
from_hex-to_hex [] h = unfold from_hex in refl
from_hex-to_hex (b ∷ bs) (hb, hbs) =
    from_hex_pair b (to_hex bs) hb ∙ rw (from_hex-to_hex bs hbs) joined
  where
    joined : join (some (b / 16)) (some (b % 16)) (some bs) ≡ some (b ∷ bs)
    joined = unfold join in ground arith

pub length-to_hex : (bs : List ℕ) → length (to_hex bs) ≡ 2 * length bs
unfolding to_hex
length-to_hex [] = refl
length-to_hex (b ∷ bs) = omega (arith, length-to_hex bs)

digit_value-lt : (c n : ℕ) → digit_value c ≡ some n → n < 16
unfolding digit_value
digit_value-lt c n h = ground arith

some-IsBytes : {bs cs : List ℕ} → some cs ≡ some bs → IsBytes cs → IsBytes bs
some-IsBytes {bs} {cs} e k = subst IsBytes {x = cs} {y = bs} (cc e) k

join-IsBytes :
    (hi lo : Option ℕ) (rest : Option (List ℕ)) (bs : List ℕ)
    → ((h : ℕ) → hi ≡ some h → h < 16)
    → ((l : ℕ) → lo ≡ some l → l < 16)
    → ((cs : List ℕ) → rest ≡ some cs → IsBytes cs)
    → join hi lo rest ≡ some bs
    → IsBytes bs
unfolding join
join-IsBytes none lo rest bs kh kl kr e = cc
join-IsBytes (some h) none rest bs kh kl kr e = cc
join-IsBytes (some h) (some l) none bs kh kl kr e = cc
join-IsBytes (some h) (some l) (some cs) bs kh kl kr e =
    some-IsBytes e (omega (arith, kh h refl, kl l refl), kr cs refl)

-- What is read is bytes.
pub from_hex-IsBytes : (text bs : List ℕ) → from_hex text ≡ some bs → IsBytes bs
unfolding from_hex
from_hex-IsBytes [] bs h = some-IsBytes h tt
from_hex-IsBytes (c ∷ []) bs h = elim (Bool-cases (is_space c)) [
  | inl blank ↦ some-IsBytes (rw blank at h) tt
  | inr other ↦ absurd (cc (rw other at h))
]
from_hex-IsBytes (c ∷ d ∷ text) bs h = elim (Bool-cases (is_space c)) [
  | inl blank ↦ from_hex-IsBytes (d ∷ text) bs (rw blank at h)
  | inr other ↦
      join-IsBytes (digit_value c) (digit_value d) (from_hex text) bs (digit_value-lt c)
        (digit_value-lt d) (from_hex-IsBytes text) (rw other at h)
]
