-- ===== src/Common/Bytes.antt =====
-- Byte strings: slices, Python's `[::-1]`, and the numbers that they write in either byte order.
use Prim.Native.Nat.{ℕ, zero, suc, ◌+◌, ◌*◌, ◌^◌, ◌/◌, ◌%◌}
use mathlib.Core.Path.{◌≡◌, refl, sym, ap, ◌∙◌}
use mathlib.Core.List.{List, [], ◌∷◌, ◌++◌}
use native.Mathlib.Omega.{arith}
use pyrxd.Common.Lists.{length, length-append, take, drop}
use pyrxd.Common.Hex.{IsBytes}

-- `data[from : from + n]`.
abbrev pub slice : ℕ → ℕ → List ℕ → List ℕ
slice from n raw = take n (drop from raw)

abbrev pub reverse {ℓ} : {A : Type ℓ} → List A → List A
reverse [] = []
reverse (x ∷ xs) = reverse xs ++ (x ∷ [])

-- `int.from_bytes(data, "little")`.
abbrev pub le_value : List ℕ → ℕ
le_value [] = 0
le_value (b ∷ bs) = b + 256 * le_value bs

-- `int.from_bytes(data, "big")`.
abbrev pub be_value : List ℕ → ℕ
be_value [] = 0
be_value (b ∷ bs) = b * 256 ^ length bs + be_value bs

-- `n.to_bytes(k, "little")`, for a number that fits.
abbrev pub le_bytes : ℕ → ℕ → List ℕ
le_bytes zero v = []
le_bytes (suc k) v = v % 256 ∷ le_bytes k (v / 256)

module _ {ℓ} {A : Type ℓ} where
  pub append_nil : (xs : List A) → xs ++ [] ≡ xs
  append_nil [] = refl
  append_nil (x ∷ xs) = rw (append_nil xs)

  pub append_assoc : (xs ys zs : List A) → (xs ++ ys) ++ zs ≡ xs ++ (ys ++ zs)
  append_assoc [] ys zs = refl
  append_assoc (x ∷ xs) ys zs = rw (append_assoc xs ys zs)

  pub reverse-append : (xs ys : List A) → reverse (xs ++ ys) ≡ reverse ys ++ reverse xs
  reverse-append [] ys = sym (append_nil (reverse ys))
  reverse-append (x ∷ xs) ys =
      ap (λ zs. zs ++ (x ∷ [])) (reverse-append xs ys)
      ∙ append_assoc (reverse ys) (reverse xs) (x ∷ [])

  pub reverse_involutive : (xs : List A) → reverse (reverse xs) ≡ xs
  reverse_involutive [] = refl
  reverse_involutive (x ∷ xs) =
      reverse-append (reverse xs) (x ∷ []) ∙ ap (λ zs. x ∷ zs) (reverse_involutive xs)

  pub length-reverse : (xs : List A) → length (reverse xs) ≡ length xs
  length-reverse [] = refl
  length-reverse (x ∷ xs) = length-append (reverse xs) (x ∷ []) ∙ omega (arith, length-reverse xs)

  pub take-append : (n : ℕ) (xs ys : List A) → length xs ≡ n → take n (xs ++ ys) ≡ xs
  take-append zero [] ys h = refl
  take-append zero (x ∷ xs) ys h = absurd (omega arith)
  take-append (suc n) [] ys h = absurd (omega arith)
  take-append (suc n) (x ∷ xs) ys h = rw (take-append n xs ys (omega arith))

  pub drop-append : (n : ℕ) (xs ys : List A) → length xs ≡ n → drop n (xs ++ ys) ≡ ys
  drop-append zero [] ys h = refl
  drop-append zero (x ∷ xs) ys h = absurd (omega arith)
  drop-append (suc n) [] ys h = absurd (omega arith)
  drop-append (suc n) (x ∷ xs) ys h = drop-append n xs ys (omega arith)

pub IsBytes-append : (xs ys : List ℕ) → IsBytes xs → IsBytes ys → IsBytes (xs ++ ys)
IsBytes-append [] ys h k = k
IsBytes-append (x ∷ xs) ys h k = (h.0, IsBytes-append xs ys h.1 k)

pub IsBytes-reverse : (xs : List ℕ) → IsBytes xs → IsBytes (reverse xs)
IsBytes-reverse [] h = h
IsBytes-reverse (x ∷ xs) h = IsBytes-append (reverse xs) (x ∷ []) (IsBytes-reverse xs h.1) (h.0, tt)

pub IsBytes-drop : (n : ℕ) (xs : List ℕ) → IsBytes xs → IsBytes (drop n xs)
IsBytes-drop zero xs h = h
IsBytes-drop (suc n) [] h = h
IsBytes-drop (suc n) (x ∷ xs) h = IsBytes-drop n xs h.1

pub IsBytes-take : (n : ℕ) (xs : List ℕ) → IsBytes xs → IsBytes (take n xs)
IsBytes-take zero xs h = tt
IsBytes-take (suc n) [] h = h
IsBytes-take (suc n) (x ∷ xs) h = (h.0, IsBytes-take n xs h.1)
