-- ===== src/Spv/Witness/Cursor.antt =====
-- Reading at a position: what stands there, and the round trip of variable-length integers.
use pyrxd.Common.{
  ℕ, zero, suc, ◌+◌, ◌/◌, ◌^◌, ◌≤◌, ◌<◌, ◌≡◌, ◌⊎◌, refl, sym, ap, ◌∙◌, arith, false, ltb, lt→ltb,
  leb, length, length-append, List, [], ◌∷◌, ◌++◌, take, drop, get_or, ok, Bool-cases, inl, inr,
}
use pyrxd.Common.Bytes.{slice, le_value, le_bytes, take-append, drop-append}
use pyrxd.Spv.Payment.Script.{drop-drop}
use pyrxd.Spv.Witness.{read_wide, read_varint, varint_bytes}

-- From this position to the end stands `tail`.
pub record Stands (raw : List ℕ) (pos : ℕ) (tail : List ℕ) : Type 0 where
  pub rest : drop pos raw ≡ tail
  pub size : pos + length tail ≡ length raw

pub Stands-append :
    {raw : List ℕ} {pos : ℕ} (front tail : List ℕ)
    → Stands raw pos (front ++ tail)
    → Stands raw (pos + length front) tail
Stands-append {raw = raw} {pos = pos} front tail s = record {
  rest =
      sym (drop-drop pos (length front) raw)
      ∙ ap (drop (length front)) s.rest
      ∙ drop-append (length front) front tail refl;
  size = omega (arith, s.size, length-append front tail);
}

-- A slice of what stands there.
pub slice-Stands :
    {raw : List ℕ} {pos : ℕ} (front tail : List ℕ)
    → Stands raw pos (front ++ tail)
    → slice pos (length front) raw ≡ front
slice-Stands front tail s =
    ap (take (length front)) s.rest ∙ take-append (length front) front tail refl

get_or-drop : (n : ℕ) (xs : List ℕ) → get_or xs n 0 ≡ get_or (drop n xs) 0 0
get_or-drop zero xs = refl
get_or-drop (suc n) [] = refl
get_or-drop (suc n) (x ∷ xs) = get_or-drop n xs

pub get_or-Stands :
    {raw : List ℕ} {pos b : ℕ} {tail : List ℕ} → Stands raw pos (b ∷ tail) → get_or raw pos 0 ≡ b
get_or-Stands {raw = raw} {pos = pos} s = get_or-drop pos raw ∙ ap (λ t. get_or t 0 0) s.rest

length-le_bytes : (k n : ℕ) → length (le_bytes k n) ≡ k
length-le_bytes zero n = refl
length-le_bytes (suc k) n = omega (arith, length-le_bytes k (n / 256))

le_value-le_bytes_2 : (n : ℕ) → n < 2 ^ 16 → le_value (le_bytes 2 n) ≡ n
le_value-le_bytes_2 n h = omega arith

le_value-le_bytes_4 : (n : ℕ) → n < 2 ^ 32 → le_value (le_bytes 4 n) ≡ n
le_value-le_bytes_4 n h = omega arith

le_value-le_bytes_8 : (n : ℕ) → n < 2 ^ 64 → le_value (le_bytes 8 n) ≡ n
le_value-le_bytes_8 n h = omega arith

read_wide-le_bytes :
    {raw : List ℕ} {pos : ℕ} (b size least n : ℕ) (tail : List ℕ)
    → Stands raw pos (b ∷ (le_bytes size n ++ tail))
    → le_value (le_bytes size n) ≡ n
    → least ≤ n
    → read_wide raw pos size least ≡ ok (n, pos + (1 + size))
unfolding read_wide
read_wide-le_bytes {raw = raw} {pos = pos} b size least n tail s same canonical =
    rw (fits, read, enough) refl
  where
    next : Stands raw (pos + 1) (le_bytes size n ++ tail)
    next = Stands-append (b ∷ []) (le_bytes size n ++ tail) s

    fits : ltb (length raw) (pos + (1 + size)) ≡ false
    fits = ground (arith, next.size, length-append (le_bytes size n) tail, length-le_bytes size n)

    read : le_value (slice (pos + 1) size raw) ≡ n
    read =
        ap (λ k. le_value (slice (pos + 1) k raw)) (sym (length-le_bytes size n))
        ∙ ap le_value (slice-Stands (le_bytes size n) tail next)
        ∙ same

    enough : ltb n least ≡ false
    enough = ground arith

pub not_at_end :
    {raw : List ℕ} {pos b : ℕ} {tail : List ℕ}
    → Stands raw pos (b ∷ tail)
    → leb (length raw) pos ≡ false
not_at_end s = ground (arith, s.size)

-- The four forms of a number.
varint_cases :
    (n : ℕ)
    → n < 2 ^ 64
    → ((n < 0xfd) × (varint_bytes n ≡ n ∷ []))
      ⊎ ((0xfd ≤ n) × (n < 2 ^ 16) × (varint_bytes n ≡ 0xfd ∷ le_bytes 2 n))
      ⊎ ((2 ^ 16 ≤ n) × (n < 2 ^ 32) × (varint_bytes n ≡ 0xfe ∷ le_bytes 4 n))
      ⊎ ((2 ^ 32 ≤ n) × (varint_bytes n ≡ 0xff ∷ le_bytes 8 n))
unfolding varint_bytes
varint_cases n h = elim (Bool-cases (ltb n 0xfd)) [
  | inl one ↦ inl (ground arith, rw one)
  | inr more ↦ elim (Bool-cases (leb n 0xffff)) [
    | inl two ↦ inr (inl (ground arith, ground arith, rw (more, two)))
    | inr more2 ↦ elim (Bool-cases (leb n 0xffffffff)) [
      | inl four ↦ inr (inr (inl (ground arith, ground arith, rw (more, more2, four))))
      | inr eight ↦ inr (inr (inr (ground arith, rw (more, more2, eight))))
    ]
  ]
]

module _ {raw : List ℕ} {pos : ℕ} (n : ℕ) (tail : List ℕ) where
  read_one : n < 0xfd → Stands raw pos (n ∷ tail) → read_varint raw pos ≡ ok (n, pos + 1)
  unfolding read_varint
  read_one h s = rw (not_at_end s, get_or-Stands s, lt→ltb n 0xfd h) refl

  read_two :
      0xfd ≤ n
      → n < 2 ^ 16
      → Stands raw pos (0xfd ∷ (le_bytes 2 n ++ tail))
      → read_varint raw pos ≡ ok (n, pos + (1 + 2))
  unfolding read_varint
  read_two low high s =
      rw (not_at_end s, get_or-Stands s)
        (read_wide-le_bytes 0xfd 2 0xfd n tail s (le_value-le_bytes_2 n high) low)

  read_four :
      2 ^ 16 ≤ n
      → n < 2 ^ 32
      → Stands raw pos (0xfe ∷ (le_bytes 4 n ++ tail))
      → read_varint raw pos ≡ ok (n, pos + (1 + 4))
  unfolding read_varint
  read_four low high s =
      rw (not_at_end s, get_or-Stands s)
        (read_wide-le_bytes 0xfe 4 0x10000 n tail s (le_value-le_bytes_4 n high) low)

  read_eight :
      2 ^ 32 ≤ n
      → n < 2 ^ 64
      → Stands raw pos (0xff ∷ (le_bytes 8 n ++ tail))
      → read_varint raw pos ≡ ok (n, pos + (1 + 8))
  unfolding read_varint
  read_eight low high s =
      rw (not_at_end s, get_or-Stands s)
        (read_wide-le_bytes 0xff 8 0x100000000 n tail s (le_value-le_bytes_8 n high) low)

-- A number below 2^64 that `_encode_varint` wrote is read back by `_read_varint`, wherever it stands,
-- and the new position is behind it.
pub read_varint-varint_bytes :
    {raw : List ℕ} {pos : ℕ} (n : ℕ) (tail : List ℕ)
    → n < 2 ^ 64
    → Stands raw pos (varint_bytes n ++ tail)
    → read_varint raw pos ≡ ok (n, pos + length (varint_bytes n))
read_varint-varint_bytes {raw = raw} {pos = pos} n tail h s = elim (varint_cases n h) [
  | inl (low, form) ↦ rw form (read_one n tail low (rw form at s))
  | inr (inl (low, high, form)) ↦ rw form (read_two n tail low high (rw form at s))
  | inr (inr (inl (low, high, form))) ↦ rw form (read_four n tail low high (rw form at s))
  | inr (inr (inr (low, form))) ↦ rw form (read_eight n tail low h (rw form at s))
]
