-- ===== src/Spv/Pow/Target.antt =====
-- What an accepted header shows: its double hash, read as a number, is below the target of its nBits.
use pyrxd.Common.{
  ℕ, zero, suc, ◌+◌, ◌-◌, ◌*◌, ◌/◌, ◌%◌, ◌^◌, ◌≤◌, ◌<◌, ◌≡◌, ◌≢◌, ◌↔◌, refl, ap, ◌∙◌, arith, Bool,
  true, false, not, ltb, ◌==◌, length, length-append, length-take, length-drop, length-replicate,
  List, [], ◌∷◌, ◌++◌, take, drop, replicate, get_or, Result, ok, err, ◌>>=◌, ◌>>◌, refuse, ==_iff,
}
use pyrxd.Common.Hex.{IsBytes}
use pyrxd.Common.Bytes.{
  slice, reverse, le_value, be_value, length-reverse, IsBytes-reverse, IsBytes-append, IsBytes-take,
  IsBytes-drop,
}
use pyrxd.Spv.Pow.{
  PowError, header_not_80, exponent_too_small, invariant_violated, hash256, mantissa_of, make_nbits,
  target_le, compare_chunks, verify_header_pow,
}
use mathlib.Core.Path.{subst}
use native.Mathlib.Nat.{mul_comm, zero-add}
use pyrxd.Spv.Pow.Compare.{
  be_value-reverse, le_value-append, le_value-replicate, compare_chunks_iff,
}

target_value :
    (raw : List ℕ)
    → length raw ≡ 4
    → le_value (target_le raw) ≡ mantissa_of raw * 256 ^ (get_or raw 3 0 - 3)
unfolding target_le mantissa_of
target_value (a ∷ b ∷ c ∷ e ∷ []) l =
    le_value-append (replicate (e - 3) 0) (a ∷ b ∷ c ∷ replicate (32 - e) 0)
    ∙ rw
        (
          le_value-replicate (e - 3),
          le_value-replicate (32 - e),
          length-replicate {A = ℕ} (e - 3) 0,
        )
        (arrange (256 ^ (e - 3)))
  where
    arrange : (p : ℕ) → 0 + p * (a + 256 * (b + 256 * (c + 0))) ≡ (c * 2 ^ 16 + b * 2 ^ 8 + a) * p
    arrange p = zero-add _ ∙ mul_comm p _ ∙ ap (λ x. x * p) (omega arith)
target_value (a ∷ b ∷ c ∷ e ∷ x ∷ raw) l = absurd (omega arith)
target_value (a ∷ b ∷ c ∷ []) l = absurd (omega arith)
target_value (a ∷ b ∷ []) l = absurd (omega arith)
target_value (a ∷ []) l = absurd (omega arith)
target_value [] l = absurd (omega arith)

length-target_le :
    (raw : List ℕ)
    → length raw ≡ 4
    → 3 ≤ get_or raw 3 0
    → get_or raw 3 0 ≤ 0x1d
    → length (target_le raw) ≡ 32
unfolding target_le
length-target_le raw l low high = omega (
  arith,
  length-append (replicate (get_or raw 3 0 - 3) 0)
      (take 3 raw ++ replicate (32 - get_or raw 3 0) 0),
  length-append (take 3 raw) (replicate (32 - get_or raw 3 0) 0),
  length-take 3 raw,
  length-replicate {A = ℕ} (get_or raw 3 0 - 3) 0,
  length-replicate {A = ℕ} (32 - get_or raw 3 0) 0,
)

-- What an accepted header shows.
pub record IsMined (sha256 : List ℕ → List ℕ) (header : List ℕ) : Type 0 where
  pub size : length header ≡ 80
  pub exponent_low : 3 ≤ get_or (slice 72 4 header) 3 0
  pub exponent_high : get_or (slice 72 4 header) 3 0 ≤ 0x1d
  pub mantissa_pos : 0 < mantissa_of (slice 72 4 header)
  pub mantissa_sign : mantissa_of (slice 72 4 header) / 2 ^ 23 % 2 ≢ 1
  pub below :
      le_value (hash256 sha256 header)
      < mantissa_of (slice 72 4 header) * 256 ^ (get_or (slice 72 4 header) 3 0 - 3)

IsBytes-replicate : (n : ℕ) → IsBytes (replicate n 0)
IsBytes-replicate zero = tt
IsBytes-replicate (suc n) = (omega arith, IsBytes-replicate n)

IsBytes-target_le : (raw : List ℕ) → IsBytes raw → IsBytes (target_le raw)
unfolding target_le
IsBytes-target_le raw b =
    IsBytes-append (replicate (get_or raw 3 0 - 3) 0) _ (IsBytes-replicate (get_or raw 3 0 - 3)) (
      IsBytes-append (take 3 raw) _ (IsBytes-take 3 raw b)
        (IsBytes-replicate (32 - get_or raw 3 0)))

make_nbits_lem :
    (raw q : List ℕ)
    → make_nbits raw ≡ ok q
    → (get_or raw 3 0 ≤ 0x1d)
      × (mantissa_of raw / 2 ^ 23 % 2 ≢ 1)
      × (0 < mantissa_of raw)
      × (q ≡ raw)
unfolding make_nbits
make_nbits_lem raw q h = (ground arith, λ e. ground arith, ground arith, ground arith)

-- The checks of `verify_header_pow` one by one.
staged :
    (first : Bool) (m : Result PowError (List ℕ)) (small wrong : List ℕ → Bool)
    (cmp : List ℕ → Result PowError (Unit {0})) (out h : List ℕ)
    → (refuse (not first) header_not_80
        >> (m >>= (λ raw.
            refuse (small raw) exponent_too_small
            >> (refuse (wrong raw) invariant_violated >> (cmp raw >> ok out)))))
      ≡ ok h
    → (first ≡ true)
      × (raw : List ℕ) × (m ≡ ok raw)
      × (small raw ≡ false)
      × (cmp raw ≡ ok tt)
      × (h ≡ out)
staged false m small wrong cmp out h e = cc
staged true (err x) small wrong cmp out h e = cc
staged true (ok raw) small wrong cmp out h e =
    (refl, raw, refl, ground arith, ground arith, ground arith)

not-ltb : (a b : ℕ) → ltb a b ≡ false → b ≤ a
not-ltb a b h = ground arith

module _ (sha256 : List ℕ → List ℕ) (header : List ℕ) (size : (d : List ℕ) → length (sha256 d) ≡ 32)
    (bytes : (d : List ℕ) → IsBytes (sha256 d)) (header_bytes : IsBytes header) where
  abbrev nbits : List ℕ
  nbits = slice 72 4 header

  compared :
      length (target_le nbits) ≡ 32
      → IsBytes (target_le nbits)
      → (compare_chunks 8 (reverse (hash256 sha256 header)) (reverse (target_le nbits)) ≡ ok tt)
        ↔ (le_value (hash256 sha256 header) < le_value (target_le nbits))
  compared l b =
      subst
        (λ x.
          (compare_chunks 8 (reverse (hash256 sha256 header)) (reverse (target_le nbits)) ≡ ok tt)
          ↔ (x < le_value (target_le nbits)))
        (be_value-reverse (hash256 sha256 header))
        (subst
          (λ x.
            (compare_chunks 8 (reverse (hash256 sha256 header)) (reverse (target_le nbits)) ≡ ok tt)
            ↔ (be_value (reverse (hash256 sha256 header)) < x))
          (be_value-reverse (target_le nbits))
          (compare_chunks_iff 8 _ _ (IsBytes-reverse _ (bytes _)) (IsBytes-reverse _ b)
            (length-reverse (hash256 sha256 header) ∙ size _)
            (length-reverse (target_le nbits) ∙ l)))

  nbits_bytes : IsBytes nbits
  nbits_bytes = IsBytes-take 4 (drop 72 header) (IsBytes-drop 72 header header_bytes)

  length-nbits : length header ≡ 80 → length nbits ≡ 4
  length-nbits l = omega (arith, length-take 4 (drop 72 header), length-drop 72 header)

  -- The comparison of the source is the comparison of numbers.
  compared_value :
      length header ≡ 80
      → 3 ≤ get_or nbits 3 0
      → get_or nbits 3 0 ≤ 0x1d
      → (compare_chunks 8 (reverse (hash256 sha256 header)) (reverse (target_le nbits)) ≡ ok tt)
        ↔ (le_value (hash256 sha256 header) < mantissa_of nbits * 256 ^ (get_or nbits 3 0 - 3))
  compared_value l low high =
      subst
        (λ x.
          (compare_chunks 8 (reverse (hash256 sha256 header)) (reverse (target_le nbits)) ≡ ok tt)
          ↔ (le_value (hash256 sha256 header) < x))
        (target_value nbits (length-nbits l))
        (compared (length-target_le nbits (length-nbits l) low high)
          (IsBytes-target_le nbits nbits_bytes))

  verify_header_pow-IsMined :
      (h : List ℕ)
      → verify_header_pow sha256 header ≡ ok h
      → IsMined sha256 header × (h ≡ hash256 sha256 header)
  unfolding verify_header_pow
  verify_header_pow-IsMined h accepted =
      let (long, raw, made, low, less, eq) =
        staged (length header == 80) (make_nbits nbits) (λ raw. ltb (get_or raw 3 0) 3)
          (λ raw. not (length (target_le raw) == 32))
          (λ raw. compare_chunks 8 (reverse (hash256 sha256 header)) (reverse (target_le raw))) _ h
          accepted in
      let (high, sign, pos, same) = make_nbits_lem nbits raw made in
      mined raw same ((==_iff (length header) 80).0 long) high sign pos (not-ltb _ _ low) less eq
    where
      mined :
          (raw : List ℕ)
          → raw ≡ nbits
          → length header ≡ 80
          → get_or nbits 3 0 ≤ 0x1d
          → mantissa_of nbits / 2 ^ 23 % 2 ≢ 1
          → 0 < mantissa_of nbits
          → 3 ≤ get_or raw 3 0
          → compare_chunks 8 (reverse (hash256 sha256 header)) (reverse (target_le raw)) ≡ ok tt
          → h ≡ hash256 sha256 header
          → IsMined sha256 header × (h ≡ hash256 sha256 header)
      mined raw same long high sign pos low less eq =
          let low' : 3 ≤ get_or nbits 3 0 = rw (← same) low in
          (
            record {
              size = long;
              exponent_low = low';
              exponent_high = high;
              mantissa_pos = pos;
              mantissa_sign = sign;
              below = (compared_value long low' high).0 (rw (← same) less);
            },
            eq,
          )

  verify_header_pow_of :
      IsMined sha256 header → verify_header_pow sha256 header ≡ ok (hash256 sha256 header)
  unfolding verify_header_pow make_nbits
  verify_header_pow_of k =
      let less = (compared_value k.size k.exponent_low k.exponent_high).1 k.below in
      let four = length-nbits k.size in
      let full = length-target_le nbits four k.exponent_low k.exponent_high in
      ground (arith, k.size, k.exponent_low, k.exponent_high, k.mantissa_pos, k.mantissa_sign)

  -- A header of bytes is accepted exactly when it has 80 bytes, its exponent is from 3 to 29, its
  -- mantissa is positive without the sign bit, and its double hash, read in little-endian order, is
  -- below `mantissa * 256 ^ (exponent - 3)`; the result is that hash. SHA-256 gives 32 bytes.
  pub verify_header_pow_iff :
      (h : List ℕ)
      → (verify_header_pow sha256 header ≡ ok h)
        ↔ (IsMined sha256 header × (h ≡ hash256 sha256 header))
  verify_header_pow_iff h = (verify_header_pow-IsMined h, λ k. rw k.1 (verify_header_pow_of k.0))
