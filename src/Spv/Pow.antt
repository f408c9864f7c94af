-- ===== src/Spv/Pow.antt =====
-- src/pyrxd/spv/pow.py and `Nbits` of src/pyrxd/security/types.py.
pub mod Compare
pub mod Target
use pyrxd.Common.{
  ℕ, zero, suc, ◌+◌, ◌-◌, ◌*◌, ◌/◌, ◌%◌, ◌^◌, ◌≤◌, ◌<◌, ◌≡◌, Bool, true, false, not, ltb, leb, ◌==◌,
  if◌then◌else◌, length, List, [], ◌∷◌, ◌++◌, take, drop, replicate, get_or, Result, ok, err, ◌>>=◌,
  ◌>>◌, refuse,
}
use pyrxd.Common.Bytes.{slice, reverse, be_value}

-- `hash256`.
abbrev pub hash256 : (List ℕ → List ℕ) → List ℕ → List ℕ
hash256 sha256 raw = sha256 (sha256 raw)

pub data PowError : Type 0 where
  header_not_80 nbits_not_4 exponent_too_large mantissa_negative mantissa_zero : PowError
  exponent_too_small invariant_violated hash_not_below hash_equals_target : PowError

-- `mantissa` of `Nbits`; the three bytes do not overlap, so that `|` adds them.
unfoldable pub mantissa_of : List ℕ → ℕ
mantissa_of raw = get_or raw 2 0 * 2 ^ 16 + get_or raw 1 0 * 2 ^ 8 + get_or raw 0 0

-- `Nbits.__new__`.
unfoldable pub make_nbits : List ℕ → Result PowError (List ℕ)
make_nbits raw = do
  refuse (not (length raw == 4)) nbits_not_4
  refuse (ltb 0x1d (get_or raw 3 0)) exponent_too_large
  refuse (mantissa_of raw / 2 ^ 23 % 2 == 1) mantissa_negative
  refuse (mantissa_of raw == 0) mantissa_zero
  ok raw

-- `target_le` of `verify_header_pow`.
unfoldable pub target_le : List ℕ → List ℕ
target_le raw =
    replicate (get_or raw 3 0 - 3) 0 ++ (take 3 raw ++ replicate (32 - get_or raw 3 0) 0)

-- The comparison by chunks of four bytes, most significant first, over the chunks that are left.
unfoldable pub compare_chunks : ℕ → List ℕ → List ℕ → Result PowError (Unit {0})
compare_chunks zero hash_be target_be = err hash_equals_target
compare_chunks (suc n) hash_be target_be =
    let rest = compare_chunks n (drop 4 hash_be) (drop 4 target_be) in
    if ltb (be_value (take 4 hash_be)) (be_value (take 4 target_be))
    then ok tt
    else if ltb (be_value (take 4 target_be)) (be_value (take 4 hash_be))
    then err hash_not_below
    else rest

-- `verify_header_pow`.
unfoldable pub verify_header_pow : (List ℕ → List ℕ) → List ℕ → Result PowError (List ℕ)
verify_header_pow sha256 header = do
  refuse (not (length header == 80)) header_not_80
  nbits ← make_nbits (slice 72 4 header)
  refuse (ltb (get_or nbits 3 0) 3) exponent_too_small
  refuse (not (length (target_le nbits) == 32)) invariant_violated
  compare_chunks 8 (reverse (hash256 sha256 header)) (reverse (target_le nbits))
  ok (hash256 sha256 header)
