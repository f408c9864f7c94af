-- ===== src/Spv/Merkle/Inclusion.antt =====
-- What an accepted inclusion proof shows.
use pyrxd.Common.{
  ℕ, zero, suc, ◌*◌, ◌/◌, ◌%◌, ◌^◌, ◌<◌, ◌≡◌, ◌↔◌, ◌⊎◌, inl, inr, refl, sym, ◌∙◌, arith, true,
  false, ◌==◌, bytes_eq_iff, length, List, Option, none, some, ok, Result-cases,
}
use pyrxd.Common.Bytes.{slice, reverse}
use pyrxd.Spv.Pow.{hash256}
use pyrxd.Spv.Merkle.{
  read_hex, txid_value_error, txid_not_hex, walk, compute_root, extract_merkle_root,
  verify_tx_in_block, other_depth,
}
use pyrxd.Spv.Merkle.Binding.{Collision, SameTurns, eq_or_Collision, walk-binds}
use mathlib.Core.Path.{subst}
use native.Mathlib.Nat.{div-eq_of_lt, div-lt_iff_lt-mul}

div-eq-zero_lt : (m n : ℕ) → 0 < n → m / n ≡ 0 → m < n
div-eq-zero_lt m n pos h =
    omega (arith, (div-lt_iff_lt-mul {k = n} {x = m} {y = 1} pos).0 (omega arith))

pow2_pos : (k : ℕ) → 0 < 2 ^ k
pow2_pos zero = omega arith
pow2_pos (suc k) = omega (arith, pow2_pos k, native.Mathlib.Nat.pow-suc 2 k)

within_iff : (pos k : ℕ) → ((pos / 2 ^ k == 0) ≡ true) ↔ (pos < 2 ^ k)
within_iff pos k =
    (λ h. div-eq-zero_lt pos (2 ^ k) (pow2_pos k) (ground arith), λ h. rw (div-eq_of_lt h))

read_hex_same :
    (text raw : List ℕ)
    → read_hex txid_value_error text ≡ ok raw
    → read_hex txid_not_hex text ≡ ok raw
unfolding read_hex
read_hex_same text raw h = ground arith

expected_iff : (e : Option ℕ) (d : ℕ) → (other_depth e d ≡ false) ↔ ((n : ℕ) → e ≡ some n → d ≡ n)
unfolding other_depth
expected_iff none d = (λ h n bad. cc, λ h. refl)
expected_iff (some m) d = (λ h n same. ground arith, λ h. ground (arith, h m refl))

module _ (sha256 : List ℕ → List ℕ) (raw_tx txid_be_hex branch : List ℕ) (pos : ℕ) (header : List ℕ)
    (expected_depth : Option ℕ) where
  abbrev pub depth : ℕ
  depth = length branch / 33

  -- The transaction is in the block of this header, at a place that is not the coinbase's.
  pub record IsIncluded : Type 0 where
    pub txid_be : List ℕ
    pub long : 64 < length raw_tx
    pub not_coinbase : 0 < pos
    pub aligned : length branch % 33 ≡ 0
    pub within : pos < 2 ^ depth
    pub expected : (n : ℕ) → expected_depth ≡ some n → depth ≡ n
    pub txid_size : length txid_be_hex ≡ 64
    pub txid : read_hex txid_value_error txid_be_hex ≡ ok txid_be
    pub hashed : hash256 sha256 raw_tx ≡ reverse txid_be
    pub header_size : length header ≡ 80
    pub rooted : walk sha256 depth branch (hash256 sha256 raw_tx) ≡ slice 36 32 header

  verify_tx_in_block-IsIncluded :
      verify_tx_in_block sha256 raw_tx txid_be_hex branch pos header expected_depth ≡ ok tt
      → IsIncluded
  unfolding verify_tx_in_block compute_root extract_merkle_root
  verify_tx_in_block-IsIncluded h = elim (Result-cases (read_hex txid_value_error txid_be_hex)) [
    | inr (e, bad) ↦ absurd (ground arith)
    | inl (be, found) ↦
        let same = read_hex_same txid_be_hex be found in
        let hashed = (bytes_eq_iff (hash256 sha256 raw_tx) (reverse be)).0 (ground arith) in
        record {
          txid_be = be;
          long = ground arith;
          not_coinbase = ground arith;
          aligned = ground arith;
          within = (within_iff pos depth).0 (ground arith);
          expected = (expected_iff expected_depth depth).0 (ground arith);
          txid_size = ground arith;
          txid = found;
          hashed = hashed;
          header_size = ground arith;
          rooted = rw hashed (
              (bytes_eq_iff (walk sha256 depth branch (reverse be)) (slice 36 32 header)).0
                (ground arith));
        }
  ]

  verify_tx_in_block_of :
      IsIncluded
      → verify_tx_in_block sha256 raw_tx txid_be_hex branch pos header expected_depth ≡ ok tt
  unfolding verify_tx_in_block compute_root extract_merkle_root
  verify_tx_in_block_of k =
      let within = (within_iff pos depth).1 k.within in
      let expected = (expected_iff expected_depth depth).1 k.expected in
      let same = read_hex_same txid_be_hex k.txid_be k.txid in
      let hashed = (bytes_eq_iff (hash256 sha256 raw_tx) (reverse k.txid_be)).1 k.hashed in
      let rooted =
        (bytes_eq_iff (walk sha256 depth branch (reverse k.txid_be)) (slice 36 32 header)).1
          (rw (← k.hashed) k.rooted) in
      ground (arith, k.long, k.not_coinbase, k.aligned, k.txid_size, k.txid, k.header_size)

  -- A proof is accepted exactly when the transaction is longer than 64 bytes, hashes to the claimed
  -- identifier and climbs by the branch to the root in the header, at a position other than 0 that
  -- fits the depth of the branch, which is the depth expected, if any.
  pub verify_tx_in_block_iff :
      (verify_tx_in_block sha256 raw_tx txid_be_hex branch pos header expected_depth ≡ ok tt)
      ↔ IsIncluded
  verify_tx_in_block_iff = (verify_tx_in_block-IsIncluded, verify_tx_in_block_of)

-- A header proves one transaction for one place: two accepted transactions, on branches of one depth
-- that turn the same way at every step, are the same bytes unless SHA-256 has a collision.
pub verify_tx_in_block-binds :
    (sha256 : List ℕ → List ℕ) (raw raw' txid txid' branch branch' : List ℕ) (pos pos' : ℕ)
    (header : List ℕ) (n : ℕ)
    → ((d : List ℕ) → length (sha256 d) ≡ 32)
    → length branch ≡ n * 33
    → length branch' ≡ n * 33
    → SameTurns sha256 n branch branch'
    → verify_tx_in_block sha256 raw txid branch pos header none ≡ ok tt
    → verify_tx_in_block sha256 raw' txid' branch' pos' header none ≡ ok tt
    → (raw ≡ raw') ⊎ Collision sha256
verify_tx_in_block-binds sha256 raw raw' txid txid' branch branch' pos pos' header n size lb lb'
      turns ok_ ok_' =
    let k = verify_tx_in_block-IsIncluded sha256 raw txid branch pos header none ok_ in
    let k' = verify_tx_in_block-IsIncluded sha256 raw' txid' branch' pos' header none ok_' in
    elim (walk-binds sha256 n branch branch' _ _ size (size _ ∙ sym (size _)) lb lb' turns
      (rooted k lb ∙ sym (rooted k' lb'))) [
        | inr collision ↦ inr collision
        | inl same ↦ eq_or_Collision sha256 raw raw' same
      ]
  where
    rooted :
        {raw txid branch : List ℕ} {pos : ℕ} (k : IsIncluded sha256 raw txid branch pos header none)
        → length branch ≡ n * 33
        → walk sha256 n branch (hash256 sha256 raw) ≡ slice 36 32 header
    rooted {raw = raw} {txid = txid} {branch = branch} k l =
        subst (λ m. walk sha256 m branch (hash256 sha256 raw) ≡ slice 36 32 header)
          (omega (arith, l)) k.rooted

-- The position is no part of what is checked beyond its range: any two positions that are not 0 and
-- fit the depth of the branch get the same answer for one branch.
pub verify_tx_in_block_pos :
    (sha256 : List ℕ → List ℕ) (raw txid branch : List ℕ) (pos pos' : ℕ) (header : List ℕ)
    (expected : Option ℕ)
    → 0 < pos
    → 0 < pos'
    → pos < 2 ^ (length branch / 33)
    → pos' < 2 ^ (length branch / 33)
    → verify_tx_in_block sha256 raw txid branch pos header expected
      ≡ verify_tx_in_block sha256 raw txid branch pos' header expected
unfolding verify_tx_in_block
verify_tx_in_block_pos sha256 raw txid branch pos pos' header expected p p' w w' = rw (
  (within_iff pos (length branch / 33)).1 w,
  (within_iff pos' (length branch / 33)).1 w',
  not_zero pos p,
  not_zero pos' p',
)
  where
    not_zero : (n : ℕ) → 0 < n → (n == 0) ≡ false
    not_zero n h = ground arith
