-- ===== src/Spv/Merkle.antt =====
-- src/pyrxd/spv/merkle.py: Merkle branches in the covenant's wire format, entries of a direction byte
-- and a sibling of 32 bytes. Texts are lists of ASCII codes.
pub mod Branch
pub mod Tree
pub mod Binding
pub mod Inclusion
use pyrxd.Common.{
  ℕ, zero, suc, ◌+◌, ◌*◌, ◌/◌, ◌%◌, ◌^◌, ◌≡◌, Bool, true, false, not, ltb, leb, ◌==◌, if◌then◌else◌,
  bytes_eq, length, List, [], ◌∷◌, ◌++◌, take, drop, get_or, Option, none, some, Result, ok, err,
  ◌>>=◌, ◌>>◌, refuse,
}
use pyrxd.Common.Hex.{from_hex}
use pyrxd.Common.Bytes.{slice, reverse}
use pyrxd.Spv.Pow.{hash256}

pub data MerkleError : Type 0 where
  pos_beyond_depth sibling_not_64 sibling_not_hex branch_misaligned : MerkleError
  txid_not_64 txid_not_hex header_not_80 tx_too_short coinbase : MerkleError
  depth_mismatch txid_value_error txid_mismatch root_mismatch : MerkleError

-- `bytes.fromhex(text)`, with the error for its `ValueError`.
unfoldable pub read_hex : MerkleError → List ℕ → Result MerkleError (List ℕ)
read_hex bad text = elim (from_hex text) [ none ↦ err bad | some raw ↦ ok raw ]

-- The loop of `build_branch`; `pos` is shifted by one bit with every sibling.
unfoldable pub entries : ℕ → List (List ℕ) → Result MerkleError (List ℕ)
entries pos [] = ok []
entries pos (sibling ∷ siblings) = do
  refuse (not (length sibling == 64)) sibling_not_64
  sibling_be ← read_hex sibling_not_hex sibling
  rest ← entries (pos / 2) siblings
  ok (pos % 2 ∷ (reverse sibling_be ++ rest))

-- `build_branch`.
unfoldable pub build_branch : List (List ℕ) → ℕ → Result MerkleError (List ℕ)
build_branch merkle_be pos = do
  refuse (not (pos / 2 ^ length merkle_be == 0)) pos_beyond_depth
  entries pos merkle_be

-- `extract_merkle_root`.
unfoldable pub extract_merkle_root : List ℕ → Result MerkleError (List ℕ)
extract_merkle_root header = do
  refuse (not (length header == 80)) header_not_80
  ok (slice 36 32 header)

unfoldable pub other_depth : Option ℕ → ℕ → Bool
other_depth none depth = false
other_depth (some expected) depth = not (depth == expected)

module _ (sha256 : List ℕ → List ℕ) where
  -- One step of the loop of `compute_root`, on the branch from the current entry on.
  abbrev pub parent : List ℕ → List ℕ → List ℕ
  parent branch current =
      if get_or branch 0 0 == 0
      then hash256 sha256 (current ++ slice 1 32 branch)
      else hash256 sha256 (slice 1 32 branch ++ current)

  unfoldable pub walk : ℕ → List ℕ → List ℕ → List ℕ
  walk zero branch current = current
  walk (suc depth) branch current = walk depth (drop 33 branch) (parent branch current)

  -- `compute_root`.
  unfoldable pub compute_root : List ℕ → List ℕ → Result MerkleError (List ℕ)
  compute_root txid_be_hex branch = do
    refuse (not (length branch % 33 == 0)) branch_misaligned
    refuse (not (length txid_be_hex == 64)) txid_not_64
    leaf_be ← read_hex txid_not_hex txid_be_hex
    ok (walk (length branch / 33) branch (reverse leaf_be))

  -- `verify_tx_in_block`.
  unfoldable pub verify_tx_in_block :
      List ℕ → List ℕ → List ℕ → ℕ → List ℕ → Option ℕ → Result MerkleError (Unit {0})
  verify_tx_in_block raw_tx txid_be_hex branch pos header expected_depth = do
    refuse (leb (length raw_tx) 64) tx_too_short
    refuse (pos == 0) coinbase
    refuse (not (length branch % 33 == 0)) branch_misaligned
    refuse (not (pos / 2 ^ (length branch / 33) == 0)) pos_beyond_depth
    refuse (other_depth expected_depth (length branch / 33)) depth_mismatch
    claimed_txid_be ← read_hex txid_value_error txid_be_hex
    refuse (not (bytes_eq (hash256 sha256 raw_tx) (reverse claimed_txid_be))) txid_mismatch
    computed_root ← compute_root txid_be_hex branch
    expected_root ← extract_merkle_root header
    refuse (not (bytes_eq computed_root expected_root)) root_mismatch
    ok tt
