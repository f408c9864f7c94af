-- ===== src/Spv/Tests.antt =====
-- Runs of the SPV modules, with a toy in the place of SHA-256: the sum of the bytes.
mod Proofs
use pyrxd.Common.{
  ℕ, ◌+◌, ◌%◌, ◌≡◌, ◌↔◌, ◌⊎◌, refl, arith, bytes_eq, length, List, [], ◌∷◌, ◌++◌, map, replicate,
  none, some, ok,
}
use pyrxd.Common.Hex.{IsBytes, to_hex, from_hex}
use pyrxd.Common.Bytes.{reverse}
use pyrxd.Spv.Pow.{hash256, verify_header_pow}
use pyrxd.Spv.Pow.Target.{IsMined, verify_header_pow_iff}
use pyrxd.Spv.Merkle.{
  build_branch, compute_root, verify_tx_in_block, read_hex, walk, extract_merkle_root, other_depth,
}
use pyrxd.Spv.Merkle.Branch.{IsHash, AllHashes, display}
use pyrxd.Spv.Merkle.Tree.{Tree, leaf, node, root, IsPath, here, right, compute_root-IsPath}
use pyrxd.Spv.Merkle.Binding.{Collision}
use pyrxd.Spv.Merkle.Inclusion.{IsIncluded, verify_tx_in_block_iff, verify_tx_in_block-binds}
use pyrxd.Spv.Chain.{verify_chain, pinned}
use pyrxd.Spv.Chain.Linked.{IsLinked, verify_chain_iff}
use pyrxd.Spv.Payment.{p2wpkh, verify_payment}
use pyrxd.Spv.Payment.Output.{IsPaid, verify_payment_iff}
use pyrxd.Spv.Witness.{varint_bytes, strip_witness}
use pyrxd.Spv.Witness.Cursor.{Stands}
use pyrxd.Spv.Witness.Skip.{TxIn, TxOut}
use pyrxd.Spv.Witness.Strip.{Tx, IsTx, segwit_bytes, legacy_bytes, strip_witness-segwit_bytes}

abbrev sum : List ℕ → ℕ
sum [] = 0
sum (b ∷ bs) = b + sum bs

abbrev toy : List ℕ → List ℕ
toy raw = sum raw % 256 ∷ replicate 31 0

toy_size : (raw : List ℕ) → length (toy raw) ≡ 32
toy_size raw = refl

toy_bytes : (raw : List ℕ) → IsBytes (toy raw)
toy_bytes raw = omega arith

abbrev left_leaf : List ℕ
left_leaf = replicate 32 3

abbrev right_leaf : List ℕ
right_leaf = replicate 32 4

abbrev tree : Tree
tree = node (leaf left_leaf) (leaf right_leaf)

path : IsPath toy tree 1 1 right_leaf (root toy (leaf left_leaf) ∷ [])
path = right (leaf left_leaf) (leaf right_leaf) 0 0 right_leaf [] (here right_leaf)

leaf-IsHash : IsHash right_leaf
leaf-IsHash = record { size = refl; bytes = omega arith }

sibling_hashes : AllHashes (root toy (leaf left_leaf) ∷ [])
unfolding root
sibling_hashes = (record { size = refl; bytes = omega arith }, tt)

compute_root-IsPath_example :
    (branch : List ℕ) × (build_branch (map display (root toy (leaf left_leaf) ∷ [])) 1 ≡ ok branch)
    × (compute_root toy (display right_leaf) branch ≡ ok (root toy tree))
compute_root-IsPath_example =
    compute_root-IsPath toy tree 1 1 right_leaf (root toy (leaf left_leaf) ∷ []) path leaf-IsHash
      sibling_hashes

abbrev tx : List ℕ
tx = replicate 70 1

-- Another transaction with the same sum.
abbrev forged : List ℕ
forged = 2 ∷ 0 ∷ replicate 68 1

abbrev txid : List ℕ
txid = to_hex (reverse (70 ∷ replicate 31 0))

abbrev branch : List ℕ
branch = 1 ∷ replicate 32 5

abbrev block : List ℕ
block = replicate 36 0 ++ (230 ∷ replicate 43 0)

verify_tx_in_block_iff_example :
    (verify_tx_in_block toy tx txid branch 1 block (some 1) ≡ ok tt)
    ↔ IsIncluded toy tx txid branch 1 block (some 1)
verify_tx_in_block_iff_example = verify_tx_in_block_iff toy tx txid branch 1 block (some 1)

tx_included : verify_tx_in_block toy tx txid branch 1 block none ≡ ok tt
unfolding verify_tx_in_block read_hex from_hex to_hex walk compute_root extract_merkle_root
    other_depth bytes_eq
tx_included = refl

forged_included : verify_tx_in_block toy forged txid branch 1 block none ≡ ok tt
unfolding verify_tx_in_block read_hex from_hex to_hex walk compute_root extract_merkle_root
    other_depth bytes_eq
forged_included = refl

verify_tx_in_block-binds_example : (tx ≡ forged) ⊎ Collision toy
verify_tx_in_block-binds_example =
    verify_tx_in_block-binds toy tx forged txid txid branch branch 1 1 block 1 toy_size refl refl
      (refl, tt) tx_included forged_included

-- A header with the exponent 0x1d and the mantissa 0xffff.
abbrev easy : List ℕ
easy = 0xff ∷ 0xff ∷ 0x00 ∷ 0x1d ∷ []

abbrev header_on : List ℕ → List ℕ
header_on prev = replicate 4 1 ++ (prev ++ (replicate 36 2 ++ (easy ++ replicate 4 0)))

abbrev anchor : List ℕ
anchor = replicate 32 9

verify_header_pow_iff_example :
    (verify_header_pow toy (header_on anchor) ≡ ok (hash256 toy (header_on anchor))) ↔ (
      IsMined toy (header_on anchor)
      × (hash256 toy (header_on anchor) ≡ hash256 toy (header_on anchor)))
verify_header_pow_iff_example =
    verify_header_pow_iff toy (header_on anchor) toy_size toy_bytes (omega arith)
      (hash256 toy (header_on anchor))

abbrev next_header : List ℕ
next_header = header_on (hash256 toy (header_on anchor))

abbrev hashes : List (List ℕ)
hashes = hash256 toy (header_on anchor) ∷ hash256 toy next_header ∷ []

verify_chain_iff_example :
    (verify_chain toy (header_on anchor ∷ next_header ∷ []) (some anchor) (some easy) (some easy)
      ≡ ok hashes)
    ↔ (IsLinked toy (pinned easy easy) (some anchor) (header_on anchor ∷ next_header ∷ [])
        × (hashes ≡ map (hash256 toy) (header_on anchor ∷ next_header ∷ [])))
verify_chain_iff_example =
    verify_chain_iff toy toy_size toy_bytes (header_on anchor) (next_header ∷ []) hashes anchor easy
      easy (omega arith) refl refl refl

-- An output of 1000 satoshis to a witness key hash, after two bytes.
abbrev payee : List ℕ
payee = replicate 20 8

abbrev output : List ℕ
output = 7 ∷ 7 ∷ 0xe8 ∷ 0x03 ∷ (replicate 6 0 ++ (22 ∷ 0x00 ∷ 0x14 ∷ payee))

verify_payment_iff_example :
    (verify_payment output 2 payee p2wpkh 900 ≡ ok tt) ↔ IsPaid output 2 payee p2wpkh 900
verify_payment_iff_example = verify_payment_iff output 2 payee p2wpkh 900

abbrev spend : TxIn
spend = record { prevout = replicate 36 6; script = []; sequence = replicate 4 255 }

abbrev pay : TxOut
pay = record { value = replicate 8 1; script = 0x00 ∷ 0x14 ∷ payee }

abbrev segwit_tx : Tx
segwit_tx = record {
  version = 2 ∷ 0 ∷ 0 ∷ 0 ∷ [];
  inputs = spend ∷ [];
  outputs = pay ∷ [];
  stacks = (replicate 71 3 ∷ replicate 33 2 ∷ []) ∷ [];
  locktime = replicate 4 0;
}

segwit_tx-IsTx : IsTx segwit_tx
segwit_tx-IsTx = omega arith

strip_witness-segwit_bytes_example :
    strip_witness (segwit_bytes segwit_tx) ≡ ok (legacy_bytes segwit_tx)
strip_witness-segwit_bytes_example = strip_witness-segwit_bytes segwit_tx segwit_tx-IsTx
