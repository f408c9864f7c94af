-- ===== src/Spv/Tests/Proofs.antt =====
-- A proof built from one header on the anchor, of a transaction in its block.
use pyrxd.Common.{
  ℕ, ◌≤◌, ◌≡◌, refl, bytes_eq, List, [], ◌∷◌, ◌++◌, replicate, get_elem?, none, some, ok,
}
use pyrxd.Common.Hex.{to_hex, from_hex}
use pyrxd.Common.Bytes.{reverse, le_value}
use pyrxd.Spv.Pow.{hash256, verify_header_pow, make_nbits, target_le, compare_chunks, mantissa_of}
use pyrxd.Spv.Merkle.{
  build_branch, compute_root, verify_tx_in_block, read_hex, walk, extract_merkle_root, other_depth,
  entries,
}
use pyrxd.Spv.Chain.{verify_chain, check_headers, check_header, pin_of, is_allowed, follows}
use pyrxd.Spv.Payment.{p2wpkh, verify_payment, verify_script}
use pyrxd.Spv.Payment.Script.{script_for}
use pyrxd.Spv.Witness.{
  read_varint, read_wide, varint_bytes, encode_varint, skip_inputs, skip_outputs, skip_items,
  skip_stacks, strip_segwit, strip_witness,
}
use pyrxd.Spv.Witness.Skip.{TxOut}
use pyrxd.Spv.Witness.Strip.{legacy_bytes, segwit_bytes}
use pyrxd.Spv.Tests.{toy, toy_size, toy_bytes, easy, anchor, payee, segwit_tx, segwit_tx-IsTx}
use pyrxd.Spv.Proof.Outputs.{
  walk_inputs, walk_outputs, output_offsets, first_input_is_null_outpoint, longest_script,
  max_input_scriptsig_len,
}
use pyrxd.Spv.Proof.{
  CovenantParams, SpvProof, make_params, check_nbits, hex_bytes, hex_list, longest_or_zero,
  is_among, rooted_here, at_height, matching_header, check_tx, check_inclusion, check_output, build,
}
use pyrxd.Spv.Proof.Sound.{IsProven, build-IsProven}
use pyrxd.Spv.Proof.Boundaries.{build-pays}

abbrev params : CovenantParams
params = record {
  btc_receive_hash = payee;
  btc_receive_type = p2wpkh;
  btc_satoshis = 900;
  chain_anchor = anchor;
  anchor_height = 100;
  merkle_depth = 1;
  expected_nbits = some easy;
  expected_nbits_next = none;
}

params_made : make_params params ≡ ok params
unfolding make_params check_nbits make_nbits mantissa_of
params_made = refl

abbrev sibling : List ℕ
sibling = replicate 32 5

abbrev id : List ℕ
id = hash256 toy (legacy_bytes segwit_tx)

abbrev txid : List ℕ
txid = to_hex (reverse id)

abbrev raw_tx_hex : List ℕ
raw_tx_hex = to_hex (segwit_bytes segwit_tx)

abbrev header : List ℕ
header =
    replicate 4 1
    ++ (anchor ++ (hash256 toy (sibling ++ id) ++ (replicate 4 2 ++ (easy ++ replicate 4 0))))

abbrev proof : SpvProof
proof = record {
  txid = txid;
  raw_tx = legacy_bytes segwit_tx;
  headers = header ∷ [];
  branch = 1 ∷ sibling;
  pos = 1;
  output_offset = 47;
  covenant_params = params;
}

proof_built :
    build toy params txid raw_tx_hex (to_hex header ∷ []) (to_hex sibling ∷ []) 1 47 (some 101)
    ≡ ok proof
unfolding build check_tx check_inclusion check_output hex_bytes hex_list longest_or_zero is_among
    rooted_here at_height matching_header to_hex from_hex bytes_eq strip_witness strip_segwit
    read_varint read_wide varint_bytes encode_varint skip_inputs skip_outputs skip_items skip_stacks
    first_input_is_null_outpoint longest_script max_input_scriptsig_len walk_inputs walk_outputs
    output_offsets verify_chain check_headers check_header pin_of is_allowed follows
    verify_header_pow make_nbits target_le compare_chunks mantissa_of build_branch entries
    compute_root walk extract_merkle_root verify_tx_in_block read_hex other_depth verify_payment
    verify_script
proof_built = refl

build-IsProven_example : IsProven toy params raw_tx_hex proof (some 101)
build-IsProven_example =
    build-IsProven toy params toy_size toy_bytes txid raw_tx_hex (to_hex header ∷ [])
      (to_hex sibling ∷ []) 1 47 (some 101) proof proof_built

tx_read : from_hex raw_tx_hex ≡ some (segwit_bytes segwit_tx)
unfolding from_hex to_hex varint_bytes
tx_read = refl

build-pays_example :
    (i : ℕ) × (o : TxOut) × (get_elem? segwit_tx.outputs i ≡ some o)
    × (o.script ≡ script_for p2wpkh payee)
    × (900 ≤ le_value o.value)
build-pays_example =
    build-pays toy params toy_size toy_bytes segwit_tx txid raw_tx_hex (to_hex header ∷ [])
      (to_hex sibling ∷ []) 1 47 (some 101) proof segwit_tx-IsTx tx_read proof_built
