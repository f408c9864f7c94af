-- ===== src/Spv/Proof.antt =====
-- src/pyrxd/spv/proof.py: the parameters of a covenant, and `SpvProofBuilder.build`, which runs every
-- check of the package on a payment before there is a proof.
pub mod Outputs
pub mod Sound
pub mod Boundaries
use pyrxd.Common.{
  ℕ, suc, ◌+◌, ◌-◌, ◌≡◌, Bool, true, false, not, ◌&&◌, ◌||◌, ltb, leb, ◌==◌, if◌then◌else◌,
  bytes_eq, length, List, [], ◌∷◌, get_elem?, Option, none, some, Result, ok, err, ◌>>=◌, ◌>>◌,
  refuse, map_err,
}
use pyrxd.Common.Hex.{from_hex}
use pyrxd.Common.Bytes.{reverse}
use pyrxd.Spv.Pow.{PowError, hash256, make_nbits}
use pyrxd.Spv.Merkle.{
  MerkleError, build_branch, compute_root, extract_merkle_root, verify_tx_in_block,
}
use pyrxd.Spv.Chain.{ChainError, verify_chain}
use pyrxd.Spv.Payment.{OutputType, PaymentError, is_known, hash_length_of, verify_payment}
use pyrxd.Spv.Witness.{WitnessError, strip_witness}
use pyrxd.Spv.Proof.Outputs.{
  ParseError, output_offsets, first_input_is_null_outpoint, max_input_scriptsig_len,
}

-- `CovenantParams`.
pub record CovenantParams : Type 0 where
  pub btc_receive_hash : List ℕ
  pub btc_receive_type : OutputType
  pub btc_satoshis : ℕ
  pub chain_anchor : List ℕ
  pub anchor_height : ℕ
  pub merkle_depth : ℕ
  pub expected_nbits : Option (List ℕ)
  pub expected_nbits_next : Option (List ℕ)

pub data ParamsError : Type 0 where
  unknown_receive_type no_satoshis anchor_not_32 bad_depth hash_length nbits_not_4 : ParamsError
  next_without_nbits : ParamsError
  nbits : PowError → ParamsError

-- One turn of the loop over the two pins.
unfoldable pub check_nbits : Option (List ℕ) → Result ParamsError (Unit {0})
check_nbits none = ok tt
check_nbits (some nb) = do
  refuse (not (length nb == 4)) nbits_not_4
  made ← map_err nbits (make_nbits nb)
  ok tt

abbrev is_none : Option (List ℕ) → Bool
is_none none = true
is_none (some nb) = false

-- `CovenantParams.__post_init__`, less the checks of types.
unfoldable pub make_params : CovenantParams → Result ParamsError CovenantParams
make_params p = do
  refuse (not (is_known p.btc_receive_type)) unknown_receive_type
  refuse (p.btc_satoshis == 0) no_satoshis
  refuse (not (length p.chain_anchor == 32)) anchor_not_32
  refuse (p.merkle_depth == 0 || ltb 32 p.merkle_depth) bad_depth
  refuse (not (length p.btc_receive_hash == hash_length_of p.btc_receive_type)) hash_length
  check_nbits p.expected_nbits
  check_nbits p.expected_nbits_next
  refuse (not (is_none p.expected_nbits_next) && is_none p.expected_nbits) next_without_nbits
  ok p

-- `SpvProof`.
pub record SpvProof : Type 0 where
  pub txid : List ℕ
  pub raw_tx : List ℕ
  pub headers : List (List ℕ)
  pub branch : List ℕ
  pub pos : ℕ
  pub output_offset : ℕ
  pub covenant_params : CovenantParams

pub data ProofError : Type 0 where
  coinbase_pos not_hex tx_too_short txid_mismatch coinbase_tx script_too_long : ProofError
  height_out_of_range root_at_height root_nowhere not_an_output : ProofError
  witness : WitnessError → ProofError
  chain : ChainError → ProofError
  merkle : MerkleError → ProofError
  parse : ParseError → ProofError
  payment : PaymentError → ProofError

-- `bytes.fromhex(text)`.
unfoldable pub hex_bytes : List ℕ → Result ProofError (List ℕ)
hex_bytes text = elim (from_hex text) [ none ↦ err not_hex | some raw ↦ ok raw ]

unfoldable pub hex_list : List (List ℕ) → Result ProofError (List (List ℕ))
hex_list [] = ok []
hex_list (text ∷ texts) = do raw ← hex_bytes text; raws ← hex_list texts; ok (raw ∷ raws)

-- `longest_ss`; a transaction that does not parse is left to the walk over its outputs.
unfoldable pub longest_or_zero : Result ParseError ℕ → ℕ
longest_or_zero (ok n) = n
longest_or_zero (err e) = 0

-- `output_offset in offsets`.
unfoldable pub is_among : ℕ → List ℕ → Bool
is_among n [] = false
is_among n (m ∷ ms) = n == m || is_among n ms

-- The header at the claimed height, whose root must be the computed one.
unfoldable pub rooted_here : List ℕ → Option (List ℕ) → Result ProofError (List ℕ)
rooted_here computed_root none = err height_out_of_range
rooted_here computed_root (some header) = do
  root ← map_err merkle (extract_merkle_root header)
  refuse (not (bytes_eq computed_root root)) root_at_height
  ok header

unfoldable pub at_height : List ℕ → List (List ℕ) → ℕ → ℕ → Result ProofError (List ℕ)
at_height computed_root headers anchor_height height =
    if leb height anchor_height
    then err height_out_of_range
    else rooted_here computed_root (get_elem? headers (height - anchor_height - 1))

-- The first header with the computed root.
unfoldable pub anywhere : List ℕ → List (List ℕ) → Result ProofError (List ℕ)
anywhere computed_root [] = err root_nowhere
anywhere computed_root (header ∷ headers) =
    let rest = anywhere computed_root headers in
    (do
      root ← map_err merkle (extract_merkle_root header)
      if bytes_eq computed_root root then ok header else rest)

unfoldable pub matching_header : List ℕ → List (List ℕ) → ℕ → Option ℕ → Result ProofError (List ℕ)
unfolding at_height anywhere
matching_header computed_root headers anchor_height none = anywhere computed_root headers
matching_header computed_root headers anchor_height (some height) =
    at_height computed_root headers anchor_height height

module _ (sha256 : List ℕ → List ℕ) (params : CovenantParams) where
  -- Steps 1 and 2 of `build`: the transaction without witness, and what it must be.
  unfoldable pub check_tx : List ℕ → List ℕ → Result ProofError (List ℕ)
  check_tx txid_be raw_tx_hex = do
    raw_tx ← hex_bytes raw_tx_hex
    stripped ← map_err witness (strip_witness raw_tx)
    refuse (leb (length stripped) 64) tx_too_short
    claimed ← hex_bytes txid_be
    refuse (not (bytes_eq (hash256 sha256 stripped) (reverse claimed))) txid_mismatch
    refuse (first_input_is_null_outpoint stripped) coinbase_tx
    refuse (ltb 127 (longest_or_zero (max_input_scriptsig_len stripped))) script_too_long
    ok stripped

  -- Steps 3 and 4: the headers, and the branch to one of them.
  unfoldable pub check_inclusion :
      List ℕ
      → List ℕ
      → List (List ℕ)
      → List (List ℕ)
      → ℕ
      → Option ℕ
      → Result ProofError (List (List ℕ) × List ℕ)
  check_inclusion txid_be stripped headers_hex merkle_be pos tx_block_height = do
    headers ← hex_list headers_hex
    hashes ← map_err chain (
        verify_chain sha256 headers (some params.chain_anchor) params.expected_nbits
          params.expected_nbits_next)
    branch ← map_err merkle (build_branch merkle_be pos)
    computed_root ← map_err merkle (compute_root sha256 txid_be branch)
    header ← matching_header computed_root headers params.anchor_height tx_block_height
    map_err merkle
        (verify_tx_in_block sha256 stripped txid_be branch pos header (some params.merkle_depth))
    ok (headers, branch)

  -- Step 5: the output, at the start of one of the outputs.
  unfoldable pub check_output : List ℕ → ℕ → Result ProofError (Unit {0})
  check_output stripped output_offset = do
    offsets ← map_err parse (output_offsets stripped)
    refuse (not (is_among output_offset offsets)) not_an_output
    map_err payment (
        verify_payment stripped output_offset params.btc_receive_hash params.btc_receive_type
          params.btc_satoshis)

  -- `SpvProofBuilder.build`. A position is not negative by its type.
  unfoldable pub build :
      List ℕ
      → List ℕ
      → List (List ℕ)
      → List (List ℕ)
      → ℕ
      → ℕ
      → Option ℕ
      → Result ProofError SpvProof
  unfolding check_tx check_inclusion check_output
  build txid_be raw_tx_hex headers_hex merkle_be pos output_offset tx_block_height = do
    refuse (pos == 0) coinbase_pos
    stripped ← check_tx txid_be raw_tx_hex
    (headers, branch) ← check_inclusion txid_be stripped headers_hex merkle_be pos tx_block_height
    check_output stripped output_offset
    ok (record {
      txid = txid_be;
      raw_tx = stripped;
      headers = headers;
      branch = branch;
      pos = pos;
      output_offset = output_offset;
      covenant_params = params;
    })
