-- ===== src/Spv/Proof/Sound.antt =====
-- What a proof shows that `build` returned: the payment was mined, in a chain from the anchor.
use pyrxd.Common.{
  ℕ, suc, ◌+◌, ◌-◌, ◌<◌, ◌≡◌, ap, ◌∙◌, arith, true, false, not, ltb, leb, ◌==◌, bytes_eq, length,
  List, [], ◌∷◌, get_elem?, Option, none, some, ok, map_err, map_err-eq-ok, >>=-eq-ok, >>-eq-ok,
  refuse-eq-ok, Bool-cases, Option-cases, inl, inr,
}
use mathlib.Core.Path.{subst}
use pyrxd.Common.Hex.{IsBytes, from_hex, from_hex-IsBytes}
use pyrxd.Common.Bytes.{reverse}
use pyrxd.Spv.Pow.{hash256}
use pyrxd.Spv.Merkle.{extract_merkle_root, build_branch, compute_root, verify_tx_in_block}
use pyrxd.Spv.Merkle.Inclusion.{IsIncluded, verify_tx_in_block_iff}
use pyrxd.Spv.Chain.{pin_of, verify_chain}
use pyrxd.Spv.Chain.Linked.{AllBytes, IsLinked, verify_chain-IsLinked}
use pyrxd.Spv.Payment.Output.{IsPaid, verify_payment_iff}
use pyrxd.Spv.Witness.{strip_witness}
use pyrxd.Spv.Proof.Outputs.{output_offsets, first_input_is_null_outpoint, max_input_scriptsig_len}
use pyrxd.Spv.Proof.{
  CovenantParams, SpvProof, root_at_height, coinbase_pos, tx_too_short, txid_mismatch, coinbase_tx,
  script_too_long, not_an_output, witness, merkle, parse, payment, chain, hex_bytes, hex_list,
  longest_or_zero, is_among, rooted_here, at_height, anywhere, matching_header, check_tx,
  check_inclusion, check_output, build,
}

hex_bytes-read : (text raw : List ℕ) → hex_bytes text ≡ ok raw → from_hex text ≡ some raw
unfolding hex_bytes
hex_bytes-read text raw h = elim (Option-cases (from_hex text)) [
  | inl bad ↦ absurd (cc (rw (bad, hex_bytes) at h))
  | inr (bs, read) ↦ read ∙ ap some (cc (rw (read, hex_bytes) at h))
]

hex_bytes-IsBytes : (text raw : List ℕ) → hex_bytes text ≡ ok raw → IsBytes raw
hex_bytes-IsBytes text raw h = from_hex-IsBytes text raw (hex_bytes-read text raw h)

hex_list-AllBytes : (texts raws : List (List ℕ)) → hex_list texts ≡ ok raws → AllBytes raws
unfolding hex_list
hex_list-AllBytes [] raws h = subst AllBytes {x = []} {y = raws} (cc h) tt
hex_list-AllBytes (text ∷ texts) raws h =
    let (raw, first, h') = >>=-eq-ok (hex_bytes text) _ h in
    let (rest, others, h'') = >>=-eq-ok (hex_list texts) _ h' in
    subst AllBytes {x = raw ∷ rest} {y = raws} (cc h'')
      (hex_bytes-IsBytes text raw first, hex_list-AllBytes texts rest others)

-- One of the headers, and which.
abbrev pub IsAt : List (List ℕ) → List ℕ → ℕ → Type 0
IsAt headers header i = get_elem? headers i ≡ some header

rooted_here-same :
    (root : List ℕ) (found : Option (List ℕ)) (header : List ℕ)
    → rooted_here root found ≡ ok header
    → found ≡ some header
unfolding rooted_here
rooted_here-same root none header h = cc
rooted_here-same root (some it) header h =
    let (r, read, h') = >>=-eq-ok (map_err merkle (extract_merkle_root it)) _ h in
    let (same, h'') = refuse-eq-ok (not (bytes_eq root r)) root_at_height (ok it) h' in cc h''

anywhere-IsAt :
    (root : List ℕ) (headers : List (List ℕ)) (header : List ℕ)
    → anywhere root headers ≡ ok header
    → (i : ℕ) × IsAt headers header i
unfolding anywhere
anywhere-IsAt root [] header h = cc
anywhere-IsAt root (it ∷ rest) header h =
    let (r, read, h') = >>=-eq-ok (map_err merkle (extract_merkle_root it)) _ h in
    elim (Bool-cases (bytes_eq root r)) [
      | inl same ↦ (0, cc (rw same at h'))
      | inr other ↦
          let (i, there) = anywhere-IsAt root rest header (rw other at h') in (suc i, there)
    ]

-- The header that matched; at a claimed height, the one at that height.
pub record IsFound (headers : List (List ℕ)) (anchor_height : ℕ) (height : Option ℕ)
    (header : List ℕ) : Type 0 where
  pub index : ℕ
  pub there : IsAt headers header index
  pub at_height : (n : ℕ) → height ≡ some n → n ≡ anchor_height + 1 + index

matching_header-IsFound :
    (root : List ℕ) (headers : List (List ℕ)) (anchor_height : ℕ) (height : Option ℕ)
    (header : List ℕ)
    → matching_header root headers anchor_height height ≡ ok header
    → IsFound headers anchor_height height header
unfolding matching_header at_height
matching_header-IsFound root headers a none header h =
    let (i, there) = anywhere-IsAt root headers header h in
    record { index = i; there = there; at_height = λ n e. cc e }
matching_header-IsFound root headers a (some height) header h = elim (Bool-cases (leb height a)) [
  | inl below ↦ absurd (cc (rw below at h))
  | inr above ↦ record {
    index = height - a - 1;
    there = rooted_here-same root (get_elem? headers (height - a - 1)) header (rw above at h);
    at_height = λ n e. ground arith;
  }
]

module _ (sha256 : List ℕ → List ℕ) (params : CovenantParams) where
  -- What a proof is worth.
  pub record IsProven (raw_tx_hex : List ℕ) (proof : SpvProof) (height : Option ℕ) : Type 0 where
    pub raw : List ℕ
    pub read : from_hex raw_tx_hex ≡ some raw
    pub stripped : strip_witness raw ≡ ok proof.raw_tx
    pub header : List ℕ
    pub found : IsFound proof.headers params.anchor_height height header
    pub linked :
        IsLinked sha256
          (pin_of params.expected_nbits params.expected_nbits_next)
          (some params.chain_anchor)
          proof.headers
    pub included :
        IsIncluded sha256 proof.raw_tx proof.txid proof.branch proof.pos header
          (some params.merkle_depth)
    pub not_coinbase : first_input_is_null_outpoint proof.raw_tx ≡ false
    pub short_scripts : longest_or_zero (max_input_scriptsig_len proof.raw_tx) < 128
    pub offsets : List ℕ
    pub starts : output_offsets proof.raw_tx ≡ ok offsets
    pub among : is_among proof.output_offset offsets ≡ true
    pub paid :
        IsPaid proof.raw_tx proof.output_offset params.btc_receive_hash params.btc_receive_type
          params.btc_satoshis

  check_tx-fits :
      (txid_be raw_tx_hex stripped : List ℕ)
      → check_tx sha256 params txid_be raw_tx_hex ≡ ok stripped
      → (raw : List ℕ) × (from_hex raw_tx_hex ≡ some raw)
        × (strip_witness raw ≡ ok stripped)
        × (first_input_is_null_outpoint stripped ≡ false)
        × (longest_or_zero (max_input_scriptsig_len stripped) < 128)
  unfolding check_tx
  check_tx-fits txid_be raw_tx_hex stripped h =
      let (raw, read, h1) = >>=-eq-ok (hex_bytes raw_tx_hex) _ h in
      let (tx, stripping, h2) = >>=-eq-ok (map_err witness (strip_witness raw)) _ h1 in
      let (long, h3) = refuse-eq-ok (leb (length tx) 64) tx_too_short _ h2 in
      let (claimed, named, h4) = >>=-eq-ok (hex_bytes txid_be) _ h3 in
      let (hashed, h5) =
        refuse-eq-ok (not (bytes_eq (hash256 sha256 tx) (reverse claimed))) txid_mismatch _ h4 in
      let (spends, h6) = refuse-eq-ok (first_input_is_null_outpoint tx) coinbase_tx _ h5 in
      let (short, h7) =
        refuse-eq-ok (ltb 127 (longest_or_zero (max_input_scriptsig_len tx))) script_too_long
          (ok tx) h6 in
      let same : tx ≡ stripped = cc h7 in
      (
        raw,
        hex_bytes-read raw_tx_hex raw read,
        map_err-eq-ok witness _ stripping ∙ ap ok same,
        subst (λ x. first_input_is_null_outpoint x ≡ false) same spends,
        subst (λ x. longest_or_zero (max_input_scriptsig_len x) < 128) same (ground (arith, short)),
      )

  check_output-pays :
      (stripped : List ℕ) (offset : ℕ)
      → check_output sha256 params stripped offset ≡ ok tt
      → (offsets : List ℕ) × (output_offsets stripped ≡ ok offsets)
        × (is_among offset offsets ≡ true)
        × IsPaid stripped offset params.btc_receive_hash params.btc_receive_type params.btc_satoshis
  unfolding check_output
  check_output-pays stripped offset h =
      let (offsets, walked, h1) = >>=-eq-ok (map_err parse (output_offsets stripped)) _ h in
      let (among, h2) = refuse-eq-ok (not (is_among offset offsets)) not_an_output _ h1 in
      (
        offsets,
        map_err-eq-ok parse _ walked,
        ground (arith, among),
        (verify_payment_iff stripped offset params.btc_receive_hash params.btc_receive_type
              params.btc_satoshis).0
            (map_err-eq-ok payment _ h2),
      )

  check_inclusion-mined :
      (size : (d : List ℕ) → length (sha256 d) ≡ 32) (bytes : (d : List ℕ) → IsBytes (sha256 d))
      (txid_be stripped : List ℕ) (headers_hex merkle_be : List (List ℕ)) (pos : ℕ)
      (height : Option ℕ) (headers : List (List ℕ)) (branch : List ℕ)
      → check_inclusion sha256 params txid_be stripped headers_hex merkle_be pos height
        ≡ ok (headers, branch)
      → (header : List ℕ) × IsFound headers params.anchor_height height header
        × IsLinked sha256
            (pin_of params.expected_nbits params.expected_nbits_next)
            (some params.chain_anchor)
            headers
        × IsIncluded sha256 stripped txid_be branch pos header (some params.merkle_depth)
  unfolding check_inclusion
  check_inclusion-mined size bytes txid_be stripped headers_hex merkle_be pos height headers branch
        h =
      let (hs, read, h1) = >>=-eq-ok (hex_list headers_hex) _ h in
      let (hashes, chained, h2) =
        >>=-eq-ok
          (map_err chain (
            verify_chain sha256 hs (some params.chain_anchor) params.expected_nbits
              params.expected_nbits_next))
          _ h1 in
      let (b, built, h3) = >>=-eq-ok (map_err merkle (build_branch merkle_be pos)) _ h2 in
      let (root, computed, h4) = >>=-eq-ok (map_err merkle (compute_root sha256 txid_be b)) _ h3 in
      let (header, matched, h5) =
        >>=-eq-ok (matching_header root hs params.anchor_height height) _ h4 in
      let (included, h6) =
        >>-eq-ok
          (map_err merkle
            (verify_tx_in_block sha256 stripped txid_be b pos header (some params.merkle_depth)))
          _ h5 in
      let same : hs ≡ headers = cc h6 in
      let same' : b ≡ branch = cc h6 in
      (
        header,
        subst (λ x. IsFound x params.anchor_height height header) same
            (matching_header-IsFound root hs params.anchor_height height header matched),
        subst
            (λ x.
              IsLinked sha256 (pin_of params.expected_nbits params.expected_nbits_next)
                (some params.chain_anchor) x)
            same
            (verify_chain-IsLinked sha256 size bytes hs hashes (some params.chain_anchor)
              params.expected_nbits params.expected_nbits_next
              (hex_list-AllBytes headers_hex hs read) (map_err-eq-ok chain _ chained)),
        subst (λ x. IsIncluded sha256 stripped txid_be x pos header (some params.merkle_depth))
            same'
            ((verify_tx_in_block_iff sha256 stripped txid_be b pos header
                (some params.merkle_depth)).0
              (map_err-eq-ok merkle _ included)),
      )

  module _ (size : (d : List ℕ) → length (sha256 d) ≡ 32)
      (bytes : (d : List ℕ) → IsBytes (sha256 d)) (txid_be raw_tx_hex : List ℕ)
      (headers_hex merkle_be : List (List ℕ)) (pos output_offset : ℕ) (tx_block_height : Option ℕ)
      (proof : SpvProof) where
    -- If `build` returns a proof: its transaction is the given one without its witness; the headers of the
    -- proof are a chain of mined headers at the pinned difficulty from the anchor on; the transaction is in the
    -- block of one of them, that of the claimed height if there is one; it is no coinbase, and no input's script
    -- has 128 bytes as far as the inputs parse; and at the output, which is where an output starts, it pays the
    -- hash of the covenant at least the amount. SHA-256 gives 32 bytes.
    pub build-IsProven :
        build sha256 params txid_be raw_tx_hex headers_hex merkle_be pos output_offset
            tx_block_height
          ≡ ok proof
        → IsProven raw_tx_hex proof tx_block_height
    unfolding build
    build-IsProven h =
        let (not_zero, h1) = refuse-eq-ok (pos == 0) coinbase_pos _ h in
        let (stripped, tx, h2) = >>=-eq-ok (check_tx sha256 params txid_be raw_tx_hex) _ h1 in
        let ((headers, branch), block, h3) =
          >>=-eq-ok
            (check_inclusion sha256 params txid_be stripped headers_hex merkle_be pos
              tx_block_height)
            _ h2 in
        let (output, h4) = >>-eq-ok (check_output sha256 params stripped output_offset) _ h3 in
        let (raw, read, stripping, spends, short) = check_tx-fits txid_be raw_tx_hex stripped tx in
        let (header, found, linked, included) =
          check_inclusion-mined size bytes txid_be stripped headers_hex merkle_be pos
            tx_block_height headers branch block in
        let (offsets, walked, among, paid) = check_output-pays stripped output_offset output in
        subst (λ q. IsProven raw_tx_hex q tx_block_height)
          {x = record {
            txid = txid_be;
            raw_tx = stripped;
            headers = headers;
            branch = branch;
            pos = pos;
            output_offset = output_offset;
            covenant_params = params;
          }}
          {y = proof} (cc h4)
          (record {
            raw = raw;
            read = read;
            stripped = stripping;
            header = header;
            found = found;
            linked = linked;
            included = included;
            not_coinbase = spends;
            short_scripts = short;
            offsets = offsets;
            starts = walked;
            among = among;
            paid = paid;
          })
