-- ===== src/Spv/Proof/Boundaries.antt =====
-- The walks over a serialized transaction stop at its inputs and outputs, so that a proof that `build`
-- returned is about one of the outputs.
use pyrxd.Common.{
  ℕ, suc, ◌+◌, ◌≤◌, ◌<◌, ◌≡◌, refl, sym, ap, ◌∙◌, arith, true, false, ltb, lt→ltb, leb, ◌==◌,
  ==_iff, length, zero, refuse-eq-ok, >>=-eq-ok, List, [], ◌∷◌, ◌++◌, get_elem?, get_or, Option,
  some, ok, Bool-cases, inl, inr,
}
use mathlib.Core.Path.{subst}
use pyrxd.Common.Hex.{IsBytes, from_hex}
use pyrxd.Common.Bytes.{slice, le_value, append_assoc}
use pyrxd.Spv.Payment.{OutputType, p2pkh, p2wpkh, p2sh, p2tr, unknown, script_length_of}
use pyrxd.Spv.Payment.Script.{script_for}
use pyrxd.Spv.Payment.Output.{IsPaid}
use pyrxd.Spv.Witness.{
  strip_witness, read_varint, varint_bytes, skip_inputs, truncated_inputs, truncated_input_script,
}
use pyrxd.Spv.Witness.Cursor.{Stands, Stands-append, slice-Stands, read_varint-varint_bytes}
use pyrxd.Spv.Witness.Skip.{
  TxOut, IsTxOut, AllOut, prefixed, input_bytes, output_bytes, field, reassoc, fits-Stands,
  read_prefix, after_prefix, at_script, skip_inputs-input_bytes,
}
use pyrxd.Spv.Witness.Strip.{Tx, IsTx, legacy_bytes, segwit_bytes, strip_witness-segwit_bytes}
use pyrxd.Spv.Proof.Outputs.{walk_inputs, walk_outputs, output_offsets}
use pyrxd.Spv.Proof.{CovenantParams, SpvProof, is_among, build}
use pyrxd.Spv.Proof.Sound.{build-IsProven}

-- One output, and where the outputs start from a position on.
abbrev one_output : TxOut → List ℕ
one_output o = o.value ++ prefixed o.script

abbrev pub output_starts : ℕ → List TxOut → List ℕ
output_starts pos [] = []
output_starts pos (o ∷ os) =
    pos ∷ output_starts (pos + 8 + length (varint_bytes (length o.script)) + length o.script) os

-- Where `strip_witness` gets over the inputs, so does this walk.
walk_inputs-skip_inputs :
    (n : ℕ) (raw : List ℕ) (pos end : ℕ)
    → skip_inputs n raw pos ≡ ok end
    → walk_inputs n raw pos ≡ ok end
unfolding walk_inputs skip_inputs
walk_inputs-skip_inputs zero raw pos end h = cc h
walk_inputs-skip_inputs (suc n) raw pos end h =
    let (there, h1) = refuse-eq-ok (ltb (length raw) (pos + 36)) truncated_inputs _ h in
    let ((script_len, after), read, h2) = >>=-eq-ok (read_varint raw (pos + 36)) _ h1 in
    let (fits, h3) =
      refuse-eq-ok (ltb (length raw) (after + script_len + 4)) truncated_input_script _ h2 in
    rw (read, fits) (walk_inputs-skip_inputs n raw (after + script_len + 4) end h3)

walk_outputs-output_bytes :
    {raw : List ℕ} (os : List TxOut) (pos : ℕ) (tail : List ℕ)
    → AllOut os
    → Stands raw pos (output_bytes os ++ tail)
    → (end : ℕ) × (walk_outputs (length os) raw pos ≡ ok (output_starts pos os, end))
      × Stands raw end tail
unfolding walk_outputs
walk_outputs-output_bytes [] pos tail k s = (pos, refl, s)
walk_outputs-output_bytes {raw = raw} (o ∷ os) pos tail (k, ks) s =
    let script = at_script o os tail k s in
    let there = after_prefix o.script (output_bytes os ++ tail) script in
    let (end, walked, after) = walk_outputs-output_bytes os _ tail ks there in
    (end, rw (read_prefix o.script _ k.script_fits script, fits-Stands there, walked) refl, after)

-- An output that starts at this position.
pub record IsOutput (raw : List ℕ) (pos : ℕ) (o : TxOut) : Type 0 where
  pub valid : IsTxOut o
  pub tail : List ℕ
  pub stands : Stands raw pos (o.value ++ (prefixed o.script ++ tail))

is_among-IsOutput :
    {raw : List ℕ} (os : List TxOut) (pos offset : ℕ) (tail : List ℕ)
    → AllOut os
    → Stands raw pos (output_bytes os ++ tail)
    → is_among offset (output_starts pos os) ≡ true
    → (i : ℕ) × (o : TxOut) × (get_elem? os i ≡ some o) × IsOutput raw offset o
unfolding is_among
is_among-IsOutput [] pos offset tail k s h = cc
is_among-IsOutput {raw = raw} (o ∷ os) pos offset tail (k, ks) s h =
    elim (Bool-cases (offset == pos)) [
      | inl here ↦ (
        0,
        o,
        refl,
        subst (λ x. IsOutput raw x o) (sym ((==_iff offset pos).0 here))
            (record {
              valid = k;
              tail = output_bytes os ++ tail;
              stands =
                  subst (λ x. Stands raw pos (o.value ++ x))
                    (append_assoc (prefixed o.script) (output_bytes os) tail)
                    (reassoc o.value (prefixed o.script ++ output_bytes os) tail s);
            }),
      )
      | inr other ↦
          let (i, o', found, is) =
            is_among-IsOutput os _ offset tail ks
              (after_prefix o.script _ (at_script o os tail k s)) (rw other at h) in
          (suc i, o', found, is)
    ]

read_small :
    (raw : List ℕ) (pos n : ℕ)
    → pos < length raw
    → get_or raw pos 0 ≡ n
    → n < 0xfd
    → read_varint raw pos ≡ ok (n, pos + 1)
unfolding read_varint
read_small raw pos n there first small =
    let inside : leb (length raw) pos ≡ false = ground arith in
    rw (inside, first, lt→ltb n 0xfd small) refl

script_length_of-le : (type : OutputType) → script_length_of type ≤ 34
script_length_of-le p2pkh = omega arith
script_length_of-le p2wpkh = omega arith
script_length_of-le p2sh = omega arith
script_length_of-le p2tr = omega arith
script_length_of-le unknown = omega arith

-- The output that a payment pays: the bytes at its offset are those of the output.
pays :
    {raw : List ℕ} (offset : ℕ) (o : TxOut) (h : List ℕ) (type : OutputType) (min_satoshis : ℕ)
    → IsOutput raw offset o
    → IsPaid raw offset h type min_satoshis
    → (o.script ≡ script_for type h) × (min_satoshis ≤ le_value o.value)
pays {raw} offset o h type min_satoshis is paid =
    let short = script_length_of-le type in
    let behind_value = field 8 o.value _ is.valid.value_8 is.stands in
    let measured = read_prefix o.script is.tail is.valid.script_fits behind_value in
    let read =
      read_small raw (offset + 8) (script_length_of type) (omega (arith, paid.fits)) paid.prefixed
        (omega (arith, short)) in
    let both = sym read ∙ measured in
    let long : script_length_of type ≡ length o.script = cc both in
    let next : offset + 8 + 1 ≡ offset + 8 + length (varint_bytes (length o.script)) = cc both in
    let script = slice-Stands o.script is.tail (
      Stands-append (varint_bytes (length o.script)) _
        (reassoc (varint_bytes (length o.script)) o.script is.tail behind_value)) in
    let value : slice offset 8 raw ≡ o.value =
      ap (λ n. slice offset n raw) (sym is.valid.value_8) ∙ slice-Stands o.value _ is.stands in
    (
      sym script
          ∙ ap (λ n. slice n (length o.script) raw) (omega (arith, next))
          ∙ ap (λ n. slice (offset + 9) n raw) (sym long)
          ∙ paid.script,
      subst (λ v. min_satoshis ≤ le_value v) value paid.enough,
    )

-- Where the outputs of the serialization without witness start.
abbrev pub outputs_at : Tx → ℕ
outputs_at t =
    4
    + length (varint_bytes (length t.inputs))
    + length (input_bytes t.inputs)
    + length (varint_bytes (length t.outputs))

module _ (t : Tx) (k : IsTx t) where
  counted : Stands (legacy_bytes t) 4 (
      varint_bytes (length t.inputs)
      ++ (input_bytes t.inputs
          ++ (varint_bytes (length t.outputs) ++ (output_bytes t.outputs ++ t.locktime))))
  counted =
      let start : Stands (legacy_bytes t) 0 (legacy_bytes t) = record {
        rest = refl;
        size = omega arith;
      } in
      field 4 t.version _ k.version_4 start

  outputs_stand : Stands (legacy_bytes t) (outputs_at t) (output_bytes t.outputs ++ t.locktime)
  outputs_stand = Stands-append (varint_bytes (length t.outputs)) _ (
      Stands-append (input_bytes t.inputs) _
        (Stands-append (varint_bytes (length t.inputs)) _ counted))

  -- Of the serialization of a transaction without witness, whose sizes and counts fit their fields,
  -- `_output_offsets` returns where its outputs start.
  pub output_offsets-legacy_bytes :
      output_offsets (legacy_bytes t) ≡ ok (output_starts (outputs_at t) t.outputs)
  unfolding output_offsets
  output_offsets-legacy_bytes =
      let inputs = Stands-append (varint_bytes (length t.inputs)) _ counted in
      let outputs_counted = Stands-append (input_bytes t.inputs) _ inputs in
      let (end, walked, at_locktime) =
        walk_outputs-output_bytes t.outputs (outputs_at t) t.locktime k.outputs outputs_stand in
      let ends : (end + 4 == length (legacy_bytes t)) ≡ true =
        (==_iff _ _).1 (omega (arith, at_locktime.size, k.locktime_4)) in
      rw
        (
          read_varint-varint_bytes (length t.inputs) _ k.inputs_fit counted,
          walk_inputs-skip_inputs (length t.inputs) (legacy_bytes t) _ _
              (skip_inputs-input_bytes t.inputs _ _ k.inputs inputs),
          read_varint-varint_bytes (length t.outputs) _ k.outputs_fit outputs_counted,
          walked,
          ends,
        )
        refl

module _ (sha256 : List ℕ → List ℕ) (params : CovenantParams)
    (size : (d : List ℕ) → length (sha256 d) ≡ 32) (bytes : (d : List ℕ) → IsBytes (sha256 d)) where
  -- If `build` returns a proof of a transaction that is given in its segwit serialization, one of the
  -- outputs of the transaction has the script that pays the hash of the covenant, and at least the amount. SHA-256 gives 32 bytes.
  pub build-pays :
      (t : Tx) (txid_be raw_tx_hex : List ℕ) (headers_hex merkle_be : List (List ℕ))
      (pos output_offset : ℕ) (tx_block_height : Option ℕ) (proof : SpvProof)
      → IsTx t
      → from_hex raw_tx_hex ≡ some (segwit_bytes t)
      → build sha256 params txid_be raw_tx_hex headers_hex merkle_be pos output_offset
          tx_block_height
        ≡ ok proof
      → (i : ℕ) × (o : TxOut) × (get_elem? t.outputs i ≡ some o)
        × (o.script ≡ script_for params.btc_receive_type params.btc_receive_hash)
        × (params.btc_satoshis ≤ le_value o.value)
  build-pays t txid_be raw_tx_hex headers_hex merkle_be pos output_offset height proof k read h =
      let proven =
        build-IsProven sha256 params size bytes txid_be raw_tx_hex headers_hex merkle_be pos
          output_offset height proof h in
      let raw : segwit_bytes t ≡ proven.raw = cc (sym read ∙ proven.read) in
      let same : proof.raw_tx ≡ legacy_bytes t =
        cc (sym proven.stripped ∙ ap strip_witness (sym raw) ∙ strip_witness-segwit_bytes t k) in
      let starts : proven.offsets ≡ output_starts (outputs_at t) t.outputs =
        cc (sym proven.starts ∙ ap output_offsets same ∙ output_offsets-legacy_bytes t k) in
      let (i, o, found, is) =
        is_among-IsOutput t.outputs (outputs_at t) proof.output_offset t.locktime k.outputs
          (outputs_stand t k) (ap (is_among proof.output_offset) (sym starts) ∙ proven.among) in
      let (script, value) =
        pays proof.output_offset o params.btc_receive_hash params.btc_receive_type
          params.btc_satoshis is
          (subst
            (λ x.
              IsPaid x proof.output_offset params.btc_receive_hash params.btc_receive_type
                params.btc_satoshis)
            same proven.paid) in
      (i, o, found, script, value)
