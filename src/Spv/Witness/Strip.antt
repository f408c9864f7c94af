-- ===== src/Spv/Witness/Strip.antt =====
-- `strip_witness` gives the serialization without witness of the same transaction.
use pyrxd.Common.{
  ℕ, ◌+◌, ◌-◌, ◌^◌, ◌≤◌, ◌<◌, ◌≡◌, refl, sym, ap, ◌∙◌, arith, false, ltb, length, List, [], ◌∷◌,
  ◌++◌, take, ok,
}
use mathlib.Core.Path.{subst}
use pyrxd.Common.Bytes.{slice, append_nil, take-append}
use pyrxd.Spv.Witness.{varint_bytes, encode_varint, skip_stacks, strip_segwit, strip_witness}
use pyrxd.Spv.Witness.Cursor.{
  Stands, Stands-append, slice-Stands, get_or-Stands, read_varint-varint_bytes,
}
use pyrxd.Spv.Witness.Skip.{
  TxIn, TxOut, AllIn, AllOut, AllStacks, input_bytes, output_bytes, stack_bytes, field, fits-Stands,
  skip_inputs-input_bytes, skip_outputs-output_bytes, skip_stacks-stack_bytes,
}

-- A transaction with witness data.
pub record Tx : Type 0 where
  pub version : List ℕ
  pub inputs : List TxIn
  pub outputs : List TxOut
  pub stacks : List (List (List ℕ))
  pub locktime : List ℕ

-- It has one stack for each input, and its sizes and counts fit their fields.
pub record IsTx (t : Tx) : Type 0 where
  pub version_4 : length t.version ≡ 4
  pub locktime_4 : length t.locktime ≡ 4
  pub inputs : AllIn t.inputs
  pub outputs : AllOut t.outputs
  pub stacks : AllStacks t.stacks
  pub one_each : length t.stacks ≡ length t.inputs
  pub inputs_fit : length t.inputs < 2 ^ 64
  pub outputs_fit : length t.outputs < 2 ^ 64

abbrev after_outputs : Tx → List ℕ
after_outputs t = stack_bytes t.stacks ++ t.locktime

abbrev after_inputs : Tx → List ℕ
after_inputs t = varint_bytes (length t.outputs) ++ (output_bytes t.outputs ++ after_outputs t)

-- The serialization with the segwit marker, flag and witness data, and the one without.
abbrev pub segwit_bytes : Tx → List ℕ
segwit_bytes t =
    t.version
    ++ (0 ∷ 1 ∷ (varint_bytes (length t.inputs) ++ (input_bytes t.inputs ++ after_inputs t)))

abbrev pub legacy_bytes : Tx → List ℕ
legacy_bytes t =
    t.version
    ++ (varint_bytes (length t.inputs)
        ++ (input_bytes t.inputs
            ++ (varint_bytes (length t.outputs) ++ (output_bytes t.outputs ++ t.locktime))))

back : (a l : ℕ) → a + l - a ≡ l
back a l = omega arith

encode_varint-fits : (n : ℕ) → n < 2 ^ 64 → encode_varint n ≡ ok (varint_bytes n)
unfolding encode_varint
encode_varint-fits n h = ground arith

module _ (t : Tx) (k : IsTx t) where
  -- Where the parts start.
  inputs_start : ℕ
  inputs_start = 6 + length (varint_bytes (length t.inputs))

  inputs_end : ℕ
  inputs_end = inputs_start + length (input_bytes t.inputs)

  outputs_start : ℕ
  outputs_start = inputs_end + length (varint_bytes (length t.outputs))

  outputs_end : ℕ
  outputs_end = outputs_start + length (output_bytes t.outputs)

  locktime_start : ℕ
  locktime_start = outputs_end + length (stack_bytes t.stacks)

  at_start : Stands (segwit_bytes t) 0 (segwit_bytes t)
  at_start = record { rest = refl; size = omega arith }

  at_marker :
      Stands
        (segwit_bytes t)
        4
        (0 ∷ 1 ∷ (varint_bytes (length t.inputs) ++ (input_bytes t.inputs ++ after_inputs t)))
  at_marker = field 4 t.version _ k.version_4 at_start

  at_flag :
      Stands
        (segwit_bytes t)
        5
        (1 ∷ (varint_bytes (length t.inputs) ++ (input_bytes t.inputs ++ after_inputs t)))
  at_flag = field 1 (0 ∷ []) _ refl at_marker

  at_inputs_count :
      Stands
        (segwit_bytes t)
        6
        (varint_bytes (length t.inputs) ++ (input_bytes t.inputs ++ after_inputs t))
  at_inputs_count = field 1 (1 ∷ []) _ refl at_flag

  at_inputs : Stands (segwit_bytes t) inputs_start (input_bytes t.inputs ++ after_inputs t)
  unfolding inputs_start
  at_inputs = Stands-append (varint_bytes (length t.inputs)) _ at_inputs_count

  at_outputs_count : Stands (segwit_bytes t) inputs_end (after_inputs t)
  unfolding inputs_end
  at_outputs_count = Stands-append (input_bytes t.inputs) _ at_inputs

  at_outputs : Stands (segwit_bytes t) outputs_start (output_bytes t.outputs ++ after_outputs t)
  unfolding outputs_start
  at_outputs = Stands-append (varint_bytes (length t.outputs)) _ at_outputs_count

  at_stacks : Stands (segwit_bytes t) outputs_end (after_outputs t)
  unfolding outputs_end
  at_stacks = Stands-append (output_bytes t.outputs) _ at_outputs

  at_locktime : Stands (segwit_bytes t) locktime_start (t.locktime ++ [])
  unfolding locktime_start
  at_locktime =
      subst (λ x. Stands (segwit_bytes t) (outputs_end + length (stack_bytes t.stacks)) x)
        (sym (append_nil t.locktime)) (Stands-append (stack_bytes t.stacks) _ at_stacks)

  at_end : Stands (segwit_bytes t) (locktime_start + 4) []
  at_end = field 4 t.locktime [] k.locktime_4 at_locktime

  -- The parts that are kept.
  version_kept : take 4 (segwit_bytes t) ≡ t.version
  version_kept = take-append 4 t.version _ k.version_4

  inputs_kept :
      slice inputs_start (inputs_end - inputs_start) (segwit_bytes t) ≡ input_bytes t.inputs
  unfolding inputs_end
  inputs_kept =
      ap (λ n. slice inputs_start n (segwit_bytes t))
        (back inputs_start (length (input_bytes t.inputs)))
      ∙ slice-Stands (input_bytes t.inputs) _ at_inputs

  outputs_kept :
      slice outputs_start (outputs_end - outputs_start) (segwit_bytes t) ≡ output_bytes t.outputs
  unfolding outputs_end
  outputs_kept =
      ap (λ n. slice outputs_start n (segwit_bytes t))
        (back outputs_start (length (output_bytes t.outputs)))
      ∙ slice-Stands (output_bytes t.outputs) _ at_outputs

  locktime_kept : slice locktime_start 4 (segwit_bytes t) ≡ t.locktime
  locktime_kept =
      ap (λ n. slice locktime_start n (segwit_bytes t)) (sym k.locktime_4)
      ∙ slice-Stands t.locktime [] at_locktime

  stacks_skipped : skip_stacks (length t.inputs) (segwit_bytes t) outputs_end ≡ ok locktime_start
  unfolding locktime_start
  stacks_skipped =
      subst (λ n. skip_stacks n (segwit_bytes t) outputs_end ≡ ok locktime_start) k.one_each
        (skip_stacks-stack_bytes t.stacks _ t.locktime k.stacks at_stacks)

  long_enough : 10 ≤ length (segwit_bytes t)
  unfolding inputs_start inputs_end outputs_start outputs_end locktime_start
  long_enough = omega (arith, at_end.size)

  strip_segwit_lem : strip_segwit (segwit_bytes t) ≡ ok (legacy_bytes t)
  unfolding strip_segwit inputs_start inputs_end outputs_start outputs_end locktime_start
  strip_segwit_lem =
      rw
        (
          read_varint-varint_bytes (length t.inputs) _ k.inputs_fit at_inputs_count,
          skip_inputs-input_bytes t.inputs _ _ k.inputs at_inputs,
          read_varint-varint_bytes (length t.outputs) _ k.outputs_fit at_outputs_count,
          skip_outputs-output_bytes t.outputs _ _ k.outputs at_outputs,
          stacks_skipped,
          fits-Stands at_end,
          encode_varint-fits (length t.inputs) k.inputs_fit,
          encode_varint-fits (length t.outputs) k.outputs_fit,
          version_kept,
          inputs_kept,
          outputs_kept,
          locktime_kept,
        )
        refl

-- Of the segwit serialization of a transaction, whose sizes and counts fit their fields,
-- `strip_witness` returns the serialization without marker, flag and witness data.
pub strip_witness-segwit_bytes :
    (t : Tx) → IsTx t → strip_witness (segwit_bytes t) ≡ ok (legacy_bytes t)
unfolding strip_witness
strip_witness-segwit_bytes t k =
    rw (long, get_or-Stands (at_marker t k), get_or-Stands (at_flag t k)) (strip_segwit_lem t k)
  where
    long : ltb (length (segwit_bytes t)) 10 ≡ false
    long = ground (arith, long_enough t k)
