-- ===== src/Spv/Proof/Outputs.antt =====
-- src/pyrxd/spv/proof.py: the walks over the inputs and outputs of a transaction without witness. The file
-- has a copy of `_read_varint` of its own, which is that of `witness.py` but for the texts of its errors.
use pyrxd.Common.{
  ℕ, zero, suc, ◌+◌, Bool, false, not, ◌&&◌, ltb, ◌==◌, bytes_eq, length, max, List, [], ◌∷◌, ◌++◌,
  replicate, Result, ok, err, ◌>>=◌, ◌>>◌, refuse, map_err,
}
use pyrxd.Common.Bytes.{slice}
use pyrxd.Spv.Witness.{WitnessError, read_varint}

pub data ParseError : Type 0 where
  varint : WitnessError → ParseError
  inputs_past_end outputs_past_end ends_elsewhere : ParseError

-- The loops over the inputs and over the outputs; the starts of the outputs, and where the walk ends.
unfoldable pub walk_inputs : ℕ → List ℕ → ℕ → Result ParseError ℕ
walk_inputs zero tx pos = ok pos
walk_inputs (suc n) tx pos = do
  (script_len, after) ← map_err varint (read_varint tx (pos + 36))
  refuse (ltb (length tx) (after + script_len + 4)) inputs_past_end
  walk_inputs n tx (after + script_len + 4)

unfoldable pub walk_outputs : ℕ → List ℕ → ℕ → Result ParseError (List ℕ × ℕ)
walk_outputs zero tx pos = ok ([], pos)
walk_outputs (suc n) tx pos = do
  (script_len, after) ← map_err varint (read_varint tx (pos + 8))
  refuse (ltb (length tx) (after + script_len)) outputs_past_end
  (offsets, end) ← walk_outputs n tx (after + script_len)
  ok (pos ∷ offsets, end)

-- `_output_offsets`.
unfoldable pub output_offsets : List ℕ → Result ParseError (List ℕ)
output_offsets tx = do
  (n_in, inputs) ← map_err varint (read_varint tx 4)
  inputs_end ← walk_inputs n_in tx inputs
  (n_out, outputs) ← map_err varint (read_varint tx inputs_end)
  (offsets, end) ← walk_outputs n_out tx outputs
  refuse (not (end + 4 == length tx)) ends_elsewhere
  ok offsets

-- The prevout of a coinbase.
abbrev pub null_outpoint : List ℕ
null_outpoint = replicate 32 0 ++ replicate 4 0xff

null_at : List ℕ → Result WitnessError (ℕ × ℕ) → Bool
null_at tx (err e) = false
null_at tx (ok (n_in, p)) =
    not (ltb (length tx) (p + 36))
    && (bytes_eq (slice p 32 tx) (replicate 32 0)
        && bytes_eq (slice (p + 32) 4 tx) (replicate 4 0xff))

-- `_first_input_is_null_outpoint`.
unfoldable pub first_input_is_null_outpoint : List ℕ → Bool
unfolding null_at
first_input_is_null_outpoint tx = null_at tx (read_varint tx 4)

-- The loop of `_max_input_scriptsig_len`.
unfoldable pub longest_script : ℕ → List ℕ → ℕ → ℕ → Result ParseError ℕ
longest_script zero tx pos longest = ok longest
longest_script (suc n) tx pos longest = do
  (script_len, after) ← map_err varint (read_varint tx (pos + 36))
  refuse (ltb (length tx) (after + script_len + 4)) inputs_past_end
  longest_script n tx (after + script_len + 4) (max longest script_len)

unfoldable pub max_input_scriptsig_len : List ℕ → Result ParseError ℕ
max_input_scriptsig_len tx = do
  (n_in, inputs) ← map_err varint (read_varint tx 4)
  longest_script n_in tx inputs 0
