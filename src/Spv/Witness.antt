-- ===== src/Spv/Witness.antt =====
-- src/pyrxd/spv/witness.py: variable-length integers, and the removal of the witness data.
pub mod Cursor
pub mod Skip
pub mod Strip
use pyrxd.Common.{
  ℕ, zero, suc, ◌+◌, ◌-◌, ◌^◌, Bool, true, false, not, ltb, leb, ◌==◌, if◌then◌else◌, length, List,
  [], ◌∷◌, ◌++◌, take, get_or, Result, ok, err, ◌>>=◌, ◌>>◌, refuse,
}
use pyrxd.Common.Bytes.{slice, le_value, le_bytes}

pub data WitnessError : Type 0 where
  unexpected_end number_too_large too_short bad_flag no_locktime : WitnessError
  truncated_varint not_canonical : ℕ → WitnessError
  truncated_inputs truncated_input_script truncated_value truncated_script truncated_item :
      WitnessError

-- The branches of `_read_varint` on a prefix byte: `size` bytes follow, of a number of at least `least`.
unfoldable pub read_wide : List ℕ → ℕ → ℕ → ℕ → Result WitnessError (ℕ × ℕ)
read_wide raw pos size least = do
  refuse (ltb (length raw) (pos + (1 + size))) (truncated_varint size)
  refuse (ltb (le_value (slice (pos + 1) size raw)) least) (not_canonical size)
  ok (le_value (slice (pos + 1) size raw), pos + (1 + size))

-- `_read_varint`.
unfoldable pub read_varint : List ℕ → ℕ → Result WitnessError (ℕ × ℕ)
read_varint raw pos = do
  refuse (leb (length raw) pos) unexpected_end
  if ltb (get_or raw pos 0) 0xfd
      then ok (get_or raw pos 0, pos + 1)
      else if get_or raw pos 0 == 0xfd
      then read_wide raw pos 2 0xfd
      else if get_or raw pos 0 == 0xfe
      then read_wide raw pos 4 0x10000
      else read_wide raw pos 8 0x100000000

-- The bytes of `_encode_varint`, for a number below 2^64.
unfoldable pub varint_bytes : ℕ → List ℕ
varint_bytes n =
    if ltb n 0xfd
    then n ∷ []
    else if leb n 0xffff
    then 0xfd ∷ le_bytes 2 n
    else if leb n 0xffffffff
    then 0xfe ∷ le_bytes 4 n
    else 0xff ∷ le_bytes 8 n

-- `_encode_varint`; `to_bytes` raises on a number of more than eight bytes.
unfoldable pub encode_varint : ℕ → Result WitnessError (List ℕ)
encode_varint n = do refuse (leb (2 ^ 64) n) number_too_large; ok (varint_bytes n)

-- The loops of `strip_witness`: the position after so many inputs, outputs, witness items and stacks.
unfoldable pub skip_inputs : ℕ → List ℕ → ℕ → Result WitnessError ℕ
skip_inputs zero raw pos = ok pos
skip_inputs (suc n) raw pos = do
  refuse (ltb (length raw) (pos + 36)) truncated_inputs
  (script_len, pos') ← read_varint raw (pos + 36)
  refuse (ltb (length raw) (pos' + script_len + 4)) truncated_input_script
  skip_inputs n raw (pos' + script_len + 4)

unfoldable pub skip_outputs : ℕ → List ℕ → ℕ → Result WitnessError ℕ
skip_outputs zero raw pos = ok pos
skip_outputs (suc n) raw pos = do
  refuse (ltb (length raw) (pos + 8)) truncated_value
  (script_len, pos') ← read_varint raw (pos + 8)
  refuse (ltb (length raw) (pos' + script_len)) truncated_script
  skip_outputs n raw (pos' + script_len)

unfoldable pub skip_items : ℕ → List ℕ → ℕ → Result WitnessError ℕ
skip_items zero raw pos = ok pos
skip_items (suc n) raw pos = do
  (item_len, pos') ← read_varint raw pos
  refuse (ltb (length raw) (pos' + item_len)) truncated_item
  skip_items n raw (pos' + item_len)

unfoldable pub skip_stacks : ℕ → List ℕ → ℕ → Result WitnessError ℕ
skip_stacks zero raw pos = ok pos
skip_stacks (suc n) raw pos = do
  (item_count, pos') ← read_varint raw pos
  pos'' ← skip_items item_count raw pos'
  skip_stacks n raw pos''

-- `strip_witness` on a transaction with the segwit marker and flag.
unfoldable pub strip_segwit : List ℕ → Result WitnessError (List ℕ)
strip_segwit raw = do
  (input_count, inputs_start) ← read_varint raw 6
  inputs_end ← skip_inputs input_count raw inputs_start
  (output_count, outputs_start) ← read_varint raw inputs_end
  outputs_end ← skip_outputs output_count raw outputs_start
  locktime_start ← skip_stacks input_count raw outputs_end
  refuse (ltb (length raw) (locktime_start + 4)) no_locktime
  input_count_bytes ← encode_varint input_count
  output_count_bytes ← encode_varint output_count
  ok (
      take 4 raw
      ++ (input_count_bytes
          ++ (slice inputs_start (inputs_end - inputs_start) raw
              ++ (output_count_bytes
                  ++ (slice outputs_start (outputs_end - outputs_start) raw
                      ++ slice locktime_start 4 raw)))))

-- `strip_witness`.
unfoldable pub strip_witness : List ℕ → Result WitnessError (List ℕ)
strip_witness raw = do
  refuse (ltb (length raw) 10) too_short
  if not (get_or raw 4 0 == 0)
      then ok raw
      else (do refuse (not (get_or raw 5 0 == 1)) bad_flag; strip_segwit raw)
