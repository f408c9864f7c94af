-- ===== src/Gravity/Coordinator/Provenance.antt =====
-- src/pyrxd/btc_wallet/taproot.py: the outpoints that a raw transaction spends, by which the coordinator
-- tells whether a claim is a claim of its own funding.
use pyrxd.Common.{
  ℕ, zero, suc, ◌+◌, ◌&&◌, ◌||◌, ltb, leb, ◌==◌, if◌then◌else◌, length, get_or, List, [], ◌∷◌,
  Result, ok, ◌>>=◌, ◌>>◌, refuse,
}
use pyrxd.Common.Bytes.{slice, le_value}
use pyrxd.Gravity.Coordinator.{TxError, truncated, bad_input_count, script_too_long}

-- `take`: the next `k` bytes and the position behind them.
unfoldable pub take_bytes : List ℕ → ℕ → ℕ → Result TxError (List ℕ × ℕ)
take_bytes b k pos = do refuse (ltb (length b) (pos + k)) truncated; ok (slice pos k b, pos + k)

abbrev width_of : ℕ → ℕ
width_of first = if first == 0xfd then 2 else if first == 0xfe then 4 else 8

-- `take_compact`; unlike `_read_varint` it takes a number that is not in its shortest form.
unfoldable pub take_compact : List ℕ → ℕ → Result TxError (ℕ × ℕ)
unfolding take_bytes
take_compact b pos = do
  (one, after) ← take_bytes b 1 pos
  let first = get_or one 0 0
  if ltb first 0xfd
      then ok (first, after)
      else (do (wide, after') ← take_bytes b (width_of first) after; ok (le_value wide, after'))

-- The loop over the inputs.
unfoldable pub take_prevouts : ℕ → List ℕ → ℕ → Result TxError (List (List ℕ))
unfolding take_bytes take_compact
take_prevouts zero b pos = ok []
take_prevouts (suc n) b pos = do
  (prevout, after) ← take_bytes b 36 pos
  (slen, after') ← take_compact b after
  refuse (ltb (length b) slen) script_too_long
  (script, after'') ← take_bytes b slen after'
  (sequence, next) ← take_bytes b 4 after''
  rest ← take_prevouts n b next
  ok (prevout ∷ rest)

-- `btc_input_outpoints_from_raw`.
unfoldable pub btc_input_outpoints_from_raw : List ℕ → Result TxError (List (List ℕ))
unfolding take_bytes take_compact take_prevouts
btc_input_outpoints_from_raw b = do
  (version, after) ← take_bytes b 4 0
  let start =
      if leb (after + 2) (length b) && get_or b after 0 == 0 && get_or b (after + 1) 0 == 1
      then after + 2
      else after
  (n_in, pos) ← take_compact b start
  refuse (n_in == 0 || ltb 100000 n_in) bad_input_count
  take_prevouts n_in b pos
