-- ===== src/Spv/Payment.antt =====
-- src/pyrxd/spv/payment.py: the check of one output of a transaction, at a byte offset.
pub mod Script
pub mod Output
use pyrxd.Common.{
  ℕ, zero, suc, ◌+◌, ◌*◌, ◌^◌, ◌≡◌, Bool, true, false, not, ◌&&◌, ltb, leb, ◌==◌, if◌then◌else◌,
  bytes_eq, length, List, [], ◌∷◌, take, drop, get_or, Result, ok, err, ◌>>=◌, ◌>>◌, refuse,
}
use pyrxd.Common.Bytes.{slice, le_value}

-- `P2PKH`, `P2WPKH`, `P2SH`, `P2TR`; any other text is `unknown`.
pub data OutputType : Type 0 where
  p2pkh p2wpkh p2sh p2tr unknown : OutputType

pub data PaymentError : Type 0 where
  unknown_type truncated value_too_large value_zero value_too_small : PaymentError
  script_length script_truncated op_return hash_length_32 hash_length_20 : PaymentError
  prefix_mismatch hash_mismatch suffix_mismatch : PaymentError

-- `_OUTPUT_SCRIPT_LENGTHS`.
abbrev pub script_length_of : OutputType → ℕ
script_length_of p2pkh = 25
script_length_of p2wpkh = 22
script_length_of p2sh = 23
script_length_of p2tr = 34
script_length_of unknown = 0

-- `_SCRIPT_PATTERNS`.
abbrev pub prefix_of : OutputType → List ℕ
prefix_of p2pkh = 0x76 ∷ 0xa9 ∷ 0x14 ∷ []
prefix_of p2wpkh = 0x00 ∷ 0x14 ∷ []
prefix_of p2sh = 0xa9 ∷ 0x14 ∷ []
prefix_of p2tr = 0x51 ∷ 0x20 ∷ []
prefix_of unknown = []

abbrev pub suffix_of : OutputType → List ℕ
suffix_of p2pkh = 0x88 ∷ 0xac ∷ []
suffix_of p2sh = 0x87 ∷ []
suffix_of _ = []

abbrev pub is_known : OutputType → Bool
is_known unknown = false
is_known _ = true

abbrev pub is_p2tr : OutputType → Bool
is_p2tr p2tr = true
is_p2tr _ = false

abbrev pub hash_length_of : OutputType → ℕ
hash_length_of t = if is_p2tr t then 32 else 20

is_empty : List ℕ → Bool
is_empty [] = true
is_empty (_ ∷ _) = false

-- `verify_payment`, from the hash's length on.
unfoldable pub verify_script : List ℕ → List ℕ → OutputType → Result PaymentError (Unit {0})
unfolding is_empty
verify_script script expected_hash t = do
  refuse (is_p2tr t && not (length expected_hash == 32)) hash_length_32
  refuse (not (is_p2tr t) && not (length expected_hash == 20)) hash_length_20
  refuse (not (bytes_eq (take (length (prefix_of t)) script) (prefix_of t))) prefix_mismatch
  refuse (not (bytes_eq (slice (length (prefix_of t)) (hash_length_of t) script) expected_hash))
      hash_mismatch
  refuse
      (not (is_empty (suffix_of t))
        && not (bytes_eq (drop (length (prefix_of t) + hash_length_of t) script) (suffix_of t)))
      suffix_mismatch
  ok tt

-- `verify_payment`. An offset is not negative by its type.
unfoldable pub verify_payment :
    List ℕ → ℕ → List ℕ → OutputType → ℕ → Result PaymentError (Unit {0})
verify_payment raw_tx output_offset expected_hash t min_satoshis = do
  refuse (not (is_known t)) unknown_type
  refuse (ltb (length raw_tx) (output_offset + (8 + 1 + script_length_of t))) truncated
  refuse (leb (2 ^ 63) (le_value (slice output_offset 8 raw_tx))) value_too_large
  refuse (le_value (slice output_offset 8 raw_tx) == 0) value_zero
  refuse (ltb (le_value (slice output_offset 8 raw_tx)) min_satoshis) value_too_small
  refuse (not (get_or raw_tx (output_offset + 8) 0 == script_length_of t)) script_length
  refuse
      (not (length (slice (output_offset + 9) (script_length_of t) raw_tx) == script_length_of t))
      script_truncated
  refuse (get_or (slice (output_offset + 9) (script_length_of t) raw_tx) 0 0 == 0x6a) op_return
  verify_script (slice (output_offset + 9) (script_length_of t) raw_tx) expected_hash t
