-- ===== src/Spv/Chain.antt =====
-- src/pyrxd/spv/chain.py: consecutive Bitcoin headers, from an anchor, at a pinned difficulty.
pub mod Linked
use pyrxd.Common.{
  ℕ, zero, suc, ◌+◌, ◌≡◌, Bool, true, false, not, ◌&&◌, ◌||◌, ◌==◌, if◌then◌else◌, bytes_eq, length,
  List, [], ◌∷◌, take, drop, Option, none, some, Result, ok, err, ◌>>=◌, ◌>>◌, refuse, map_err,
}
use pyrxd.Common.Bytes.{slice}
use pyrxd.Spv.Pow.{PowError, verify_header_pow}

pub data ChainError : Type 0 where
  no_headers anchor_not_32 nbits_not_4 nbits_next_not_4 header_not_80 : ChainError
  nbits_mismatch anchor_mismatch link_broken : ChainError
  pow : PowError → ChainError

-- `header[4:36]` and `header[72:76]`.
abbrev pub prev_hash_of : List ℕ → List ℕ
prev_hash_of header = slice 4 32 header

abbrev pub nbits_of : List ℕ → List ℕ
nbits_of header = slice 72 4 header

-- `allowed_nbits`: no pin, or the two accepted values.
pub data Pin : Type 0 where
  no_pin : Pin
  pinned : List ℕ → List ℕ → Pin

abbrev pub or_same : Option (List ℕ) → List ℕ → List ℕ
or_same none n = n
or_same (some m) n = m

unfoldable pub pin_of : Option (List ℕ) → Option (List ℕ) → Pin
pin_of none next = no_pin
pin_of (some n) next = pinned n (or_same next n)

unfoldable pub is_allowed : Pin → List ℕ → Bool
is_allowed no_pin nbits = true
is_allowed (pinned n m) nbits = bytes_eq nbits n || bytes_eq nbits m

-- `prev_hash_field != prev`, where there is something to compare with.
unfoldable pub follows : Option (List ℕ) → List ℕ → Bool
follows none field = true
follows (some prev) field = bytes_eq field prev

wrong_length : Option (List ℕ) → ℕ → Bool
wrong_length none n = false
wrong_length (some raw) n = not (length raw == n)

is_empty : List (List ℕ) → Bool
is_empty [] = true
is_empty (_ ∷ _) = false

module _ (sha256 : List ℕ → List ℕ) where
  -- The body of the loop for one header; `expected` is what its previous hash must be, `unlinked` the
  -- error if it is not.
  unfoldable pub check_header :
      Pin → Option (List ℕ) → ChainError → List ℕ → Result ChainError (List ℕ)
  check_header pin expected unlinked header = do
    refuse (not (length header == 80)) header_not_80
    refuse (not (is_allowed pin (nbits_of header))) nbits_mismatch
    refuse (not (follows expected (prev_hash_of header))) unlinked
    map_err pow (verify_header_pow sha256 header)

  -- The loop of `verify_chain` over the headers that are left.
  unfoldable pub check_headers :
      Pin → Option (List ℕ) → ChainError → List (List ℕ) → Result ChainError (List (List ℕ))
  check_headers pin expected unlinked [] = ok []
  check_headers pin expected unlinked (header ∷ headers) = do
    header_hash ← check_header pin expected unlinked header
    hashes ← check_headers pin (some header_hash) link_broken headers
    ok (header_hash ∷ hashes)

  -- `verify_chain`.
  unfoldable pub verify_chain :
      List (List ℕ)
      → Option (List ℕ)
      → Option (List ℕ)
      → Option (List ℕ)
      → Result ChainError (List (List ℕ))
  unfolding wrong_length is_empty
  verify_chain headers chain_anchor expected_nbits expected_nbits_next = do
    refuse (is_empty headers) no_headers
    refuse (wrong_length chain_anchor 32) anchor_not_32
    refuse (wrong_length expected_nbits 4) nbits_not_4
    refuse (wrong_length expected_nbits_next 4) nbits_next_not_4
    check_headers (pin_of expected_nbits expected_nbits_next) chain_anchor anchor_mismatch headers
