-- ===== src/Gravity/Tests/Fees.antt =====
-- Runs of the capped fee source: two inputs, of which the second does not fit under the cap.
use pyrxd.Common.{
  ℕ, ◌≤◌, ◌≡◌, refl, bytes_eq, length, List, [], ◌∷◌, ◌++◌, replicate, take, some, ok, Option,
}
use pyrxd.Common.Hex.{from_hex}
use pyrxd.Gravity.Fees.{
  FeeInput, CappedFeeWalletSource, make_fee_input, p2pkh_pkh, same_outpoint, is_in, has_duplicate,
  total, any_above, check_max, check_owned, make_source, dispense,
}
use pyrxd.Gravity.Fees.Dispense.{AllApart, dispense-capped}

-- In place of the key: the text of a key is the hash of its owner.
abbrev owner_of : List ℕ → Option (List ℕ)
owner_of wif = some wif

abbrev owner : List ℕ
owner = replicate 20 8

abbrev input : ℕ → FeeInput
input n = record {
  txid = replicate 64 0x61;
  vout = n;
  value = 600;
  scriptpubkey = 0x76 ∷ 0xa9 ∷ 0x14 ∷ owner ++ (0x88 ∷ 0xac ∷ []);
  wif = owner;
}

abbrev pool : List FeeInput
pool = input 0 ∷ input 1 ∷ []

input_made : make_fee_input (input 0) ≡ ok (input 0)
unfolding make_fee_input from_hex
input_made = refl

abbrev source : CappedFeeWalletSource
source = record { pool = pool; cursor = 0; cap = 1000; dispensed_photons = 0 }

source_made : make_source owner_of pool 1000 (some 700) ≡ ok source
unfolding make_source has_duplicate is_in same_outpoint bytes_eq check_max any_above check_owned
    p2pkh_pkh
source_made = refl

dispense-capped_example :
    ((dispense 3 source).0 ≡ take (length (dispense 3 source).0) pool)
    × AllApart (dispense 3 source).0
    × ((dispense 3 source).1.dispensed_photons ≡ total (dispense 3 source).0)
    × (total (dispense 3 source).0 ≤ 1000)
dispense-capped_example = dispense-capped owner_of pool 1000 (some 700) source 3 source_made
