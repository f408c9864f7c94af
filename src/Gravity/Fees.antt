-- ===== src/Gravity/Fees.antt =====
-- src/pyrxd/gravity/capped_fee_source.py: a fixed pool of fee inputs that are dispensed once, in order, below
-- a cap. `FeeInput` is of src/pyrxd/gravity/htlc_spend.py. What a private key owns is a parameter.
pub mod Dispense
use pyrxd.Common.{
  ℕ, zero, suc, ◌+◌, ◌-◌, Bool, true, false, not, ◌&&◌, ◌||◌, bytes_eq, length, ltb, ◌==◌,
  if◌then◌else◌, List, [], ◌∷◌, get_elem?, drop, Option, none, some, Result, ok, err, ◌>>=◌, ◌>>◌,
  refuse,
}
use pyrxd.Common.Hex.{from_hex}
use pyrxd.Common.Bytes.{slice}

pub record FeeInput : Type 0 where
  pub txid : List ℕ
  pub vout : ℕ
  pub value : ℕ
  pub scriptpubkey : List ℕ
  pub wif : List ℕ

pub data FeeError : Type 0 where
  txid_not_64 txid_not_hex value_not_positive script_empty : FeeError
  pool_empty duplicate_outpoint cap_not_positive max_not_positive oversized : FeeError
  not_p2pkh bad_wif wrong_owner : FeeError
  pool_exhausted cap_reached : FeeError

-- `FeeInput.__post_init__`, less the checks of types.
unfoldable pub make_fee_input : FeeInput → Result FeeError FeeInput
make_fee_input x = do
  refuse (not (length x.txid == 64)) txid_not_64
  raw ← elim (from_hex x.txid) [ none ↦ err txid_not_hex | some raw ↦ ok raw ]
  refuse (x.value == 0) value_not_positive
  refuse (length x.scriptpubkey == 0) script_empty
  ok x

-- The source and its counters.
pub record CappedFeeWalletSource : Type 0 where
  pub pool : List FeeInput
  pub cursor : ℕ
  pub cap : ℕ
  pub dispensed_photons : ℕ

-- `_p2pkh_pkh`.
unfoldable pub p2pkh_pkh : List ℕ → Option (List ℕ)
p2pkh_pkh spk =
    if length spk == 25
      && (bytes_eq (slice 0 3 spk) (0x76 ∷ 0xa9 ∷ 0x14 ∷ [])
          && bytes_eq (drop 23 spk) (0x88 ∷ 0xac ∷ []))
    then some (slice 3 20 spk)
    else none

-- `(x.txid, x.vout)`, compared.
unfoldable pub same_outpoint : FeeInput → FeeInput → Bool
same_outpoint x y = bytes_eq x.txid y.txid && x.vout == y.vout

unfoldable pub is_in : FeeInput → List FeeInput → Bool
is_in x [] = false
is_in x (y ∷ ys) = same_outpoint x y || is_in x ys

-- `len(set(outpoints)) != len(outpoints)`.
unfoldable pub has_duplicate : List FeeInput → Bool
has_duplicate [] = false
has_duplicate (x ∷ xs) = is_in x xs || has_duplicate xs

-- `sum(x.value for x in …)`.
abbrev pub total : List FeeInput → ℕ
total [] = 0
total (x ∷ xs) = x.value + total xs

-- The loop over `max_per_input_photons`.
unfoldable pub any_above : ℕ → List FeeInput → Bool
any_above m [] = false
any_above m (x ∷ xs) = ltb m x.value || any_above m xs

unfoldable pub check_max : Option ℕ → List FeeInput → Result FeeError (Unit {0})
check_max none pool = ok tt
check_max (some m) pool = do refuse (m == 0) max_not_positive; refuse (any_above m pool) oversized

module _ (owner_of : List ℕ → Option (List ℕ)) where
  owned_by : Option (List ℕ) → List ℕ → Result FeeError (Unit {0})
  owned_by none pkh = err bad_wif
  owned_by (some owner) pkh = refuse (not (bytes_eq pkh owner)) wrong_owner

  owned_script : Option (List ℕ) → FeeInput → Result FeeError (Unit {0})
  owned_script none x = err not_p2pkh
  owned_script (some pkh) x = owned_by (owner_of x.wif) pkh

  -- The loop over the pool: a bare P2PKH script, of the key of the input.
  unfoldable pub check_owned : List FeeInput → Result FeeError (Unit {0})
  unfolding owned_by owned_script
  check_owned [] = ok tt
  check_owned (x ∷ xs) = do owned_script (p2pkh_pkh x.scriptpubkey) x; check_owned xs

  -- `CappedFeeWalletSource.__init__`.
  unfoldable pub make_source : List FeeInput → ℕ → Option ℕ → Result FeeError CappedFeeWalletSource
  make_source pool total_cap_photons max_per_input_photons = do
    refuse (length pool == 0) pool_empty
    refuse (has_duplicate pool) duplicate_outpoint
    refuse (total_cap_photons == 0) cap_not_positive
    check_max max_per_input_photons pool
    check_owned pool
    ok (record { pool = pool; cursor = 0; cap = total_cap_photons; dispensed_photons = 0 })

-- `remaining_inputs`.
unfoldable pub remaining_inputs : CappedFeeWalletSource → ℕ
remaining_inputs s = length s.pool - s.cursor

-- The loop of `remaining_photons`, which stops at the first input that does not fit.
unfoldable pub spendable : ℕ → ℕ → List FeeInput → ℕ
spendable cap running [] = 0
spendable cap running (x ∷ xs) =
    let rest = spendable cap (running + x.value) xs in
    if ltb cap (running + x.value) then 0 else x.value + rest

-- `remaining_photons`.
unfoldable pub remaining_photons : CappedFeeWalletSource → ℕ
remaining_photons s = spendable s.cap s.dispensed_photons (drop s.cursor s.pool)

-- `next_fee_input`, on the input at the cursor, if there is one.
unfoldable pub dispense_input :
    CappedFeeWalletSource → Option FeeInput → Result FeeError FeeInput × CappedFeeWalletSource
dispense_input s none = (err pool_exhausted, s)
dispense_input s (some nxt) =
    if ltb s.cap (s.dispensed_photons + nxt.value) then (err cap_reached, s) else (
      ok nxt,
      record s { cursor = suc s.cursor; dispensed_photons = s.dispensed_photons + nxt.value },
    )

unfoldable pub next_fee_input :
    CappedFeeWalletSource → Result FeeError FeeInput × CappedFeeWalletSource
unfolding dispense_input
next_fee_input s = dispense_input s (get_elem? s.pool s.cursor)

-- So many calls of `next_fee_input`, one after the other: what they returned, and the source then. A call
-- that raised leaves nothing.
unfoldable pub collect :
    Result FeeError FeeInput
    → List FeeInput × CappedFeeWalletSource
    → List FeeInput × CappedFeeWalletSource
collect (ok x) (xs, s) = (x ∷ xs, s)
collect (err e) (xs, s) = (xs, s)

unfoldable pub dispense : ℕ → CappedFeeWalletSource → List FeeInput × CappedFeeWalletSource
unfolding collect
dispense zero s = ([], s)
dispense (suc n) s = let (r, s') = next_fee_input s in collect r (dispense n s')
