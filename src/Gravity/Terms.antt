-- ===== src/Gravity/Terms.antt =====
-- src/pyrxd/gravity/swap_state.py: the negotiated terms, their validation and their wire form. Byte
-- strings are lists of numbers; amounts are integers and not negative by their type.
pub mod Valid
pub mod Wire
use pyrxd.Common.{
  ℕ, ◌+◌, ◌*◌, ◌/◌, ◌≤◌, ◌<◌, ◌≡◌, Bool, true, false, ◌&&◌, ◌||◌, not, ltb, leb, ◌==◌,
  if◌then◌else◌, bytes_eq, length, replicate, List, [], ◌∷◌, Option, none, some, Result, ok, err,
  ◌>>=◌, ◌>>◌, refuse, guard, map_err,
}
use pyrxd.Common.Hex.{to_hex, from_hex}
use pyrxd.Gravity.Timelock.{TimeUnit, blocks, seconds, Timelock, TimelockError, make_timelock}
use Prim.Native.String.{String}
use text.Mathlib.Text.{◌==◌ as str_eq}

-- `NegotiatedTerms`.
pub record NegotiatedTerms : Type 0 where
  pub hashlock : List ℕ
  pub btc_sats : ℕ
  pub radiant_amount : ℕ
  pub t_btc : Timelock
  pub t_rxd : Timelock
  pub asset_variant : String
  pub genesis_ref : List ℕ
  pub taker_dest_hash : List ℕ
  pub maker_dest_hash : List ℕ
  pub btc_claim_pubkey_xonly : List ℕ
  pub btc_refund_pubkey_xonly : List ℕ
  pub counter_chain : String
  pub value_amount : ℕ
  pub eth_timeout_unix_s : Option ℕ
  pub credential_ref : List ℕ

pub data TermsError : Type 0 where
  not_32_bytes : TermsError
  btc_sats_not_positive radiant_amount_not_positive value_not_positive : TermsError
  unknown_chain value_differs value_missing timeout_missing timeout_on_btc : TermsError
  t_rxd_not_blocks unknown_variant genesis_ref_missing credential_length key_on_eth : TermsError
  wrong_order not_hex unknown_unit : TermsError
  timelock : TimelockError → TermsError

-- `_b32`.
unfoldable pub b32 : List ℕ → Result TermsError (Unit {0})
b32 value = refuse (not (length value == 32)) not_32_bytes

-- `_ZERO32`.
abbrev pub zero32 : List ℕ
zero32 = replicate 32 0

-- The amount of the counter leg: 0 stands for `btc_sats` on a BTC swap, and is refused on an ETH swap.
unfoldable pub resolve_value : String → ℕ → ℕ → Result TermsError ℕ
resolve_value chain btc_sats value =
    if str_eq chain "btc"
    then (if value == 0
        then ok btc_sats
        else refuse (not (value == btc_sats)) value_differs >> ok value)
    else refuse (value == 0) value_missing >> ok value

abbrev positive_timeout : Option ℕ → Bool
positive_timeout none = false
positive_timeout (some t) = ltb 0 t

abbrev is_none : Option ℕ → Bool
is_none none = true
is_none (some t) = false

unfoldable pub check_timeout : String → Option ℕ → Result TermsError (Unit {0})
check_timeout chain timeout =
    if str_eq chain "eth"
    then guard (positive_timeout timeout) timeout_missing
    else guard (is_none timeout) timeout_on_btc

-- The Taproot keys: 32 bytes, and on an ETH swap 32 zero bytes.
unfoldable pub check_keys : String → List ℕ → List ℕ → Result TermsError (Unit {0})
unfolding b32
check_keys chain claim refund = do
  b32 claim
  guard (str_eq chain "btc" || bytes_eq claim zero32) key_on_eth
  b32 refund
  guard (str_eq chain "btc" || bytes_eq refund zero32) key_on_eth

abbrev is_blocks : TimeUnit → Bool
is_blocks blocks = true
is_blocks seconds = false

abbrev same_unit : TimeUnit → TimeUnit → Bool
same_unit blocks u = is_blocks u
same_unit seconds u = not (is_blocks u)

-- The same-unit ordering guard.
unfoldable pub check_order : Timelock → Timelock → Result TermsError (Unit {0})
check_order t_btc t_rxd =
    refuse (same_unit t_btc.unit t_rxd.unit && leb t_btc.value t_rxd.value) wrong_order

-- The checks of the asset: its variant and its genesis reference.
unfoldable pub check_asset : String → List ℕ → Result TermsError (Unit {0})
check_asset variant genesis = do
  guard (str_eq variant "rxd" || str_eq variant "ft" || str_eq variant "nft") unknown_variant
  refuse ((str_eq variant "ft" || str_eq variant "nft") && length genesis == 0) genesis_ref_missing

-- `NegotiatedTerms.__post_init__`; the checks of types hold by the types.
unfoldable pub make_terms : NegotiatedTerms → Result TermsError NegotiatedTerms
make_terms t = do
  b32 t.hashlock
  refuse (t.btc_sats == 0) btc_sats_not_positive
  refuse (t.radiant_amount == 0) radiant_amount_not_positive
  guard (str_eq t.counter_chain "btc" || str_eq t.counter_chain "eth") unknown_chain
  value ← resolve_value t.counter_chain t.btc_sats t.value_amount
  refuse (value == 0) value_not_positive
  check_timeout t.counter_chain t.eth_timeout_unix_s
  guard (is_blocks t.t_rxd.unit) t_rxd_not_blocks
  check_asset t.asset_variant t.genesis_ref
  b32 t.taker_dest_hash
  b32 t.maker_dest_hash
  guard (length t.credential_ref == 0 || length t.credential_ref == 36) credential_length
  check_keys t.counter_chain t.btc_claim_pubkey_xonly t.btc_refund_pubkey_xonly
  check_order t.t_btc t.t_rxd
  ok (record t { value_amount = value })

-- The JSON object of a timelock, and that of the terms: optional keys are `Option`.
pub record WireTimelock : Type 0 where
  pub value : ℕ
  pub unit : String

pub record WireTerms : Type 0 where
  pub hashlock : List ℕ
  pub btc_sats : ℕ
  pub radiant_amount : ℕ
  pub t_btc : WireTimelock
  pub t_rxd : WireTimelock
  pub asset_variant : String
  pub genesis_ref : List ℕ
  pub taker_dest_hash : List ℕ
  pub maker_dest_hash : List ℕ
  pub btc_claim_pubkey_xonly : List ℕ
  pub btc_refund_pubkey_xonly : List ℕ
  pub counter_chain : Option String
  pub value_amount : Option ℕ
  pub eth_timeout_unix_s : Option ℕ
  pub credential_ref : Option (List ℕ)

-- `TimeUnit.value` and `TimeUnit(text)`.
unfoldable pub unit_text : TimeUnit → String
unit_text blocks = "blocks"
unit_text seconds = "seconds"

unfoldable pub unit_of : String → Result TermsError TimeUnit
unit_of s =
    if str_eq s "blocks"
    then ok blocks
    else if str_eq s "seconds"
    then ok seconds
    else err unknown_unit

unfoldable pub timelock_to_dict : Timelock → WireTimelock
unfolding unit_text
timelock_to_dict t = record { value = t.value; unit = unit_text t.unit }

-- `_timelock_from_dict`.
unfoldable pub timelock_from_dict : WireTimelock → Result TermsError Timelock
unfolding unit_of
timelock_from_dict d = do u ← unit_of d.unit; map_err timelock (make_timelock d.value u)

abbrev some_unless {ℓ} : {A : Type ℓ} → Bool → A → Option A
some_unless true a = none
some_unless false a = some a

-- `NegotiatedTerms.to_dict`.
unfoldable pub to_dict : NegotiatedTerms → WireTerms
unfolding timelock_to_dict
to_dict t = record {
  hashlock = to_hex t.hashlock;
  btc_sats = t.btc_sats;
  radiant_amount = t.radiant_amount;
  t_btc = timelock_to_dict t.t_btc;
  t_rxd = timelock_to_dict t.t_rxd;
  asset_variant = t.asset_variant;
  genesis_ref = to_hex t.genesis_ref;
  taker_dest_hash = to_hex t.taker_dest_hash;
  maker_dest_hash = to_hex t.maker_dest_hash;
  btc_claim_pubkey_xonly = to_hex t.btc_claim_pubkey_xonly;
  btc_refund_pubkey_xonly = to_hex t.btc_refund_pubkey_xonly;
  counter_chain = some_unless (str_eq t.counter_chain "btc") t.counter_chain;
  value_amount = some_unless (t.value_amount == t.btc_sats) t.value_amount;
  eth_timeout_unix_s = t.eth_timeout_unix_s;
  credential_ref = some_unless (length t.credential_ref == 0) (to_hex t.credential_ref);
}

-- `bytes.fromhex(d[key])`.
unfoldable pub read_hex : List ℕ → Result TermsError (List ℕ)
read_hex text = elim (from_hex text) [ none ↦ err not_hex | some bs ↦ ok bs ]

abbrev get_or {ℓ} : {A : Type ℓ} → Option A → A → A
get_or none d = d
get_or (some a) d = a

-- `bytes.fromhex(d["credential_ref"]) if d.get("credential_ref") else b""`.
read_credential : Option (List ℕ) → Result TermsError (List ℕ)
read_credential none = ok []
read_credential (some []) = ok []
read_credential (some (c ∷ text)) = read_hex (c ∷ text)

-- `NegotiatedTerms.from_dict`.
unfoldable pub from_dict : WireTerms → Result TermsError NegotiatedTerms
unfolding read_credential
from_dict d = do
  hashlock ← read_hex d.hashlock
  t_btc ← timelock_from_dict d.t_btc
  t_rxd ← timelock_from_dict d.t_rxd
  genesis ← read_hex d.genesis_ref
  taker ← read_hex d.taker_dest_hash
  maker ← read_hex d.maker_dest_hash
  claim ← read_hex d.btc_claim_pubkey_xonly
  refund ← read_hex d.btc_refund_pubkey_xonly
  credential ← read_credential d.credential_ref
  make_terms (record {
    hashlock = hashlock;
    btc_sats = d.btc_sats;
    radiant_amount = d.radiant_amount;
    t_btc = t_btc;
    t_rxd = t_rxd;
    asset_variant = d.asset_variant;
    genesis_ref = genesis;
    taker_dest_hash = taker;
    maker_dest_hash = maker;
    btc_claim_pubkey_xonly = claim;
    btc_refund_pubkey_xonly = refund;
    counter_chain = get_or d.counter_chain "btc";
    value_amount = get_or d.value_amount 0;
    eth_timeout_unix_s = d.eth_timeout_unix_s;
    credential_ref = credential;
  })
