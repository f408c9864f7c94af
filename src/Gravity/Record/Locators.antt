-- ===== src/Gravity/Record/Locators.antt =====
-- src/pyrxd/btc_wallet/taproot.py and src/pyrxd/eth_wallet/locator.py: the two classes of a counter-leg
-- locator, which a swap record keeps, and their JSON forms. Texts that may be hexadecimal are lists of ASCII
-- codes; a JSON object is a record of its keys, with an `Option` for a key that may be left out.
pub mod Codec
use pyrxd.Common.{
  ℕ, ◌%◌, Bool, not, ◌||◌, ◌&&◌, bytes_eq, length, ◌==◌, if◌then◌else◌, List, [], ◌∷◌, take, drop,
  Option, none, some, Result, ok, err, ◌>>=◌, ◌>>◌, refuse, map_err,
}
use pyrxd.Common.Hex.{to_hex, from_hex}
use pyrxd.Gravity.Record.Wire.{LocatorCodec, LoadError, bad_locator}
use Prim.Native.String.{String}
use text.Mathlib.Text.{◌==◌ as str_eq}

pub data LocatorError : Type 0 where
  txid_not_64 txid_not_hex odd_leaf_version not_hex wrong_length amount_not_positive no_network :
      LocatorError
  chain_not_positive bad_address bad_deploy_hash bad_hashlock amount_zero missing_key : LocatorError

abbrev pub found_or : LocatorError → Option (List ℕ) → Result LocatorError (List ℕ)
found_or e none = err e
found_or e (some bytes) = ok bytes

-- `bytes.fromhex`, with its `ValueError` as `e`.
unfoldable pub hex_or : LocatorError → List ℕ → Result LocatorError (List ℕ)
hex_or e text = found_or e (from_hex text)

pub record BtcOutpoint : Type 0 where
  pub txid : List ℕ
  pub vout : ℕ

-- `BtcOutpoint.__post_init__`, less the checks of types.
unfoldable pub make_outpoint : BtcOutpoint → Result LocatorError BtcOutpoint
make_outpoint o = do
  refuse (not (length o.txid == 64)) txid_not_64
  raw ← hex_or txid_not_hex o.txid
  ok o

pub record ScriptTree : Type 0 where
  pub claim_script : List ℕ
  pub refund_script : List ℕ
  pub leaf_version : ℕ

-- `ScriptTree.__post_init__`.
unfoldable pub make_script_tree : ScriptTree → Result LocatorError ScriptTree
make_script_tree t = do refuse (not (t.leaf_version % 2 == 0)) odd_leaf_version; ok t

pub record BtcHtlcLocator : Type 0 where
  pub funding_outpoint : BtcOutpoint
  pub script_tree : ScriptTree
  pub control_block_claim : List ℕ
  pub control_block_refund : List ℕ
  pub internal_key : List ℕ
  pub amount_sats : ℕ
  pub network : String

-- `BtcHtlcLocator.__post_init__`.
unfoldable pub make_btc_locator : BtcHtlcLocator → Result LocatorError BtcHtlcLocator
make_btc_locator l = do
  refuse (not (length l.control_block_claim == 65)) wrong_length
  refuse (not (length l.control_block_refund == 65)) wrong_length
  refuse (not (length l.internal_key == 32)) wrong_length
  refuse (l.amount_sats == 0) amount_not_positive
  refuse (str_eq l.network "") no_network
  ok l

-- The JSON forms.
pub record BtcDict : Type 0 where
  pub funding_outpoint : BtcOutpoint
  pub claim_script : List ℕ
  pub refund_script : List ℕ
  pub leaf_version : Option ℕ
  pub control_block_claim : List ℕ
  pub control_block_refund : List ℕ
  pub internal_key : List ℕ
  pub amount_sats : ℕ
  pub network : Option String

-- `BtcHtlcLocator.to_dict`.
unfoldable pub btc_to_dict : BtcHtlcLocator → BtcDict
btc_to_dict l = record {
  funding_outpoint = l.funding_outpoint;
  claim_script = to_hex l.script_tree.claim_script;
  refund_script = to_hex l.script_tree.refund_script;
  leaf_version = some l.script_tree.leaf_version;
  control_block_claim = to_hex l.control_block_claim;
  control_block_refund = to_hex l.control_block_refund;
  internal_key = to_hex l.internal_key;
  amount_sats = l.amount_sats;
  network = some l.network;
}

-- `LEAF_VERSION_TAPSCRIPT`, and the network where the key is left out.
abbrev pub leaf_version_of : Option ℕ → ℕ
leaf_version_of none = 0xc0
leaf_version_of (some n) = n

abbrev pub network_of : Option String → String
network_of none = "bc"
network_of (some s) = s

-- `BtcHtlcLocator.from_dict`.
unfoldable pub btc_from_dict : BtcDict → Result LocatorError BtcHtlcLocator
btc_from_dict d = do
  claim_script ← hex_or not_hex d.claim_script
  refund_script ← hex_or not_hex d.refund_script
  tree ← make_script_tree (record {
    claim_script = claim_script;
    refund_script = refund_script;
    leaf_version = leaf_version_of d.leaf_version;
  })
  funding_outpoint ← make_outpoint d.funding_outpoint
  control_block_claim ← hex_or not_hex d.control_block_claim
  control_block_refund ← hex_or not_hex d.control_block_refund
  internal_key ← hex_or not_hex d.internal_key
  make_btc_locator (record {
    funding_outpoint = funding_outpoint;
    script_tree = tree;
    control_block_claim = control_block_claim;
    control_block_refund = control_block_refund;
    internal_key = internal_key;
    amount_sats = d.amount_sats;
    network = network_of d.network;
  })

pub record EthHtlcLocator : Type 0 where
  pub chain_id : ℕ
  pub contract_address : List ℕ
  pub deploy_tx_hash : List ℕ
  pub hashlock : List ℕ
  pub claimant : List ℕ
  pub refundee : List ℕ
  pub timeout : ℕ
  pub amount_wei : ℕ

-- `s.startswith("0x")`.
abbrev pub starts_0x : List ℕ → Bool
starts_0x s = bytes_eq (take 2 s) (0x30 ∷ 0x78 ∷ [])

-- `_check_hex_addr`.
unfoldable pub check_hex_addr : List ℕ → Result LocatorError (Unit {0})
check_hex_addr val = do
  refuse (not (starts_0x val) || not (length val == 42)) bad_address
  raw ← hex_or bad_address (drop 2 val)
  ok tt

-- `EthHtlcLocator.__post_init__`.
unfoldable pub make_eth_locator : EthHtlcLocator → Result LocatorError EthHtlcLocator
make_eth_locator l = do
  refuse (l.chain_id == 0) chain_not_positive
  check_hex_addr l.contract_address
  check_hex_addr l.claimant
  check_hex_addr l.refundee
  refuse (not (starts_0x l.deploy_tx_hash)) bad_deploy_hash
  refuse (not (starts_0x l.hashlock) || not (length l.hashlock == 66)) bad_hashlock
  raw ← hex_or bad_hashlock (drop 2 l.hashlock)
  refuse (l.amount_wei == 0) amount_zero
  ok l

-- A JSON object of either class; the object of the other class lacks a key.
pub data LocatorDict : Type 0 where
  btc_dict : BtcDict → LocatorDict
  eth_dict : EthHtlcLocator → LocatorDict

-- `BtcHtlcLocator.from_dict` and `EthHtlcLocator.from_dict` on such an object.
unfoldable pub read_btc : LocatorDict → Result LocatorError BtcHtlcLocator
read_btc (btc_dict d) = btc_from_dict d
read_btc (eth_dict d) = err missing_key

unfoldable pub read_eth : LocatorDict → Result LocatorError EthHtlcLocator
read_eth (eth_dict d) = make_eth_locator d
read_eth (btc_dict d) = err missing_key

abbrev pub locator_codec : LocatorCodec BtcHtlcLocator EthHtlcLocator LocatorDict
locator_codec = record {
  btc_to_dict = λ l. btc_dict (btc_to_dict l);
  btc_from_dict = λ d. map_err (λ e. bad_locator) (read_btc d);
  eth_to_dict = eth_dict;
  eth_from_dict = λ d. map_err (λ e. bad_locator) (read_eth d);
}
