-- ===== src/Gravity/Record/Locators/Codec.antt =====
-- A locator that was written to disk is read back.
use pyrxd.Common.{ℕ, ◌≡◌, refl, List, ok}
use pyrxd.Common.Hex.{IsBytes, to_hex, from_hex-to_hex}
use pyrxd.Gravity.Record.Wire.{IsCodec}
use pyrxd.Gravity.Record.Locators.{
  LocatorError, not_hex, hex_or, make_outpoint, make_script_tree, BtcHtlcLocator, make_btc_locator,
  btc_to_dict, btc_from_dict, EthHtlcLocator, make_eth_locator, read_btc, read_eth, locator_codec,
}

-- A locator of BTC that was constructed, of parts that were, with bytes in its byte strings.
pub record IsMadeBtc (l : BtcHtlcLocator) : Type 0 where
  pub outpoint : make_outpoint l.funding_outpoint ≡ ok l.funding_outpoint
  pub tree : make_script_tree l.script_tree ≡ ok l.script_tree
  pub locator : make_btc_locator l ≡ ok l
  pub claim_script : IsBytes l.script_tree.claim_script
  pub refund_script : IsBytes l.script_tree.refund_script
  pub control_block_claim : IsBytes l.control_block_claim
  pub control_block_refund : IsBytes l.control_block_refund
  pub internal_key : IsBytes l.internal_key

abbrev pub IsMadeEth : EthHtlcLocator → Type 0
IsMadeEth l = make_eth_locator l ≡ ok l

hex_or-to_hex : (e : LocatorError) (bs : List ℕ) → IsBytes bs → hex_or e (to_hex bs) ≡ ok bs
unfolding hex_or
hex_or-to_hex e bs h = rw (from_hex-to_hex bs h) refl

btc_from_dict-to_dict : (l : BtcHtlcLocator) → IsMadeBtc l → btc_from_dict (btc_to_dict l) ≡ ok l
unfolding btc_from_dict btc_to_dict
btc_from_dict-to_dict l k = rw (
  hex_or-to_hex not_hex l.script_tree.claim_script k.claim_script,
  hex_or-to_hex not_hex l.script_tree.refund_script k.refund_script,
  k.tree,
  k.outpoint,
  hex_or-to_hex not_hex l.control_block_claim k.control_block_claim,
  hex_or-to_hex not_hex l.control_block_refund k.control_block_refund,
  hex_or-to_hex not_hex l.internal_key k.internal_key,
  k.locator,
)

pub locator_codec-IsCodec : IsCodec locator_codec IsMadeBtc IsMadeEth
unfolding read_btc read_eth
locator_codec-IsCodec = record {
  btc = λ l k. rw (btc_from_dict-to_dict l k) refl;
  eth = λ l k. rw k refl;
}
