-- ===== src/Gravity/Tests/Records.antt =====
-- A swap record with a BTC locator, written and read.
use pyrxd.Common.{◌≡◌, refl, arith, ◌∷◌, [], none, ok, replicate}
use pyrxd.Common.Hex.{from_hex}
use pyrxd.Gravity.Machine.{both_locked}
use pyrxd.Gravity.Record.{btc_locator, SwapRecord, check_locator, check_spk, make_record}
use pyrxd.Gravity.Record.Wire.{to_dict, from_dict}
use pyrxd.Gravity.Record.Wire.RoundTrip.{from_dict-to_dict_record}
use pyrxd.Gravity.Record.Locators.{
  hex_or, BtcOutpoint, make_outpoint, make_script_tree, BtcHtlcLocator, make_btc_locator,
  EthHtlcLocator, locator_codec,
}
use pyrxd.Gravity.Record.Locators.Codec.{IsMadeBtc}
use pyrxd.Gravity.Tests.Swaps.{btc_terms, btc_terms-IsValid, btc_terms_typed}

abbrev funding : BtcOutpoint
funding = record { txid = replicate 64 0x61; vout = 1 }

abbrev locator : BtcHtlcLocator
locator = record {
  funding_outpoint = funding;
  script_tree = record {
    claim_script = 0xa8 ∷ 0x20 ∷ [];
    refund_script = 0xb2 ∷ 0x75 ∷ [];
    leaf_version = 0xc0;
  };
  control_block_claim = replicate 65 0xc0;
  control_block_refund = replicate 65 0xc1;
  internal_key = replicate 32 0x50;
  amount_sats = 50000;
  network = "bc";
}

funding_made : make_outpoint funding ≡ ok funding
unfolding make_outpoint hex_or from_hex
funding_made = refl

tree_made : make_script_tree locator.script_tree ≡ ok locator.script_tree
unfolding make_script_tree
tree_made = refl

locator_made : make_btc_locator locator ≡ ok locator
unfolding make_btc_locator
locator_made = refl

locator-IsMadeBtc : IsMadeBtc locator
locator-IsMadeBtc = record {
  outpoint = funding_made;
  tree = tree_made;
  locator = locator_made;
  claim_script = omega arith;
  refund_script = omega arith;
  control_block_claim = omega arith;
  control_block_refund = omega arith;
  internal_key = omega arith;
}

abbrev swap : SwapRecord BtcHtlcLocator EthHtlcLocator
swap = record {
  state = both_locked;
  terms = btc_terms;
  counterchain_locator = btc_locator locator;
  radiant_covenant_outpoint = none;
  radiant_covenant_spk_hex = none;
}

swap_made : make_record swap ≡ ok swap
unfolding make_record check_locator check_spk
swap_made = refl

from_dict-to_dict_record_example : from_dict locator_codec (to_dict locator_codec swap) ≡ ok swap
from_dict-to_dict_record_example =
    from_dict-to_dict_record swap swap_made locator-IsMadeBtc btc_terms_typed btc_terms-IsValid
      (λ h. cc)
