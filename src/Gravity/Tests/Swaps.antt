-- ===== src/Gravity/Tests/Swaps.antt =====
-- Runs of the state machine and of the terms' wire form.
use pyrxd.Common.{ℕ, ◌≡◌, ◌↔◌, refl, bytes_eq, List, [], ◌∷◌, ok, err, arith, replicate, none, some}
use pyrxd.Gravity.Machine.{negotiated, completed, one_sided_loss_taker}
use pyrxd.Gravity.Machine.{
  SwapEvent, taker_funds_btc, maker_locks_asset, maker_claims_btc_reveals_p,
  taker_scrapes_p_claims_asset,
}
use pyrxd.Gravity.Machine.{advance}
use pyrxd.Gravity.Machine.Traces.{run, run-loss_iff, loss_path}
use pyrxd.Gravity.Timelock.{blocks}
use pyrxd.Gravity.Terms.{
  NegotiatedTerms, make_terms, to_dict, from_dict, value_missing, zero32, b32, resolve_value,
  check_timeout, check_keys, check_asset, check_order,
}
use pyrxd.Gravity.Terms.Valid.{IsValid, IsEthLeg, make_terms-IsValid}
use pyrxd.Gravity.Terms.Wire.{IsWellTyped, from_dict-to_dict, from_dict-to_dict_refused}

abbrev happy : List SwapEvent
happy =
    taker_funds_btc ∷ maker_locks_asset ∷ maker_claims_btc_reveals_p ∷ taker_scrapes_p_claims_asset
    ∷ []

happy_completes : run negotiated happy ≡ ok completed
unfolding run advance
happy_completes = refl

run-loss_iff_example :
    (run negotiated loss_path ≡ ok one_sided_loss_taker) ↔ (loss_path ≡ loss_path)
run-loss_iff_example = run-loss_iff loss_path

abbrev key : List ℕ
key = replicate 32 7

abbrev pub btc_terms : NegotiatedTerms
btc_terms = record {
  hashlock = key;
  btc_sats = 50000;
  radiant_amount = 900;
  t_btc = record { value = 144; unit = blocks };
  t_rxd = record { value = 72; unit = blocks };
  asset_variant = "rxd";
  genesis_ref = [];
  taker_dest_hash = key;
  maker_dest_hash = key;
  btc_claim_pubkey_xonly = key;
  btc_refund_pubkey_xonly = key;
  counter_chain = "btc";
  value_amount = 50000;
  eth_timeout_unix_s = none;
  credential_ref = [];
}

abbrev pub eth_terms : NegotiatedTerms
eth_terms = record btc_terms {
  counter_chain = "eth";
  eth_timeout_unix_s = some 1800000000;
  btc_claim_pubkey_xonly = zero32;
  btc_refund_pubkey_xonly = zero32;
}

btc_terms_made : make_terms btc_terms ≡ ok btc_terms
unfolding make_terms b32 resolve_value check_timeout check_keys check_asset check_order bytes_eq
btc_terms_made = refl

eth_terms_made : make_terms eth_terms ≡ ok eth_terms
unfolding make_terms b32 resolve_value check_timeout check_keys check_asset check_order bytes_eq
eth_terms_made = refl

pub btc_terms-IsValid : IsValid btc_terms
btc_terms-IsValid = make_terms-IsValid btc_terms btc_terms btc_terms_made

pub btc_terms_typed : IsWellTyped btc_terms
btc_terms_typed = omega arith

from_dict-to_dict_example : from_dict (to_dict btc_terms) ≡ ok btc_terms
from_dict-to_dict_example = from_dict-to_dict btc_terms btc_terms_typed btc_terms-IsValid (λ h. cc)

eth_terms_leg : IsEthLeg eth_terms
eth_terms_leg = record {
  chain = refl;
  not_btc = refl;
  amount = omega arith;
  timeout = (1800000000, refl, omega arith);
  no_claim_key = refl;
  no_refund_key = refl;
}

from_dict-to_dict_refused_example : from_dict (to_dict eth_terms) ≡ err value_missing
from_dict-to_dict_refused_example =
    from_dict-to_dict_refused eth_terms (omega arith)
      (make_terms-IsValid eth_terms eth_terms eth_terms_made) eth_terms_leg refl
