-- ===== src/Gravity/Record/Wire.antt =====
-- src/pyrxd/gravity/swap_state.py: `SwapRecord.to_dict` and `from_dict`. The codecs of the two locator
-- classes are an interface, which Record/Locators fills; a JSON object is a record of its keys.
pub mod RoundTrip
use pyrxd.Common.{
  ℕ, ◌≡◌, Bool, true, false, List, Option, none, some, Result, ok, err, ◌>>=◌, map_err,
  if◌then◌else◌,
}
use pyrxd.Gravity.Machine.{
  SwapState, negotiated, btc_locked, both_locked, secret_revealed, completed, mutual_refund,
  params_mismatch, maker_stalls, asset_vulnerable, one_sided_loss_taker, aborted,
  asset_refunded_taker_acts,
}
use pyrxd.Gravity.Terms.{TermsError, WireTerms}
use pyrxd.Gravity.Terms
use pyrxd.Gravity.Record.{
  Locator, no_locator, btc_locator, eth_locator, SwapRecord, RecordError, make_record,
}
use Prim.Native.String.{String}
use text.Mathlib.Text.{◌==◌ as str_eq}

pub data LoadError : Type 0 where
  unknown_state unknown_chain bad_locator : LoadError
  bad_terms : TermsError → LoadError
  bad_record : RecordError → LoadError

-- `to_dict` and `from_dict` of `BtcHtlcLocator` and `EthHtlcLocator`, which Locators has; `D` is a JSON
-- object.
pub record LocatorCodec (B E D : Type 0) : Type 0 where
  pub btc_to_dict : B → D
  pub btc_from_dict : D → Result LoadError B
  pub eth_to_dict : E → D
  pub eth_from_dict : D → Result LoadError E

-- The locators that the reader gets back from their JSON forms.
pub record IsCodec {B E D : Type 0} (c : LocatorCodec B E D) (IsBtc : B → Type 0)
    (IsEth : E → Type 0) : Type 0 where
  pub btc : (b : B) → IsBtc b → c.btc_from_dict (c.btc_to_dict b) ≡ ok b
  pub eth : (e : E) → IsEth e → c.eth_from_dict (c.eth_to_dict e) ≡ ok e

-- `SwapState.value` and `SwapState(text)`.
unfoldable pub state_text : SwapState → String
state_text negotiated = "negotiated"
state_text btc_locked = "btc_locked"
state_text both_locked = "both_locked"
state_text secret_revealed = "secret_revealed"
state_text completed = "completed"
state_text aborted = "aborted"
state_text mutual_refund = "mutual_refund"
state_text maker_stalls = "maker_stalls"
state_text params_mismatch = "params_mismatch"
state_text asset_vulnerable = "asset_vulnerable"
state_text asset_refunded_taker_acts = "asset_refunded_taker_acts"
state_text one_sided_loss_taker = "one_sided_loss_taker"

unfoldable pub state_of : String → Result LoadError SwapState
state_of s =
    if str_eq s "negotiated"
    then ok negotiated
    else if str_eq s "btc_locked"
    then ok btc_locked
    else if str_eq s "both_locked"
    then ok both_locked
    else if str_eq s "secret_revealed"
    then ok secret_revealed
    else if str_eq s "completed"
    then ok completed
    else if str_eq s "aborted"
    then ok aborted
    else if str_eq s "mutual_refund"
    then ok mutual_refund
    else if str_eq s "maker_stalls"
    then ok maker_stalls
    else if str_eq s "params_mismatch"
    then ok params_mismatch
    else if str_eq s "asset_vulnerable"
    then ok asset_vulnerable
    else if str_eq s "asset_refunded_taker_acts"
    then ok asset_refunded_taker_acts
    else if str_eq s "one_sided_loss_taker"
    then ok one_sided_loss_taker
    else err unknown_state

-- The locator's keys: `btc_locator` of the first schema, or the chain-tagged `counterchain_locator`.
pub data WireLocator (D : Type 0) : Type 0 where
  legacy : Option D → WireLocator D
  tagged : String → D → WireLocator D

pub record WireRecord (D : Type 0) : Type 0 where
  pub state : String
  pub terms : WireTerms
  pub radiant_covenant_outpoint : Option (List ℕ)
  pub radiant_covenant_spk_hex : Option (List ℕ)
  pub locator : WireLocator D

module _ {B E D : Type 0} (c : LocatorCodec B E D) where
  unfoldable pub write_locator : Locator B E → WireLocator D
  write_locator no_locator = legacy none
  write_locator (btc_locator b) = legacy (some (c.btc_to_dict b))
  write_locator (eth_locator e) = tagged "eth" (c.eth_to_dict e)

  unfoldable pub read_locator : WireLocator D → Result LoadError (Locator B E)
  read_locator (legacy none) = ok no_locator
  read_locator (legacy (some d)) = do b ← c.btc_from_dict d; ok (btc_locator b)
  read_locator (tagged chain d) =
      if str_eq chain "eth"
      then (do e ← c.eth_from_dict d; ok (eth_locator e))
      else if str_eq chain "btc"
      then (do b ← c.btc_from_dict d; ok (btc_locator b))
      else err unknown_chain

  -- `SwapRecord.to_dict`.
  unfoldable pub to_dict : SwapRecord B E → WireRecord D
  to_dict r = record {
    state = state_text r.state;
    terms = Terms.to_dict r.terms;
    radiant_covenant_outpoint = r.radiant_covenant_outpoint;
    radiant_covenant_spk_hex = r.radiant_covenant_spk_hex;
    locator = write_locator r.counterchain_locator;
  }

  -- `SwapRecord.from_dict`.
  unfoldable pub from_dict : WireRecord D → Result LoadError (SwapRecord B E)
  from_dict d = do
    locator ← read_locator d.locator
    state ← state_of d.state
    terms ← map_err bad_terms (Terms.from_dict d.terms)
    map_err bad_record (
        make_record (record {
          state = state;
          terms = terms;
          counterchain_locator = locator;
          radiant_covenant_outpoint = d.radiant_covenant_outpoint;
          radiant_covenant_spk_hex = d.radiant_covenant_spk_hex;
        }))
