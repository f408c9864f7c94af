-- ===== src/Gravity/Record/Wire/RoundTrip.antt =====
-- A record that was written to disk is read back.
use pyrxd.Common.{◌≡◌, ◌≢◌, refl, false, ok}
use pyrxd.Gravity.Machine.{
  SwapState, negotiated, btc_locked, both_locked, secret_revealed, completed, mutual_refund,
  params_mismatch, maker_stalls, asset_vulnerable, one_sided_loss_taker, aborted,
  asset_refunded_taker_acts,
}
use pyrxd.Gravity.Terms.Valid.{IsValid}
use pyrxd.Gravity.Terms.Wire.{IsWellTyped, from_dict-to_dict}
use pyrxd.Gravity.Record.{Locator, no_locator, btc_locator, eth_locator, SwapRecord, make_record}
use pyrxd.Gravity.Record.Wire.{
  state_text, state_of, write_locator, read_locator, to_dict, from_dict,
}
use pyrxd.Gravity.Record.Locators.{BtcHtlcLocator, EthHtlcLocator, locator_codec}
use pyrxd.Gravity.Record.Locators.Codec.{IsMadeBtc, IsMadeEth, locator_codec-IsCodec}
use text.Mathlib.Text.{◌==◌ as str_eq}

state_of-state_text : (s : SwapState) → state_of (state_text s) ≡ ok s
unfolding state_text state_of
state_of-state_text negotiated = refl
state_of-state_text btc_locked = refl
state_of-state_text both_locked = refl
state_of-state_text secret_revealed = refl
state_of-state_text completed = refl
state_of-state_text aborted = refl
state_of-state_text mutual_refund = refl
state_of-state_text maker_stalls = refl
state_of-state_text params_mismatch = refl
state_of-state_text asset_vulnerable = refl
state_of-state_text asset_refunded_taker_acts = refl
state_of-state_text one_sided_loss_taker = refl

-- The locator on a record, if there is one, was constructed.
abbrev pub IsMade : Locator BtcHtlcLocator EthHtlcLocator → Type 0
IsMade no_locator = Unit {0}
IsMade (btc_locator l) = IsMadeBtc l
IsMade (eth_locator l) = IsMadeEth l

read_locator-write_locator :
    (l : Locator BtcHtlcLocator EthHtlcLocator)
    → IsMade l
    → read_locator locator_codec (write_locator locator_codec l) ≡ ok l
unfolding write_locator read_locator
read_locator-write_locator no_locator k = refl
read_locator-write_locator (btc_locator b) k = rw (locator_codec-IsCodec.btc b k) refl
read_locator-write_locator (eth_locator e) k = rw (locator_codec-IsCodec.eth e k) refl

-- Crash recovery: a constructed record, whose locator was constructed of bytes, whose terms are valid and
-- well typed and, on an ETH swap, have an amount of wei other than the number `btc_sats`, is read back from
-- its JSON form as it was.
pub from_dict-to_dict_record :
    (r : SwapRecord BtcHtlcLocator EthHtlcLocator)
    → make_record r ≡ ok r
    → IsMade r.counterchain_locator
    → IsWellTyped r.terms
    → IsValid r.terms
    → (str_eq r.terms.counter_chain "btc" ≡ false → r.terms.value_amount ≢ r.terms.btc_sats)
    → from_dict locator_codec (to_dict locator_codec r) ≡ ok r
unfolding to_dict from_dict
from_dict-to_dict_record r made located w v apart = rw (
  read_locator-write_locator r.counterchain_locator located,
  state_of-state_text r.state,
  from_dict-to_dict r.terms w v apart,
  made,
)
