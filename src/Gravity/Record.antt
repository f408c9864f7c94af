-- ===== src/Gravity/Record.antt =====
-- src/pyrxd/gravity/swap_state.py: `SwapRecord`, the durable state of one swap. The two kinds of
-- counter-leg locator are kept apart; what a locator holds is a parameter here, and in Locators.
pub mod Wire
pub mod Locators
pub mod Updates
use pyrxd.Common.{
  ℕ, ◌≡◌, Bool, true, false, ◌||◌, not, List, Option, none, some, Result, ok, err, ◌>>=◌, ◌>>◌,
  guard,
}
use pyrxd.Common.Hex.{from_hex}
use pyrxd.Gravity.Machine.{SwapState}
use pyrxd.Gravity.Terms.{NegotiatedTerms}
use text.Mathlib.Text.{◌==◌ as str_eq}

-- `BtcHtlcLocator | EthHtlcLocator | None`.
pub data Locator (B E : Type 0) : Type 0 where
  no_locator : Locator B E
  btc_locator : B → Locator B E
  eth_locator : E → Locator B E

-- `SwapRecord`.
pub record SwapRecord (B E : Type 0) : Type 0 where
  pub state : SwapState
  pub terms : NegotiatedTerms
  pub counterchain_locator : Locator B E
  pub radiant_covenant_outpoint : Option (List ℕ)
  pub radiant_covenant_spk_hex : Option (List ℕ)

pub data RecordError : Type 0 where
  btc_locator_on_other eth_locator_on_other spk_not_hex : RecordError

-- `radiant_covenant_spk_hex` must be hex text.
unfoldable pub check_spk : Option (List ℕ) → Result RecordError (Unit {0})
check_spk none = ok tt
check_spk (some text) = elim (from_hex text) [ none ↦ err spk_not_hex | some bs ↦ ok tt ]

module _ {B E : Type 0} where
  -- The chain of the locator is the counter chain of the terms.
  unfoldable pub check_locator : Locator B E → NegotiatedTerms → Result RecordError (Unit {0})
  check_locator no_locator t = ok tt
  check_locator (btc_locator b) t = guard (str_eq t.counter_chain "btc") btc_locator_on_other
  check_locator (eth_locator e) t = guard (str_eq t.counter_chain "eth") eth_locator_on_other

  -- `SwapRecord.__post_init__`.
  unfoldable pub make_record : SwapRecord B E → Result RecordError (SwapRecord B E)
  make_record r = do
    check_locator r.counterchain_locator r.terms
    check_spk r.radiant_covenant_spk_hex
    ok r

  -- The property `btc_locator`.
  unfoldable pub btc_alias : SwapRecord B E → Option B
  btc_alias r = elim r.counterchain_locator [
    | no_locator ↦ none
    | btc_locator b ↦ some b
    | eth_locator e ↦ none
  ]

  unfoldable pub with_state : SwapState → SwapRecord B E → Result RecordError (SwapRecord B E)
  with_state s r = make_record (record r { state = s })

  unfoldable pub with_counter_lock :
      Locator B E → SwapRecord B E → Result RecordError (SwapRecord B E)
  with_counter_lock l r = make_record (record r { counterchain_locator = l })

  unfoldable pub with_btc_lock : B → SwapRecord B E → Result RecordError (SwapRecord B E)
  with_btc_lock b r = with_counter_lock (btc_locator b) r

  unfoldable pub with_radiant_lock :
      List ℕ → List ℕ → SwapRecord B E → Result RecordError (SwapRecord B E)
  with_radiant_lock outpoint spk r =
      make_record (record r {
        radiant_covenant_outpoint = some outpoint;
        radiant_covenant_spk_hex = some spk;
      })
