-- ===== src/Gravity/Coordinator/Parts.antt =====
-- src/pyrxd/gravity/swap_coordinator.py: what the methods of `SwapCoordinator` have in common: guards,
-- handlers, the checks of a claim on either counter chain, and the last lines.
use pyrxd.Common.{ℕ, Bool, true, false, not, if◌then◌else◌, List, [], ◌∷◌, Result, ok, err}
use pyrxd.Gravity.Machine.{SwapState, SwapEvent, state_eq}
use pyrxd.Gravity.Margin.{ClaimFinality}
use pyrxd.Gravity.Terms.{NegotiatedTerms}
use pyrxd.Gravity.Record.{Locator, no_locator, btc_locator, eth_locator, SwapRecord}
use pyrxd.Gravity.Coordinator.{
  Env, CoordError, wrong_state, no_locator_on_record, is_validation, World, Action, ◌>>◌, raise_if,
  get_record, advance_by, persist_record,
}
use pyrxd.Gravity.Coordinator.Secrets.{btc_secret, eth_secret, btc_finality, eth_finality}
use text.Mathlib.Text.{◌==◌ as str_eq}

abbrev pub is_btc : NegotiatedTerms → Bool
is_btc t = str_eq t.counter_chain "btc"

-- "<unverifiable>", where the outpoint of a covenant would stand.
abbrev pub unverifiable : List ℕ
unverifiable =
    0x3c ∷ 0x75 ∷ 0x6e ∷ 0x76 ∷ 0x65 ∷ 0x72 ∷ 0x69 ∷ 0x66 ∷ 0x69 ∷ 0x61 ∷ 0x62 ∷ 0x6c ∷ 0x65 ∷ 0x3e
    ∷ []

module _ {B E : Type 0} where
  abbrev pub is_locator : Locator B E → Bool
  is_locator no_locator = false
  is_locator (btc_locator b) = true
  is_locator (eth_locator e) = true

  -- `if self.record.state is not s: raise`.
  unfoldable pub only_from : SwapState → SwapRecord B E → Action B E (Unit {0})
  only_from s r = raise_if (not (state_eq r.state s)) (wrong_state r.state)

  -- `if self.record.counterchain_locator is None: raise`.
  unfoldable pub locator_of : SwapRecord B E → Action B E (Unit {0})
  locator_of r = raise_if (not (is_locator r.counterchain_locator)) no_locator_on_record

  -- The end of a handler: what it raised itself, or the exception that it handled.
  unfoldable pub reraise :
      {A : Type 0}
      → CoordError
      → Result CoordError (Unit {0}) × World B E
      → Result CoordError A × World B E
  reraise e (ok handled, w) = (err e, w)
  reraise e (err e', w) = (err e', w)

  unfoldable pub settle :
      Result CoordError (Unit {0}) → Action B E (Unit {0}) → Action B E (Unit {0})
  unfolding reraise
  settle (ok a) handler w = (ok a, w)
  settle (err e) handler w = if is_validation e then reraise e (handler w) else (err e, w)

  -- `try: m except ValidationError: handler; raise`.
  unfoldable pub on_validation_error :
      Action B E (Unit {0}) → Action B E (Unit {0}) → Action B E (Unit {0})
  unfolding settle
  on_validation_error m handler w = let (r, w') = m w in settle r handler w'

module _ {B E : Type 0} (env : Env B E) where
  unfoldable pub finality_of : SwapRecord B E → List ℕ → ℕ → ℕ → Result CoordError ClaimFinality
  finality_of r claim now lock =
      if is_btc r.terms
      then btc_finality env r claim now lock
      else eth_finality env r claim now lock

  -- `advance`, then the shielded persist, then `return self.record`.
  unfoldable pub finish : SwapEvent → Action B E (SwapRecord B E)
  finish event = do advance_by event; persist_record env; get_record

module _ {B E : Type 0} (sha256 : List ℕ → List ℕ) (env : Env B E) where
  -- The checks before a claim and the reorg gate, on the counter chain of the terms.
  unfoldable pub secret_of : SwapRecord B E → List ℕ → Result CoordError (List ℕ)
  secret_of r claim =
      if is_btc r.terms then btc_secret sha256 env r claim else eth_secret sha256 env r claim
