-- ===== src/Gravity/Watch/Decide/Branches.antt =====
-- What a decision tells the operator: retiring, claiming, watching, and the deadline shown.
use pyrxd.Common.{
  ℕ, ◌≡◌, ◌≢◌, ◌⊎◌, inl, inr, refl, true, false, ◌||◌, Option, none, some, ok, Ensures, Ensures-ok,
  Bool-cases, Result-cases,
}
use pyrxd.Gravity.Machine.{
  SwapState, btc_locked, both_locked, secret_revealed, params_mismatch, is_terminal, state_eq,
}
use pyrxd.Gravity.Finality.{CounterClaimState}
use pyrxd.Gravity.Margin.{MarginPolicy}
use pyrxd.Gravity.Terms.{NegotiatedTerms}
use pyrxd.Gravity.Terms.Valid.{IsValid, btc_not_eth}
use pyrxd.Gravity.Record.{SwapRecord}
use pyrxd.Gravity.Watch.Decide.{
  terminal, Observations, Decision, page, required_btc_depth_blocks, refund_opens_at,
  btc_claim_race, eth_claim_race, btc_silent, eth_silent, decide_eth, decide_btc, decide_at, decide,
  retire,
}
use text.Mathlib.Text.{◌==◌ as str_eq}
use pyrxd.Gravity.Watch.Decide.Faithful.{
  of_depth, of_checkpoint, is_revealed, IsFaithful, unassessed-IsFaithful, silent-IsFaithful,
  claim_page-IsFaithful, both_locked_page-IsFaithful, btc_locked_page-IsFaithful,
}

module _ (s : SwapState) (t : NegotiatedTerms) (o : Observations) (p : MarginPolicy) where
  btc_claim_race-IsFaithful :
      (confs lock : Option ℕ)
      → str_eq t.counter_chain "btc" ≡ true
      → o.btc_claim_confirmations ≡ confs
      → o.asset_locked_at_height ≡ lock
      → Ensures (IsFaithful s t o p) (btc_claim_race t o p confs lock)
  unfolding btc_claim_race
  btc_claim_race-IsFaithful none lock chain seen at = unassessed-IsFaithful s t o p
  btc_claim_race-IsFaithful (some c) none chain seen at = unassessed-IsFaithful s t o p
  btc_claim_race-IsFaithful (some c) (some lock) chain seen at =
      elim (Result-cases (required_btc_depth_blocks p)) [
        | inr (e, bad) ↦ rw bad tt
        | inl (depth, found) ↦ elim (Result-cases (refund_opens_at p t lock)) [
          | inr (e, bad) ↦ rw (found, bad) tt
          | inl (deadline, opens) ↦
              rw (found, opens)
                (claim_page-IsFaithful s t o p _ (of_depth c depth chain seen found) lock deadline
                  at opens true _ _ refl)
        ]
      ]

  eth_claim_race-IsFaithful :
      (state : Option CounterClaimState) (lock : Option ℕ)
      → str_eq t.counter_chain "eth" ≡ true
      → o.eth_claim_finality ≡ state
      → o.asset_locked_at_height ≡ lock
      → Ensures (IsFaithful s t o p) (eth_claim_race t o p state lock)
  unfolding eth_claim_race
  eth_claim_race-IsFaithful none lock chain seen at = unassessed-IsFaithful s t o p
  eth_claim_race-IsFaithful (some f) none chain seen at = unassessed-IsFaithful s t o p
  eth_claim_race-IsFaithful (some f) (some lock) chain seen at =
      elim (Result-cases (refund_opens_at p t lock)) [
        | inr (e, bad) ↦ rw bad tt
        | inl (deadline, opens) ↦ rw opens (
            claim_page-IsFaithful s t o p _ (of_checkpoint f chain seen) lock deadline at opens
              false _ _ refl)
      ]

btc_silent-IsFaithful :
    (s : SwapState) (t : NegotiatedTerms) (o : Observations) (p : MarginPolicy) (window : ℕ)
    → is_revealed s t o ≡ false
    → Ensures (IsFaithful s t o p) (btc_silent t o p window s)
unfolding btc_silent
btc_silent-IsFaithful both_locked t o p window silent =
    both_locked_page-IsFaithful both_locked t o p silent window _ refl
btc_silent-IsFaithful btc_locked t o p window silent =
    btc_locked_page-IsFaithful btc_locked t o p silent o.asset_locked_at_height
btc_silent-IsFaithful params_mismatch t o p window silent = record {
  goes_on = λ h. cc;
  claims = λ h. cc;
  watches = λ h. cc;
  deadline = λ n h. cc;
}
btc_silent-IsFaithful _ t o p window silent =
    silent-IsFaithful _ t o p _ _ _ _ (λ h. cc) (λ h. cc) silent

eth_silent-IsFaithful :
    (s : SwapState) (t : NegotiatedTerms) (o : Observations) (p : MarginPolicy) (window : ℕ)
    → is_revealed s t o ≡ false
    → Ensures (IsFaithful s t o p) (eth_silent t o p window s)
unfolding eth_silent
eth_silent-IsFaithful both_locked t o p window silent =
    both_locked_page-IsFaithful both_locked t o p silent window _ refl
eth_silent-IsFaithful _ t o p window silent =
    silent-IsFaithful _ t o p _ _ _ _ (λ h. cc) (λ h. cc) silent

module _ {B E : Type 0} (r : SwapRecord B E) (o : Observations) (p : MarginPolicy)
    (window : ℕ) where
  -- The chains that the watchtower handles, which valid terms are on.
  abbrev IsHandled : Type 0
  IsHandled =
      (str_eq r.terms.counter_chain "eth" ≡ true)
      ⊎ ((str_eq r.terms.counter_chain "btc" ≡ true) × (str_eq r.terms.counter_chain "eth" ≡ false))

  handled_of : IsValid r.terms → IsHandled
  handled_of v = elim v.leg [
    | inl btc ↦ inr (btc.chain, btc_not_eth _ btc.chain)
    | inr eth ↦ inl eth.chain
  ]

  decide-Ensures :
      is_terminal r.state ≡ false
      → IsHandled
      → Ensures (IsFaithful r.state r.terms o p) (decide r o p window)
  unfolding decide decide_at decide_btc decide_eth
  decide-Ensures live (inl eth) =
      elim (Bool-cases (o.eth_claim_detected || state_eq r.state secret_revealed)) [
        | inl revealed ↦
            rw (live, eth, revealed)
              (eth_claim_race-IsFaithful r.state r.terms o p _ _ eth refl refl)
        | inr silent ↦
            rw (live, eth, silent)
              (eth_silent-IsFaithful r.state r.terms o p window (rw (eth) silent))
      ]
  decide-Ensures live (inr (btc, not_eth)) =
      elim (Bool-cases (o.maker_has_claimed_btc || state_eq r.state secret_revealed)) [
        | inl revealed ↦
            rw (live, not_eth, btc, revealed)
              (btc_claim_race-IsFaithful r.state r.terms o p _ _ btc refl refl)
        | inr silent ↦
            rw (live, not_eth, btc, silent)
              (btc_silent-IsFaithful r.state r.terms o p window (rw not_eth silent))
      ]

  -- A swap on valid terms is retired exactly in a terminal state of the machine, where `decide` never
  -- fails.
  pub decide-retires :
      IsValid r.terms
      → (is_terminal r.state ≡ true
          → (d : Decision) × (decide r o p window ≡ ok d) × (d.intent ≡ retire))
        × (is_terminal r.state ≡ false
            → (d : Decision) → decide r o p window ≡ ok d
            → d.intent ≢ retire)
  unfolding decide decide_at
  decide-retires valid = (
    λ done. (page retire terminal none none o.low_corroboration, rw done, refl),
    λ live d h.
        (Ensures-ok (IsFaithful r.state r.terms o p) (decide r o p window)
          (decide-Ensures live (handled_of valid)) h).goes_on,
  )

  -- A decision on a swap on valid terms that is not over: it has the intent PAGE_CLAIM only where the
  -- reorg-finality gate says SAFE on what was observed (a PAGE_SQUEEZED too may recommend to claim); once the secret is out, on chain or in the record, the watchtower
  -- only watches where the gate says WAIT, so never for want of data; and a deadline shown is the
  -- height at which the maker's refund opens.
  pub decide-IsFaithful :
      (d : Decision)
      → is_terminal r.state ≡ false
      → IsValid r.terms
      → decide r o p window ≡ ok d
      → IsFaithful r.state r.terms o p d
  decide-IsFaithful d live valid h =
      Ensures-ok (IsFaithful r.state r.terms o p) (decide r o p window)
        (decide-Ensures live (handled_of valid)) h
