-- ===== src/Gravity/Watch/Decide/Safety.antt =====
-- When the watchtower may act by itself: the two autonomy flags of a decision.
use pyrxd.Common.{
  ℕ, ◌≡◌, inl, inr, refl, arith, Bool, true, false, ◌||◌, Option, none, some, ok, Ensures,
  Ensures-ok, Bool-cases,
}
use pyrxd.Gravity.Machine.{
  SwapState, btc_locked, both_locked, secret_revealed, params_mismatch, is_terminal, state_eq,
}
use pyrxd.Gravity.Margin.{MarginPolicy}
use pyrxd.Gravity.Terms.{NegotiatedTerms}
use pyrxd.Gravity.Record.{SwapRecord}
use pyrxd.Gravity.Watch.Decide.{
  page_refund, page_claim, Observations, Decision, make_decision, btc_refund_matured,
  btc_locked_page, btc_silent, eth_silent, decide_eth, decide_btc, decide_at, decide,
}
use text.Mathlib.Text.{◌==◌ as str_eq}
use pyrxd.Gravity.Watch.Decide.Sound.{
  IsRefundable, IsClaimable, IsSound, btc_refund_matured_lem, page-IsSound, btc_claim_race-IsSound,
  eth_claim_race-IsSound, both_locked_page-IsSound,
}

||-false_left : (a b : Bool) → a || b ≡ false → a ≡ false
||-false_left a b h = ground arith

btc_locked_page-IsSound :
    (t : NegotiatedTerms) (o : Observations) (p : MarginPolicy) (lock : Option ℕ)
    → str_eq t.counter_chain "btc" ≡ true
    → o.maker_has_claimed_btc ≡ false
    → o.asset_locked_at_height ≡ lock
    → IsSound btc_locked t o p (btc_locked_page t o lock)
unfolding btc_locked_page make_decision
btc_locked_page-IsSound t o p (some lock) chain unclaimed seen = page-IsSound _ _ _ _ _ _ _ _ _
btc_locked_page-IsSound t o p none chain unclaimed unseen =
    elim (Bool-cases (btc_refund_matured t o)) [
      | inr early ↦ rw early (page-IsSound _ _ _ _ _ _ _ _ _)
      | inl mature ↦
          let (unit, c, funding, due) = btc_refund_matured_lem t o mature in
          rw mature (record {
            accepted = refl;
            claim = λ h. cc;
            refund = λ h. (
              refl,
              record {
                chain = chain;
                unclaimed = unclaimed;
                state = inr (refl, unseen);
                unit = unit;
                depth = c;
                funding = funding;
                matured = due;
              },
            );
          })
    ]

params_mismatch-IsSound :
    (t : NegotiatedTerms) (o : Observations) (p : MarginPolicy) (window : ℕ)
    → str_eq t.counter_chain "btc" ≡ true
    → o.maker_has_claimed_btc ≡ false
    → Ensures (IsSound params_mismatch t o p) (btc_silent t o p window params_mismatch)
unfolding btc_silent make_decision
params_mismatch-IsSound t o p window chain unclaimed = elim (Bool-cases (btc_refund_matured t o)) [
  | inr early ↦ rw early (page-IsSound _ _ _ _ _ _ _ _ _)
  | inl mature ↦
      let (unit, c, funding, due) = btc_refund_matured_lem t o mature in
      rw mature (record {
        accepted = refl;
        claim = λ h. cc;
        refund = λ h. (
          refl,
          record {
            chain = chain;
            unclaimed = unclaimed;
            state = inl refl;
            unit = unit;
            depth = c;
            funding = funding;
            matured = due;
          },
        );
      })
]

btc_silent-IsSound :
    (s : SwapState) (t : NegotiatedTerms) (o : Observations) (p : MarginPolicy) (window : ℕ)
    → str_eq t.counter_chain "btc" ≡ true
    → o.maker_has_claimed_btc ≡ false
    → Ensures (IsSound s t o p) (btc_silent t o p window s)
unfolding btc_silent
btc_silent-IsSound params_mismatch t o p window chain unclaimed =
    params_mismatch-IsSound t o p window chain unclaimed
btc_silent-IsSound both_locked t o p window chain unclaimed =
    both_locked_page-IsSound both_locked t o p window o.asset_locked_at_height
btc_silent-IsSound btc_locked t o p window chain unclaimed =
    btc_locked_page-IsSound t o p o.asset_locked_at_height chain unclaimed refl
btc_silent-IsSound _ t o p window chain unclaimed = page-IsSound _ _ _ _ _ _ _ _ _

eth_silent-IsSound :
    (s : SwapState) (t : NegotiatedTerms) (o : Observations) (p : MarginPolicy) (window : ℕ)
    → Ensures (IsSound s t o p) (eth_silent t o p window s)
unfolding eth_silent
eth_silent-IsSound both_locked t o p window =
    both_locked_page-IsSound both_locked t o p window o.asset_locked_at_height
eth_silent-IsSound _ t o p window = page-IsSound _ _ _ _ _ _ _ _ _

decide_btc-IsSound :
    (s : SwapState) (t : NegotiatedTerms) (o : Observations) (p : MarginPolicy) (window : ℕ)
    → str_eq t.counter_chain "btc" ≡ true
    → Ensures (IsSound s t o p) (decide_btc s t o p window)
unfolding decide_btc
decide_btc-IsSound s t o p window chain =
    elim (Bool-cases (o.maker_has_claimed_btc || state_eq s secret_revealed)) [
      | inl revealed ↦ rw revealed (btc_claim_race-IsSound s t o p _ _ chain revealed refl refl)
      | inr silent ↦ rw silent (btc_silent-IsSound s t o p window chain (||-false_left _ _ silent))
    ]

decide_eth-IsSound :
    (s : SwapState) (t : NegotiatedTerms) (o : Observations) (p : MarginPolicy) (window : ℕ)
    → Ensures (IsSound s t o p) (decide_eth s t o p window)
unfolding decide_eth
decide_eth-IsSound s t o p window =
    elim (Bool-cases (o.eth_claim_detected || state_eq s secret_revealed)) [
      | inl revealed ↦ rw revealed (eth_claim_race-IsSound s t o p _ _)
      | inr silent ↦ rw silent (eth_silent-IsSound s t o p window)
    ]

decide-IsSound :
    {B E : Type 0} (r : SwapRecord B E) (o : Observations) (p : MarginPolicy) (window : ℕ)
    → Ensures (IsSound r.state r.terms o p) (decide r o p window)
unfolding decide decide_at
decide-IsSound r o p window = elim (Bool-cases (is_terminal r.state)) [
  | inl done ↦ rw done (page-IsSound _ _ _ _ _ _ _ _ _)
  | inr live ↦ elim (Bool-cases (str_eq r.terms.counter_chain "eth")) [
    | inl eth ↦ rw (live, eth) (decide_eth-IsSound r.state r.terms o p window)
    | inr not_eth ↦ elim (Bool-cases (str_eq r.terms.counter_chain "btc")) [
      | inl btc ↦ rw (live, not_eth, btc) (decide_btc-IsSound r.state r.terms o p window btc)
      | inr other ↦ rw (live, not_eth, other) (page-IsSound _ _ _ _ _ _ _ _ _)
    ]
  ]
]

module _ {B E : Type 0} (r : SwapRecord B E) (o : Observations) (p : MarginPolicy) (window : ℕ)
    (d : Decision) (decided : decide r o p window ≡ ok d) where
  sound : IsSound r.state r.terms o p d
  sound =
      Ensures-ok (IsSound r.state r.terms o p) (decide r o p window) (decide-IsSound r o p window)
        decided

  -- Every decision that `decide` returns is one that the constructor of `Decision` accepts unchanged:
  -- the refund flag stands only on a refund page, the claim flag only on a claim page, never both.
  pub make_decision-decide : make_decision d ≡ ok d
  make_decision-decide = sound.accepted

  -- The watchtower refunds the taker's BTC without an operator only on a BTC swap whose maker was not
  -- seen to claim, in the state PARAMS_MISMATCH, or in BTC_LOCKED with no asset lock observed, and
  -- only where `t_btc` is a lock in blocks that the observed depth of the funding has reached.
  pub decide_refunds :
      d.autonomous_btc_refund ≡ true → (d.intent ≡ page_refund) × IsRefundable r.state r.terms o
  decide_refunds = sound.refund

  -- The watchtower claims the asset without an operator only on a BTC swap whose secret is out, on
  -- chain or in the record, where the maker's claim has the reorg depth of the policy and the taker's
  -- claim can bury by the required depth before the maker's refund opens.
  pub decide_claims :
      d.autonomous_asset_claim ≡ true → (d.intent ≡ page_claim) × IsClaimable r.state r.terms o p
  decide_claims = sound.claim
