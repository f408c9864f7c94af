-- ===== src/Gravity/Watch/Decide/Sound.antt =====
-- When the watchtower may act by itself: what its two autonomy flags rest on, in the claim race and in
-- the state BOTH_LOCKED.
use pyrxd.Common.{
  ℕ, ◌≤◌, ◌≡◌, ◌⊎◌, inl, inr, refl, arith, Bool, true, false, ◌||◌, Option, none, some, Result, ok,
  err, Ensures, Option-cases, Result-cases,
}
use pyrxd.Gravity.Machine.{SwapState, btc_locked, secret_revealed, params_mismatch, state_eq}
use pyrxd.Gravity.Timelock.{blocks}
use pyrxd.Gravity.Finality.{final, CounterClaimState, from_btc_depth}
use pyrxd.Gravity.Margin.{
  MarginPolicy, MarginError, ClaimFinality, safe, wait, squeezed, assess_claim_finality,
}
use pyrxd.Gravity.Margin.Gate.{HasRoom, assess_claim_finality-safe_iff}
use pyrxd.Gravity.Terms.{NegotiatedTerms}
use pyrxd.Gravity.Watch.Decide.{
  Intent, page_refund, page_claim, Observations, Decision, make_decision, page, btc_refund_matured,
  value_at_risk_photons, required_btc_depth_blocks, refund_opens_at, claim_page, btc_claim_race,
  eth_claim_race, both_locked_page, stall_page, Reason, Action,
}
use text.Mathlib.Text.{◌==◌ as str_eq}

-- What a refund without an operator rests on: a broken or never answered lock, whose refund leaf has
-- matured.
pub record IsRefundable (s : SwapState) (t : NegotiatedTerms) (o : Observations) : Type 0 where
  pub chain : str_eq t.counter_chain "btc" ≡ true
  pub unclaimed : o.maker_has_claimed_btc ≡ false
  pub state : (s ≡ params_mismatch) ⊎ ((s ≡ btc_locked) × (o.asset_locked_at_height ≡ none))
  pub unit : t.t_btc.unit ≡ blocks
  pub depth : ℕ
  pub funding : o.btc_funding_confirmations ≡ some depth
  pub matured : t.t_btc.value ≤ depth

pub btc_refund_matured_lem :
    (t : NegotiatedTerms) (o : Observations)
    → btc_refund_matured t o ≡ true
    → (t.t_btc.unit ≡ blocks)
      × (c : ℕ) × (o.btc_funding_confirmations ≡ some c)
      × (t.t_btc.value ≤ c)
unfolding btc_refund_matured
btc_refund_matured_lem t o h = elim (Option-cases o.btc_funding_confirmations) [
  | inl missing ↦ absurd (ground arith)
  | inr (c, seen) ↦ (ground arith, c, seen, ground arith)
]

-- What a claim without an operator rests on: a revealed secret, a reorg-safe claim of the maker's, and
-- room for the taker's own claim to bury.
pub record IsClaimable (s : SwapState) (t : NegotiatedTerms) (o : Observations) (p : MarginPolicy)
    : Type 0 where
  pub chain : str_eq t.counter_chain "btc" ≡ true
  pub revealed : o.maker_has_claimed_btc || state_eq s secret_revealed ≡ true
  pub confirmations : ℕ
  pub depth : ℕ
  pub lock : ℕ
  pub claim_seen : o.btc_claim_confirmations ≡ some confirmations
  pub lock_seen : o.asset_locked_at_height ≡ some lock
  pub depth_required : required_btc_depth_blocks p ≡ ok depth
  pub buried : depth ≤ confirmations
  pub room :
      HasRoom
        (from_btc_depth confirmations depth)
        o.now_rxd_height
        lock
        t.t_rxd
        p
        (value_at_risk_photons t)

-- A decision that its constructor accepts and whose autonomy flags have their reasons.
pub record IsSound (s : SwapState) (t : NegotiatedTerms) (o : Observations) (p : MarginPolicy)
    (d : Decision) : Type 0 where
  pub accepted : make_decision d ≡ ok d
  pub refund : d.autonomous_btc_refund ≡ true → (d.intent ≡ page_refund) × IsRefundable s t o
  pub claim : d.autonomous_asset_claim ≡ true → (d.intent ≡ page_claim) × IsClaimable s t o p

module _ (s : SwapState) (t : NegotiatedTerms) (o : Observations) (p : MarginPolicy) where
  pub page-IsSound :
      (i : Intent) (r : Reason) (a : Option Action) (n : Option ℕ) (c : Bool)
      → IsSound s t o p (page i r a n c)
  unfolding make_decision
  page-IsSound i r a n c = record { accepted = refl; refund = λ h. cc; claim = λ h. cc }

  pub claim_page-IsSound :
      (arm : Bool) (r : Result MarginError ClaimFinality) (n : ℕ) (c : Bool)
      → (arm ≡ true → r ≡ ok safe → IsClaimable s t o p)
      → IsSound s t o p (claim_page arm r n c)
  unfolding claim_page make_decision
  claim_page-IsSound arm (err e) n c k = page-IsSound _ _ _ _ _
  claim_page-IsSound true (ok safe) n c k = record {
    accepted = refl;
    refund = λ h. cc;
    claim = λ h. (refl, k refl refl);
  }
  claim_page-IsSound false (ok safe) n c k = page-IsSound _ _ _ _ _
  claim_page-IsSound arm (ok wait) n c k = page-IsSound _ _ _ _ _
  claim_page-IsSound arm (ok squeezed) n c k = page-IsSound _ _ _ _ _

  pub stall_page-IsSound :
      (r : Result MarginError Bool) (n : ℕ) (c : Bool) → IsSound s t o p (stall_page r n c)
  unfolding stall_page
  stall_page-IsSound (err e) n c = page-IsSound _ _ _ _ _
  stall_page-IsSound (ok true) n c = page-IsSound _ _ _ _ _
  stall_page-IsSound (ok false) n c = page-IsSound _ _ _ _ _

pub from_btc_depth-final : (c depth : ℕ) → (from_btc_depth c depth).state ≡ final → depth ≤ c
unfolding from_btc_depth
from_btc_depth-final c depth h = ground arith

pub btc_claim_race-IsSound :
    (s : SwapState) (t : NegotiatedTerms) (o : Observations) (p : MarginPolicy)
    (confs lock : Option ℕ)
    → str_eq t.counter_chain "btc" ≡ true
    → o.maker_has_claimed_btc || state_eq s secret_revealed ≡ true
    → o.btc_claim_confirmations ≡ confs
    → o.asset_locked_at_height ≡ lock
    → Ensures (IsSound s t o p) (btc_claim_race t o p confs lock)
unfolding btc_claim_race
btc_claim_race-IsSound s t o p none lock chain revealed seen at = page-IsSound _ _ _ _ _ _ _ _ _
btc_claim_race-IsSound s t o p (some c) none chain revealed seen at = page-IsSound _ _ _ _ _ _ _ _ _
btc_claim_race-IsSound s t o p (some c) (some lock) chain revealed seen at =
    elim (Result-cases (required_btc_depth_blocks p)) [
      | inr (e, bad) ↦ rw bad tt
      | inl (depth, found) ↦ elim (Result-cases (refund_opens_at p t lock)) [
        | inr (e, bad) ↦ rw (found, bad) tt
        | inl (deadline, opens) ↦
            rw (found, opens)
              (claim_page-IsSound s t o p true _ deadline o.low_corroboration
                (λ armed safe_. claimable depth found safe_))
      ]
    ]
  where
    claimable :
        (depth : ℕ)
        → required_btc_depth_blocks p ≡ ok depth
        → assess_claim_finality
            (from_btc_depth c depth)
            o.now_rxd_height
            lock
            t.t_rxd
            p
            (value_at_risk_photons t)
          ≡ ok safe
        → IsClaimable s t o p
    claimable depth found answer =
        let (buried, room) = (assess_claim_finality-safe_iff _ _ _ _ _ _).0 answer in
        record {
          chain = chain;
          revealed = revealed;
          confirmations = c;
          depth = depth;
          lock = lock;
          claim_seen = seen;
          lock_seen = at;
          depth_required = found;
          buried = from_btc_depth-final c depth buried;
          room = room;
        }

pub eth_claim_race-IsSound :
    (s : SwapState) (t : NegotiatedTerms) (o : Observations) (p : MarginPolicy)
    (state : Option CounterClaimState) (lock : Option ℕ)
    → Ensures (IsSound s t o p) (eth_claim_race t o p state lock)
unfolding eth_claim_race make_decision
eth_claim_race-IsSound s t o p none lock = page-IsSound _ _ _ _ _ _ _ _ _
eth_claim_race-IsSound s t o p (some f) none = page-IsSound _ _ _ _ _ _ _ _ _
eth_claim_race-IsSound s t o p (some f) (some lock) =
    elim (Result-cases (refund_opens_at p t lock)) [
      | inr (e, bad) ↦ rw bad tt
      | inl (deadline, opens) ↦
          rw opens (claim_page-IsSound s t o p false _ deadline o.low_corroboration (λ armed. cc))
    ]

pub both_locked_page-IsSound :
    (s : SwapState) (t : NegotiatedTerms) (o : Observations) (p : MarginPolicy) (window : ℕ)
    (lock : Option ℕ)
    → Ensures (IsSound s t o p) (both_locked_page t o p window lock)
unfolding both_locked_page make_decision
both_locked_page-IsSound s t o p window none = page-IsSound _ _ _ _ _ _ _ _ _
both_locked_page-IsSound s t o p window (some lock) =
    elim (Result-cases (refund_opens_at p t lock)) [
      | inr (e, bad) ↦ rw bad tt
      | inl (deadline, opens) ↦ rw opens (stall_page-IsSound s t o p _ deadline o.low_corroboration)
    ]
