-- ===== src/Gravity/Watch/Decide/Total.antt =====
-- The watchtower always has an answer: no exception leaves `decide`.
use pyrxd.Common.{
  ℕ, ◌+◌, ◌<◌, ◌≡◌, ◌≢◌, inl, inr, refl, arith, ◌||◌, Option, none, some, ok, Bool-cases,
}
use pyrxd.Gravity.Machine.{SwapState, both_locked, secret_revealed, is_terminal, state_eq}
use pyrxd.Gravity.Timelock.{blocks, Timelock}
use pyrxd.Gravity.Finality.{CounterClaimState, from_btc_depth}
use pyrxd.Gravity.Margin.{MarginPolicy, wait, assess_claim_finality}
use pyrxd.Gravity.Terms.{NegotiatedTerms}
use pyrxd.Gravity.Terms.Valid.{IsValid}
use pyrxd.Gravity.Timelock.Normalize.{to_blocks_of_blocks}
use pyrxd.Gravity.Record.{SwapRecord}
use pyrxd.Gravity.Watch.Decide.{
  Observations, Decision, required_btc_depth_blocks, refund_opens_at, btc_claim_race,
  eth_claim_race, both_locked_page, btc_silent, eth_silent, decide_eth, decide_btc, decide_at,
  decide,
}
use text.Mathlib.Text.{◌==◌ as str_eq}
use pyrxd.Gravity.Margin.{blocks_of, make_policy, reserve_to_blocks, counter_reserve_rxd}
use pyrxd.Gravity.Margin.Gate.{assess_claim_finality-wait_iff}
use pyrxd.Gravity.Margin.Policy.{make_policy_iff}

module _ (t : NegotiatedTerms) (o : Observations) (p : MarginPolicy) (rxd : ℕ)
    (converts : blocks_of p t.t_rxd ≡ ok rxd) where
  refund_opens_at_total : (lock : ℕ) → refund_opens_at p t lock ≡ ok (lock + rxd)
  unfolding refund_opens_at
  refund_opens_at_total lock = rw converts

  btc_claim_race_total :
      (confs lock : Option ℕ) (depth : ℕ)
      → required_btc_depth_blocks p ≡ ok depth
      → (d : Decision) × (btc_claim_race t o p confs lock ≡ ok d)
  unfolding btc_claim_race
  btc_claim_race_total none lock depth found = (_, refl)
  btc_claim_race_total (some c) none depth found = (_, refl)
  btc_claim_race_total (some c) (some lock) depth found =
      rw (found, refund_opens_at_total lock) (_, refl)

  eth_claim_race_total :
      (f : Option CounterClaimState) (lock : Option ℕ)
      → (d : Decision) × (eth_claim_race t o p f lock ≡ ok d)
  unfolding eth_claim_race
  eth_claim_race_total none lock = (_, refl)
  eth_claim_race_total (some f) none = (_, refl)
  eth_claim_race_total (some f) (some lock) = rw (refund_opens_at_total lock) (_, refl)

  both_locked_page_total :
      (window : ℕ) (lock : Option ℕ) → (d : Decision) × (both_locked_page t o p window lock ≡ ok d)
  unfolding both_locked_page
  both_locked_page_total window none = (_, refl)
  both_locked_page_total window (some lock) = rw (refund_opens_at_total lock) (_, refl)

  btc_silent_total :
      (window : ℕ) (s : SwapState) → (d : Decision) × (btc_silent t o p window s ≡ ok d)
  unfolding btc_silent
  btc_silent_total window both_locked = both_locked_page_total window o.asset_locked_at_height
  btc_silent_total window _ = (_, refl)

  eth_silent_total :
      (window : ℕ) (s : SwapState) → (d : Decision) × (eth_silent t o p window s ≡ ok d)
  unfolding eth_silent
  eth_silent_total window both_locked = both_locked_page_total window o.asset_locked_at_height
  eth_silent_total window _ = (_, refl)

  decide_at_total :
      (s : SwapState) (window depth : ℕ)
      → required_btc_depth_blocks p ≡ ok depth
      → (d : Decision) × (decide_at s t o p window ≡ ok d)
  unfolding decide_at decide_btc decide_eth
  decide_at_total s window depth found = elim (Bool-cases (is_terminal s)) [
    | inl done ↦ rw done (_, refl)
    | inr live ↦ elim (Bool-cases (str_eq t.counter_chain "eth")) [
      | inl eth ↦ elim (Bool-cases (o.eth_claim_detected || state_eq s secret_revealed)) [
        | inl revealed ↦ rw (live, eth, revealed) (eth_claim_race_total _ _)
        | inr silent ↦ rw (live, eth, silent) (eth_silent_total window s)
      ]
      | inr not_eth ↦ elim (Bool-cases (str_eq t.counter_chain "btc")) [
        | inr other ↦ rw (live, not_eth, other) (_, refl)
        | inl btc ↦ elim (Bool-cases (o.maker_has_claimed_btc || state_eq s secret_revealed)) [
          | inl revealed ↦ rw (live, not_eth, btc, revealed) (btc_claim_race_total _ _ depth found)
          | inr silent ↦ rw (live, not_eth, btc, silent) (btc_silent_total window s)
        ]
      ]
    ]
  ]

converts :
    (t : NegotiatedTerms) (p : MarginPolicy)
    → 0 < p.block_interval_s.num
    → t.t_rxd.unit ≡ blocks
    → blocks_of p t.t_rxd ≡ ok t.t_rxd.value
unfolding blocks_of
converts t p pos unit = rw (to_blocks_of_blocks p.block_interval_s t.t_rxd pos unit)

-- Every poll gets a decision: with a policy that was constructed, on valid terms, `decide` raises
-- nothing, whatever is missing or inconsistent in the observations.
pub decide_total :
    {B E : Type 0} (r : SwapRecord B E) (o : Observations) (p : MarginPolicy) (window : ℕ)
    → make_policy p ≡ ok p
    → IsValid r.terms
    → (d : Decision) × (decide r o p window ≡ ok d)
unfolding decide
decide_total r o p window made valid =
    let checked = (make_policy_iff p).0 made in
    let (depth, found, two) = checked.depth in
    decide_at_total r.terms o p _ (converts r.terms p checked.interval_pos valid.short_leg) r.state
      window depth (unfold required_btc_depth_blocks in found)

-- A reorg depth whose count of blocks is rounded differently by `_required_btc_depth_blocks`, which
-- rounds down, and by the gate's reserve, which rounds up, never gives the answer WAIT: a claim that
-- still has to bury is then shown as closing or as not assessable, whatever time is left.
pub assess_claim_finality_diverges :
    (p : MarginPolicy) (depth c now lock : ℕ) (t_rxd : Timelock) (value : Option ℕ)
    → required_btc_depth_blocks p ≡ ok depth
    → depth ≢ reserve_to_blocks p.btc_claim_reorg_depth p.block_interval_s
    → assess_claim_finality (from_btc_depth c depth) now lock t_rxd p value ≢ ok wait
assess_claim_finality_diverges p depth c now lock t_rxd value found apart says =
    let (live, room) = (assess_claim_finality-wait_iff _ _ _ _ _ _).0 says in
    diverges room.reserve room.reserve_blocks
  where
    diverges : (n : ℕ) → counter_reserve_rxd p (from_btc_depth c depth) ≡ ok n → ⊥
    diverges n h = unfold counter_reserve_rxd from_btc_depth in ground (arith, apart)
