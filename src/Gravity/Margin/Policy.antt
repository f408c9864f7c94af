-- ===== src/Gravity/Margin/Policy.antt =====
-- What a constructed policy guarantees, the margin check, and the maker-stall window.
use pyrxd.Common.{
  ok_value, ◌⊎◌, Result-cases, inl, inr, ℕ, ◌+◌, ◌*◌, ◌≤◌, ◌<◌, ◌≡◌, refl, ◌↔◌, arith, true, false,
  Option, none, some, ok,
}
use pyrxd.Common.Ratio.{Ratio, div-le-ceil_div, ceil_over}
use pyrxd.Gravity.Timelock.{Timelock, to_blocks}
use pyrxd.Gravity.Margin.{
  MarginPolicy, make_policy, blocks_of, assert_timelock_margin, taker_refund_window_open,
  reserve_to_blocks, required_burial,
}

-- What `make_policy` has checked.
pub record IsChecked (p : MarginPolicy) : Type 0 where
  pub interval_pos : 0 < p.block_interval_s.num
  pub rxd_interval_pos : 0 < p.rxd_block_interval_s.num
  pub depth : (n : ℕ) × (blocks_of p p.btc_claim_reorg_depth ≡ ok n) × (2 ≤ n)
  pub burial : (n : ℕ) × (blocks_of p p.rxd_claim_burial ≡ ok n) × (2 ≤ n)
  pub measured : p.require_measured ≡ true → p.is_measured ≡ true
  pub cost : (c : ℕ) → p.rxd_reorg_cost_per_block ≡ some c → 0 < c
  pub value : (v : ℕ) → p.value_at_risk_photons ≡ some v → 0 < v
  pub factor : p.burial_safety_factor.den ≤ p.burial_safety_factor.num
  pub window : (w : ℕ) → p.eth_finalization_window_s ≡ some w → 768 ≤ w

-- A policy is constructed only if every check of `__post_init__` holds of it, and as it was given.
pub make_policy-IsChecked : (p q : MarginPolicy) → make_policy p ≡ ok q → IsChecked p × (q ≡ p)
unfolding make_policy
make_policy-IsChecked p q h = elim (Result-cases (blocks_of p p.btc_claim_reorg_depth)) [
  | inr (e, bad) ↦ absurd (ground arith)
  | inl (n, depth) ↦ elim (Result-cases (blocks_of p p.rxd_claim_burial)) [
    | inr (e, bad) ↦ absurd (ground arith)
    | inl (m, burial) ↦ (
      record {
        interval_pos = ground arith;
        rxd_interval_pos = ground arith;
        depth = (n, depth, ground arith);
        burial = (m, burial, ground arith);
        measured = λ r. ground arith;
        cost = λ c e. ground arith;
        value = λ v e. ground arith;
        factor = ground arith;
        window = λ w e. ground arith;
      },
      ground arith,
    )
  ]
]

above :
    (o : Option ℕ) (k : ℕ)
    → ((v : ℕ) → o ≡ some v → k ≤ v)
    → (o ≡ none) ⊎ ((v : ℕ) × (o ≡ some v) × (k ≤ v))
above none k h = inl refl
above (some v) k h = inr (v, refl, h v refl)

-- `MarginPolicy` is constructed exactly when all of its checks hold.
pub make_policy_iff : (p : MarginPolicy) → (make_policy p ≡ ok p) ↔ IsChecked p
make_policy_iff p = (
  λ h. (make_policy-IsChecked p p h).0,
  λ k.
      let (n, depth, n2) = k.depth in
      let (m, burial, m2) = k.burial in
      let cost = above p.rxd_reorg_cost_per_block 1 k.cost in
      let value = above p.value_at_risk_photons 1 k.value in
      let window = above p.eth_finalization_window_s 768 k.window in
      unfold make_policy in
      ground (arith, k.measured, k.interval_pos, k.rxd_interval_pos, k.factor),
)

-- The two legs keep the margin, in blocks.
pub record KeepsMargin (t_btc t_rxd : Timelock) (p : MarginPolicy) : Type 0 where
  pub btc : ℕ
  pub rxd : ℕ
  pub margin : ℕ
  pub btc_blocks : blocks_of p t_btc ≡ ok btc
  pub rxd_blocks : blocks_of p t_rxd ≡ ok rxd
  pub margin_blocks : blocks_of p p.margin ≡ ok margin
  pub ordered : rxd < btc
  pub apart : rxd + margin ≤ btc

-- `assert_timelock_margin` passes exactly when the policy is measured if it has to be, all three
-- locks convert to blocks, and `t_btc` exceeds `t_rxd` and is at least the margin above it.
pub assert_timelock_margin_iff :
    (t_btc t_rxd : Timelock) (p : MarginPolicy)
    → (assert_timelock_margin t_btc t_rxd p ≡ ok tt)
      ↔ ((p.require_measured ≡ true → p.is_measured ≡ true) × KeepsMargin t_btc t_rxd p)
unfolding assert_timelock_margin
assert_timelock_margin_iff t_btc t_rxd p = (
  λ h.
      let (btc, e1) = ok_value (blocks_of p t_btc) (λ e bad. ground arith) in
      let (rxd, e2) = ok_value (blocks_of p t_rxd) (λ e bad. ground arith) in
      let (margin, e3) = ok_value (blocks_of p p.margin) (λ e bad. ground arith) in
      (
        λ r. ground arith,
        record {
          btc = btc;
          rxd = rxd;
          margin = margin;
          btc_blocks = e1;
          rxd_blocks = e2;
          margin_blocks = e3;
          ordered = ground arith;
          apart = ground arith;
        },
      ),
  λ k.
      ground
        (arith, k.0, k.1.btc_blocks, k.1.rxd_blocks, k.1.margin_blocks, k.1.ordered, k.1.apart),
)

reserve_to_blocks-ge :
    (p : MarginPolicy) (t : Timelock) (n : ℕ)
    → 0 < p.block_interval_s.num
    → blocks_of p t ≡ ok n
    → n ≤ reserve_to_blocks t p.block_interval_s
unfolding blocks_of to_blocks reserve_to_blocks ceil_over
reserve_to_blocks-ge p t n pos h =
    let r = p.block_interval_s in ground (arith, div-le-ceil_div (t.value * r.den) r.num pos)

-- Under a constructed policy every claim has to bury at least two blocks deep, whatever the value.
pub required_burial-floor :
    (p : MarginPolicy) (value : Option ℕ) → make_policy p ≡ ok p → 2 ≤ required_burial p value
unfolding required_burial
required_burial-floor p value h =
    let k = (make_policy-IsChecked p p h).0 in
    let (n, burial, n2) = k.burial in
    omega (arith, reserve_to_blocks-ge p p.rxd_claim_burial n k.interval_pos burial)

-- The maker-stall window opens at the height `lock + t_rxd - N` and stays open; once the maker has
-- claimed it is shut.
pub taker_refund_window_open_iff :
    (now lock : ℕ) (t_rxd : Timelock) (n : ℕ) (r : Ratio) (rxd : ℕ)
    → to_blocks r t_rxd ≡ ok rxd
    → ((taker_refund_window_open now lock t_rxd n false r ≡ ok true) ↔ (lock + rxd ≤ now + n))
      × (taker_refund_window_open now lock t_rxd n true r ≡ ok false)
unfolding taker_refund_window_open
taker_refund_window_open_iff now lock t_rxd n r rxd e =
    ((λ h. ground arith, λ h. ground arith), refl)
