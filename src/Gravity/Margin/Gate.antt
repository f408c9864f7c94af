-- ===== src/Gravity/Margin/Gate.antt =====
-- The reorg-finality gate: what `assess_claim_finality` promises the taker.
use pyrxd.Common.{
  ℕ, ◌+◌, ◌*◌, ◌≤◌, ◌<◌, ◌≡◌, ◌≢◌, ◌↔◌, arith, true, Option, none, some, ok, ok_value, Option-cases,
  inl, inr, ◌-◌,
}
use mathlib.Core.Path.{subst}
use pyrxd.Gravity.Timelock.{Timelock}
use pyrxd.Gravity.Finality.{
  final, not_yet_final_live, counter_chain_not_finalizing, CounterClaimFinality, remaining_positive,
}
use pyrxd.Gravity.Margin.{
  MarginPolicy, blocks_of, required_burial, effective_value, counter_reserve_rxd,
  value_scaled_burial_blocks, ClaimFinality, safe, wait, squeezed, assess_claim_finality,
}
use pyrxd.Gravity.Margin.Burial.{value_scaled_burial_blocks-le_iff}

module _ (v : CounterClaimFinality) (now lock : ℕ) (t_rxd : Timelock) (p : MarginPolicy)
    (value : Option ℕ) where
  -- Value scaling is off, or there is a value to scale by.
  abbrev pub IsScalable : Type 0
  IsScalable = (cost : ℕ) → p.rxd_reorg_cost_per_block ≡ some cost → effective_value p value ≢ none

  -- The window in which the taker's claim can bury.
  pub record HasRoom : Type 0 where
    pub rxd : ℕ
    pub rxd_blocks : blocks_of p t_rxd ≡ ok rxd
    pub not_before_lock : lock ≤ now
    pub scalable : IsScalable
    pub fits : now + required_burial p value ≤ lock + rxd

  -- `assess_claim_finality` says SAFE exactly when the counter-leg claim is final, the height is not
  -- below the lock, the value at risk is known wherever a reorg cost is configured, and the required
  -- burial fits before the maker's refund opens.
  pub assess_claim_finality-safe_iff :
      (assess_claim_finality v now lock t_rxd p value ≡ ok safe) ↔ ((v.state ≡ final) × HasRoom)
  unfolding assess_claim_finality
  assess_claim_finality-safe_iff = (
    λ h.
        let (rxd, e) = ok_value (blocks_of p t_rxd) (λ e bad. ground arith) in
        (
          ground arith,
          record {
            rxd = rxd;
            rxd_blocks = e;
            not_before_lock = ground arith;
            scalable = λ c e none_. ground arith;
            fits = ground arith;
          },
        ),
    λ k.
        let room = k.1 in
        elim (Option-cases p.rxd_reorg_cost_per_block) [
          | inl off ↦ ground (arith, room.rxd_blocks, room.not_before_lock, room.fits)
          | inr (c, on) ↦
              ground (arith, room.scalable c on, room.rxd_blocks, room.not_before_lock, room.fits)
        ],
  )

  -- Room to wait for the counter leg first.
  pub record HasRoomToWait : Type 0 where
    pub rxd : ℕ
    pub reserve : ℕ
    pub rxd_blocks : blocks_of p t_rxd ≡ ok rxd
    pub reserve_blocks : counter_reserve_rxd p v ≡ ok reserve
    pub not_before_lock : lock ≤ now
    pub scalable : IsScalable
    pub remaining : remaining_positive v ≡ true
    pub fits : now + reserve + required_burial p value ≤ lock + rxd

  -- `assess_claim_finality` says WAIT exactly when the counter-leg claim is live but not yet final and
  -- both the reserve for its finality and the required burial fit before the maker's refund opens.
  pub assess_claim_finality-wait_iff :
      (assess_claim_finality v now lock t_rxd p value ≡ ok wait)
      ↔ ((v.state ≡ not_yet_final_live) × HasRoomToWait)
  unfolding assess_claim_finality
  assess_claim_finality-wait_iff = (
    λ h.
        let (rxd, e) = ok_value (blocks_of p t_rxd) (λ e bad. ground arith) in
        let (reserve, e') = ok_value (counter_reserve_rxd p v) (λ e bad. ground arith) in
        (
          ground arith,
          record {
            rxd = rxd;
            reserve = reserve;
            rxd_blocks = e;
            reserve_blocks = e';
            not_before_lock = ground arith;
            scalable = λ c e none_. ground arith;
            remaining = ground arith;
            fits = ground arith;
          },
        ),
    λ k.
        let room = k.1 in
        elim (Option-cases p.rxd_reorg_cost_per_block) [
          | inl off ↦ ground (
            arith, room.rxd_blocks, room.reserve_blocks, room.not_before_lock, room.remaining,
            room.fits,
          )
          | inr (c, on) ↦ ground (
            arith,
            room.scalable c on,
            room.rxd_blocks,
            room.reserve_blocks,
            room.not_before_lock,
            room.remaining,
            room.fits,
          )
        ],
  )

  -- A counter chain that does not finalize is never waited on and never claimed on: whenever the gate
  -- answers at all it answers SQUEEZED.
  pub assess_claim_finality_stalled :
      (d : ClaimFinality)
      → v.state ≡ counter_chain_not_finalizing
      → assess_claim_finality v now lock t_rxd p value ≡ ok d
      → d ≡ squeezed
  unfolding assess_claim_finality
  assess_claim_finality_stalled d s h = ground arith

-- WAIT keeps its promise: from a height at which the gate says WAIT, if the counter-leg claim has
-- become final within the reserve, the gate then says SAFE.
pub wait-then-safe :
    (v v' : CounterClaimFinality) (now now' lock : ℕ) (t_rxd : Timelock) (p : MarginPolicy)
    (value : Option ℕ) (reserve : ℕ)
    → assess_claim_finality v now lock t_rxd p value ≡ ok wait
    → counter_reserve_rxd p v ≡ ok reserve
    → now ≤ now'
    → now' ≤ now + reserve
    → v'.state ≡ final
    → assess_claim_finality v' now' lock t_rxd p value ≡ ok safe
wait-then-safe v v' now now' lock t_rxd p value reserve h e lo hi f =
    let room = ((assess_claim_finality-wait_iff v now lock t_rxd p value).0 h).1 in
    let same : room.reserve ≡ reserve = cc (room.reserve_blocks) in
    let start = room.not_before_lock in
    let fits = room.fits in
    (assess_claim_finality-safe_iff v' now' lock t_rxd p value).1 (
      f,
      record {
        rxd = room.rxd;
        rxd_blocks = room.rxd_blocks;
        not_before_lock = omega arith;
        scalable = room.scalable;
        fits = omega arith;
      },
    )

-- A claim that is SAFE at some height was SAFE at every earlier height from the lock on, with the same
-- verdict: the gate never turns SAFE by waiting for the window to close.
pub safe_earlier :
    (v : CounterClaimFinality) (now now' lock : ℕ) (t_rxd : Timelock) (p : MarginPolicy)
    (value : Option ℕ)
    → lock ≤ now
    → now ≤ now'
    → assess_claim_finality v now' lock t_rxd p value ≡ ok safe
    → assess_claim_finality v now lock t_rxd p value ≡ ok safe
safe_earlier v now now' lock t_rxd p value start le h =
    let (f, room) = (assess_claim_finality-safe_iff v now' lock t_rxd p value).0 h in
    let fits = room.fits in
    (assess_claim_finality-safe_iff v now lock t_rxd p value).1 (
      f,
      record {
        rxd = room.rxd;
        rxd_blocks = room.rxd_blocks;
        not_before_lock = start;
        scalable = room.scalable;
        fits = omega arith;
      },
    )

value_scaled-le-required :
    (p : MarginPolicy) (value : Option ℕ)
    → value_scaled_burial_blocks p (effective_value p value) ≤ required_burial p value
unfolding required_burial
value_scaled-le-required p value = omega arith

-- What SAFE means in money: where the policy has a reorg cost per block, there is a value at risk, and
-- a reorg of all the blocks left before the maker's refund opens costs at least that value times the
-- safety factor. (Both sides are multiplied by the factor's denominator.)
pub safe-covers_value :
    (v : CounterClaimFinality) (now lock : ℕ) (t_rxd : Timelock) (p : MarginPolicy)
    (value : Option ℕ) (cost rxd : ℕ)
    → p.rxd_reorg_cost_per_block ≡ some cost
    → 0 < cost
    → 0 < p.burial_safety_factor.den
    → blocks_of p t_rxd ≡ ok rxd
    → assess_claim_finality v now lock t_rxd p value ≡ ok safe
    → (at_risk : ℕ) × (effective_value p value ≡ some at_risk)
      × (blocks_left : ℕ) × (now + blocks_left ≡ lock + rxd)
      × (at_risk * p.burial_safety_factor.num ≤ blocks_left * cost * p.burial_safety_factor.den)
safe-covers_value v now lock t_rxd p value cost rxd on c d e h =
    elim (Option-cases (effective_value p value)) [
      | inl unknown ↦ absurd (room.scalable cost on unknown)
      | inr (at_risk, known) ↦ (
        at_risk,
        known,
        lock + rxd - now,
        omega (arith, fits),
        (value_scaled_burial_blocks-le_iff p cost at_risk (lock + rxd - now) on c d).0
            (omega (arith, fits, covered at_risk known)),
      )
    ]
  where
    room : HasRoom v now lock t_rxd p value
    room = ((assess_claim_finality-safe_iff v now lock t_rxd p value).0 h).1

    same : room.rxd ≡ rxd
    same = cc (room.rxd_blocks)

    fits : now + required_burial p value ≤ lock + rxd
    fits = omega (arith, room.fits, same)

    covered :
        (at_risk : ℕ)
        → effective_value p value ≡ some at_risk
        → value_scaled_burial_blocks p (some at_risk) ≤ required_burial p value
    covered at_risk known =
        subst (λ o. value_scaled_burial_blocks p o ≤ required_burial p value) known
          (value_scaled-le-required p value)
