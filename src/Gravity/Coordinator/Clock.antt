-- ===== src/Gravity/Coordinator/Clock.antt =====
-- The clock of an ETH swap once the covenant is locked, as a bound on its refund.
use pyrxd.Common.{
  map_err-eq-ok, ℕ, ◌+◌, ◌*◌, ◌<◌, ◌≡◌, inl, inr, arith, Option, some, ok, Option-cases,
}
use pyrxd.Common.Ratio.{IsPositive}
use pyrxd.Gravity.Timelock.{blocks}
use pyrxd.Gravity.CrossClock.{CrossClockMargin, total_s}
use pyrxd.Gravity.CrossClock.Ordering.{assert_covenant_confirms_before_eth_deadline_safe}
use pyrxd.Gravity.Margin.{MarginPolicy}
use pyrxd.Gravity.Terms.{NegotiatedTerms}
use pyrxd.Gravity.Coordinator.{cross_clock}
use pyrxd.Gravity.Coordinator.Gates.{require, eth_order, assert_eth_lock_timing_still_safe}

-- The clock check that follows a verification, as a bound on the refund of the covenant.
abbrev pub RefundsInTime : MarginPolicy → NegotiatedTerms → Option ℕ → Type 0
RefundsInTime policy t now_unix_s =
    (now : ℕ) × (timeout : ℕ) × (m : CrossClockMargin) × (now_unix_s ≡ some now)
    × (t.eth_timeout_unix_s ≡ some timeout)
    × (policy.cross_clock_margin ≡ some m)
    × (t.t_rxd.unit ≡ blocks)
    × ((now + total_s m) * policy.rxd_block_interval_s.den
          + t.t_rxd.value * policy.rxd_block_interval_s.num
        < timeout * policy.rxd_block_interval_s.den)

pub lock_timing-RefundsInTime :
    (policy : MarginPolicy) (t : NegotiatedTerms) (now : Option ℕ)
    → IsPositive policy.rxd_block_interval_s
    → assert_eth_lock_timing_still_safe policy t now ≡ ok tt
    → RefundsInTime policy t now
unfolding assert_eth_lock_timing_still_safe eth_order
lock_timing-RefundsInTime policy t now p h = elim (Option-cases now) [
  | inl e ↦ absurd (cc (rw (e, require) at h))
  | inr (n, en) ↦ elim (Option-cases t.eth_timeout_unix_s) [
    | inl e ↦ absurd (cc (rw (en, e, require) at h))
    | inr (timeout, et) ↦ elim (Option-cases policy.cross_clock_margin) [
      | inl e ↦ absurd (cc (rw (en, et, e, require) at h))
      | inr (m, em) ↦
          let (u, room) =
            assert_covenant_confirms_before_eth_deadline_safe n timeout m t.t_rxd
              policy.rxd_block_interval_s 0 n p
              (map_err-eq-ok cross_clock _ (rw (en, et, em, require) at h)) (omega arith) in
          (n, timeout, m, en, et, em, u, room)
    ]
  ]
]
