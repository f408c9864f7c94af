-- ===== src/Gravity/Coordinator/Locking.antt =====
-- What holds when the taker accepts the maker's covenant, and when it funds the counter leg.
use pyrxd.Gravity.Coordinator.Clock.{RefundsInTime, lock_timing-RefundsInTime}
use pyrxd.Gravity.Coordinator.Finishing.{finish-moves}
use pyrxd.Common.{
  ℕ, ◌≡◌, ◌≢◌, refl, sym, ap, ◌∙◌, inl, inr, false, bytes_eq, bytes_eq_iff, List, Option, some, ok,
  err, Result, Bool-cases, Result-cases, if◌then◌else◌,
}
use mathlib.Core.Path.{subst}
use pyrxd.Common.Ratio.{IsPositive}
use pyrxd.Common.Hex.{to_hex}
use pyrxd.Gravity.Machine.{
  both_locked, btc_locked, params_mismatch, maker_locks_asset, maker_locks_wrong_params, advance,
  state_eq,
}
use pyrxd.Gravity.Machine.Advance.{Step, mismatch, advance_iff}
use pyrxd.Gravity.Record.{SwapRecord, with_radiant_lock}
use pyrxd.Gravity.Terms.{NegotiatedTerms}
use pyrxd.Gravity.Coordinator.{
  Raised, World, Env, Action, CoordError, then_do, ◌>>=◌, ◌>>◌, lift, raise_if, get_record,
  put_record, advance_by, persist_record,
}
use pyrxd.Gravity.Coordinator.Steps.{
  assert_eth_counter_funding_verified, lock_seen, post_asset_lock_revalidate, perform,
  op_revalidate,
}
use pyrxd.Gravity.Coordinator.Parts.{is_btc, only_from, finish, unverifiable}
use pyrxd.Gravity.Coordinator.Moves.{IsVerified}
use pyrxd.Gravity.Coordinator.Rules.{state_eq→eq, with_radiant_lock-eq}
use pyrxd.Gravity.Coordinator.Verified.{assert-Ends}

module _ {B E : Type 0} (sha256 : List ℕ → List ℕ) (env : Env B E) where
  -- What the record must show when the taker goes on.
  abbrev pub IsLocked : List ℕ → Option ℕ → SwapRecord B E → Type 0
  IsLocked spk now r =
      (r.radiant_covenant_spk_hex ≡ some (to_hex spk))
      × (env.expected_covenant_scriptpubkey r.terms ≡ ok spk)
      × (is_btc r.terms ≡ false → IsVerified sha256 env r now)

  finish-IsLocked :
      (v : World B E) (spk : List ℕ) (now : Option ℕ) (a : SwapRecord B E)
      → IsLocked spk now v.current
      → (finish env maker_locks_asset v).0 ≡ ok a
      → IsLocked spk now (finish env maker_locks_asset v).1.current
  finish-IsLocked v spk now a k h =
      let (s, edge, same) = finish-moves env v maker_locks_asset a h in
      subst (IsLocked spk now) (sym same) k

  lock-IsLocked :
      (v : World B E) (t : NegotiatedTerms) (spk : List ℕ) (now : Option ℕ) (a : SwapRecord B E)
      → v.current.terms ≡ t
      → v.current.radiant_covenant_spk_hex ≡ some (to_hex spk)
      → env.expected_covenant_scriptpubkey t ≡ ok spk
      → (((if is_btc t then lift (ok tt) else assert_eth_counter_funding_verified sha256 env now)
            >> finish env maker_locks_asset)
          v).0
        ≡ ok a
      → IsLocked spk now
          (((if is_btc t then lift (ok tt) else assert_eth_counter_funding_verified sha256 env now)
              >> finish env maker_locks_asset)
            v).1.current
  unfolding ◌>>◌ then_do lift
  lock-IsLocked v t spk now a same hex expected h =
      let expected' = ap env.expected_covenant_scriptpubkey same ∙ expected in
      elim (Bool-cases (is_btc t)) [
        | inl btc ↦ rw btc (
            finish-IsLocked v spk now a (hex, expected', λ eth. cc (ap is_btc same, btc, eth))
              (rw btc at h))
        | inr eth ↦
            let ends = assert-Ends sha256 env v now in
            elim (Result-cases (assert_eth_counter_funding_verified sha256 env now v).0) [
              | inr (e, bad) ↦ absurd (cc (rw (eth, bad) at h))
              | inl (u, done) ↦
                  let (verified, (terms, covenant)) = ends.after u done in
                  rw (eth, done)
                    (finish-IsLocked (assert_eth_counter_funding_verified sha256 env now v).1 spk
                      now a
                      (
                        covenant ∙ hex,
                        ap env.expected_covenant_scriptpubkey terms ∙ expected',
                        λ eth'. verified,
                      )
                      (rw (eth, done) at h))
            ]
      ]

  -- A covenant with a wrong script leads elsewhere.
  mismatch-state :
      (v : World B E) (a : SwapRecord B E)
      → v.current.state ≡ btc_locked
      → (finish env maker_locks_wrong_params v).0 ≡ ok a
      → (finish env maker_locks_wrong_params v).1.current.state ≢ both_locked
  mismatch-state v a here h at_both =
      let (s, edge, same) = finish-moves env v maker_locks_wrong_params a h in
      let known : advance v.current.state maker_locks_wrong_params ≡ ok params_mismatch =
        (advance_iff _ _ _).1
          (subst (λ x. Step x maker_locks_wrong_params params_mismatch) (sym here) mismatch) in
      let s_is : ok s ≡ ok params_mismatch = sym edge ∙ known in
      let both : s ≡ both_locked = sym (ap (λ (x : SwapRecord B E). x.state) same) ∙ at_both in
      cc (s_is, both)

  -- What ends in an exception returns nothing.
  never-ok :
      {A : Type 0} (p : Result CoordError (Unit {0}) × World B E) (m : Action B E A)
      → ((v : World B E) (a : A) → (m v).0 ≡ ok a → ⊥)
      → (a : A) → (then_do p (λ _. m)).0 ≡ ok a
      → ⊥
  unfolding then_do
  never-ok (ok u, v) m k a h = k v a h
  never-ok (err e, v) m k a h = cc

  lock_seen-IsLocked :
      (w : World B E) (spk : List ℕ) (now : Option ℕ) (expected : Result Raised (List ℕ))
      (a : SwapRecord B E)
      → w.current.state ≡ btc_locked
      → env.expected_covenant_scriptpubkey w.current.terms ≡ expected
      → (lock_seen sha256 env spk now expected w).0 ≡ ok a
      → (lock_seen sha256 env spk now expected w).1.current.state ≡ both_locked
      → IsLocked spk now (lock_seen sha256 env spk now expected w).1.current
  unfolding lock_seen ◌>>=◌ ◌>>◌ then_do get_record put_record lift advance_by persist_record
  lock_seen-IsLocked w spk now (err e) a here is h at_both =
      elim (Result-cases (with_radiant_lock unverifiable (to_hex spk) w.current)) [
        | inr (bad, refused) ↦ absurd (cc (rw refused at h))
        | inl (r, put) ↦ absurd (
            never-ok (advance_by maker_locks_wrong_params (record w { current = r })) _
              (λ v b. never-ok (persist_record env v) _ (λ v' b' h'. cc h') b) a (rw put at h))
      ]
  lock_seen-IsLocked w spk now (ok expected) a here is h at_both =
      elim (Result-cases (env.covenant_outpoint w.current.terms)) [
        | inr (bad, gone) ↦ absurd (cc (rw gone at h))
        | inl (outpoint, found) ↦
            elim (Result-cases (with_radiant_lock outpoint (to_hex spk) w.current)) [
              | inr (bad, refused) ↦ absurd (cc (rw (found, refused) at h))
              | inl (r, put) ↦
                  let put' = with_radiant_lock-eq outpoint (to_hex spk) w.current r put in
                  elim (Bool-cases (bytes_eq spk expected)) [
                    | inr differs ↦ absurd (
                        mismatch-state (record w { current = r }) a
                          (ap (λ (x : SwapRecord B E). x.state) put' ∙ here)
                          (rw (found, put, differs) at h) (rw (found, put, differs) at at_both))
                    | inl same ↦
                        rw (found, put, same)
                          (lock-IsLocked (record w { current = r }) w.current.terms spk now a
                            (ap (λ (x : SwapRecord B E). x.terms) put')
                            (ap (λ (x : SwapRecord B E). x.radiant_covenant_spk_hex) put')
                            (is ∙ ap ok (sym ((bytes_eq_iff spk expected).0 same)))
                            (rw (found, put, same) at h))
                  ]
            ]
      ]

  with_clock :
      (spk : List ℕ) (now : Option ℕ) (r : SwapRecord B E)
      → IsPositive env.config.margin_policy.rxd_block_interval_s
      → IsLocked spk now r
      → IsLocked spk now r
        × (is_btc r.terms ≡ false → RefundsInTime env.config.margin_policy r.terms now)
  with_clock spk now r p k =
      (k, λ eth. lock_timing-RefundsInTime env.config.margin_policy r.terms now p (k.2 eth).6)

  module _ (w : World B E) (spk : List ℕ) (now : Option ℕ) (a : SwapRecord B E) where
    -- If `post_asset_lock_revalidate` returns with the record in BOTH_LOCKED, the script that was observed
    -- is the one that the terms ask for, and it is on the record. On an ETH swap, moreover, the counter leg
    -- was verified in this call, at `finalized` where the policy is measured, and is the locator on the
    -- record; and the refund of a covenant locked now opens before the ETH deadline less the margin.
    pub revalidate-locks :
        IsPositive env.config.margin_policy.rxd_block_interval_s
        → (perform sha256 env (op_revalidate spk now) w).0 ≡ ok a
        → (perform sha256 env (op_revalidate spk now) w).1.current.state ≡ both_locked
        → let r = (perform sha256 env (op_revalidate spk now) w).1.current in
          IsLocked spk now r
          × (is_btc r.terms ≡ false → RefundsInTime env.config.margin_policy r.terms now)
    unfolding perform post_asset_lock_revalidate only_from ◌>>=◌ ◌>>◌ then_do get_record raise_if
    revalidate-locks p h at_both = elim (Bool-cases (state_eq w.current.state btc_locked)) [
      | inr other ↦ absurd (cc (rw other at h))
      | inl here ↦ rw here (
          with_clock spk now
            (lock_seen sha256 env spk now (env.expected_covenant_scriptpubkey w.current.terms)
              w).1.current
            p
            (lock_seen-IsLocked w spk now (env.expected_covenant_scriptpubkey w.current.terms) a
              (state_eq→eq _ _ here) refl (rw here at h) (rw here at at_both)))
    ]
