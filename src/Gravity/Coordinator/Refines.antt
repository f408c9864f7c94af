-- ===== src/Gravity/Coordinator/Refines.antt =====
-- Every method of the coordinator makes allowed moves only, on whatever answers it gets.
use pyrxd.Common.{
  map_err-eq-ok, ℕ, ◌≡◌, refl, sym, ap, ◌∙◌, ◌⊎◌, inl, inr, arith, Bool, true, false, not, ◌||◌,
  bytes_eq_iff, ==_iff, List, Option, ok, Bool-cases,
}
use pyrxd.Common.Ratio.{Ratio}
use pyrxd.Gravity.Timelock.{Timelock}
use pyrxd.Gravity.Machine.{
  state_eq, negotiated, btc_locked, both_locked, params_mismatch, asset_vulnerable, secret_revealed,
}
use pyrxd.Gravity.Terms.{NegotiatedTerms}
use pyrxd.Gravity.Margin.{ClaimFinality, safe, wait, squeezed, taker_refund_window_open}
use pyrxd.Gravity.Record.{Locator, SwapRecord}
use pyrxd.Gravity.Coordinator.{Env, World, raised, call_fund, call_claim_asset, gate_refused, gate}
use pyrxd.Gravity.Coordinator.Steps.{
  Op, op_fund, op_revalidate, op_verify, op_reveal, op_race, op_scrape, op_stall, op_refund,
  op_unwind, taker_funds, fund_reserved, record_funding, maker_verify_counter_funding,
  maker_claims_btc, claim_with, act_on, taker_scrape_and_claim_asset,
  taker_claim_asset_from_vulnerable, maybe_refund_asset_on_maker_stall, taker_refund_btc,
  refund_both, perform,
}
use pyrxd.Gravity.Coordinator.Parts.{is_locator, only_from, locator_of, secret_of, finality_of}
use pyrxd.Gravity.Coordinator.Moves.{Called, IsStalled, Permits, called, located, funded, Moves}
use pyrxd.Gravity.Coordinator.Verified.{require-eq-ok}
use pyrxd.Gravity.Coordinator.Revalidates.{not-true, at_state, revalidate-Runs}
use pyrxd.Gravity.Coordinator.Rules.{
  with_counter_lock-eq, with_state-eq, state_eq→eq, Runs, record-Runs, get-Runs, seen-Runs,
  lift-Runs, check-Runs, raise_if-Runs, put-Runs, act-Runs, persist-Runs, advance-Runs, finish-Runs,
  reserve-Runs,
}

module _ {B E : Type 0} (sha256 : List ℕ → List ℕ) (env : Env B E) (w : World B E) where
  pub record_funding-Runs :
      (t : NegotiatedTerms) (l : Locator B E)
      → Called sha256 env w (call_fund t)
      → env.fund t ≡ ok l
      → Runs sha256 env w (record_funding sha256 env t w.current l)
  unfolding record_funding
  record_funding-Runs t l asked done = raise_if-Runs _ _ λ proper. lift-Runs _ λ amount is_amount.
      raise_if-Runs _ _ λ exact. put-Runs _ λ r put.
        let same =
          ap (λ (x : SwapRecord B E). x.counterchain_locator)
            (with_counter_lock-eq l w.current r put) in
        (
          located _ l r put (not-true _ proper) (inl (t, asked, done)),
          finish-Runs _ (
            t,
            asked,
            done ∙ ap ok (sym same),
            ap is_locator same ∙ not-true _ proper,
            ap env.locked_amount same
                ∙ map_err-eq-ok raised _ is_amount
                ∙ ap ok ((==_iff _ _).0 (not-true _ exact)),
          ),
        )

module _ {B E : Type 0} (sha256 : List ℕ → List ℕ) (env : Env B E) (w : World B E) where
  fund-Runs :
      (t : NegotiatedTerms) (now : Option ℕ) → Runs sha256 env w (taker_funds sha256 env t now)
  unfolding taker_funds fund_reserved only_from
  fund-Runs t now = get-Runs _ (
      raise_if-Runs _ _ λ here. seen-Runs _ (
        check-Runs _ λ passed. persist-Runs λ d.
          reserve-Runs _ _ _
            (λ new.
              funded _ t now (at_state sha256 env w negotiated here)
                (map_err-eq-ok gate_refused _ passed) new)
            λ l done. record_funding-Runs sha256 env _ t l (w.calls, refl) done))

  reveal-Runs : (p : List ℕ) → Runs sha256 env w (maker_claims_btc sha256 env p)
  unfolding maker_claims_btc only_from locator_of
  reveal-Runs p = get-Runs _ (
      raise_if-Runs _ _ λ here. raise_if-Runs _ _ λ there. raise_if-Runs _ _ λ opens.
        act-Runs _
          (called w _ (
            at_state sha256 env w both_locked here,
            refl,
            not-true _ there,
            (bytes_eq_iff _ _).0 (not-true _ opens),
          ))
          λ done. finish-Runs _ (p, (w.calls, refl), done))

  unwind-Runs : Runs sha256 env w (refund_both sha256 env)
  unfolding refund_both only_from locator_of
  unwind-Runs = get-Runs _ (
      raise_if-Runs _ _ λ here. raise_if-Runs _ _ λ there.
        act-Runs _
          (called w _
            (inr (inr (at_state sha256 env w both_locked here)), refl, not-true _ there, refl))
          λ done.
            act-Runs _ (called _ _ (refl, at_state sha256 env w both_locked here, inr done))
              λ done'. finish-Runs _ (done, done'))

  claim_with-Runs :
      (p : List ℕ)
      → Permits sha256 env w.current (call_claim_asset w.current p)
      → Runs sha256 env w (claim_with sha256 env p)
  unfolding claim_with
  claim_with-Runs p why =
      get-Runs _ (act-Runs _ (called w _ why) λ done. finish-Runs _ (p, (w.calls, refl), done))

  race-Runs :
      (claim : List ℕ) → Runs sha256 env w (taker_claim_asset_from_vulnerable sha256 env claim)
  unfolding taker_claim_asset_from_vulnerable only_from
  race-Runs claim = get-Runs _ (
      raise_if-Runs _ _ λ here. lift-Runs _ λ p good.
        claim_with-Runs p (refl, (claim, good, inl (at_state sha256 env w asset_vulnerable here))))

  act_on-Runs :
      (claim p : List ℕ) (now lock : ℕ) (f : ClaimFinality)
      → w.current.state ≡ secret_revealed
      → secret_of sha256 env w.current claim ≡ ok p
      → finality_of env w.current claim now lock ≡ ok f
      → Runs sha256 env w (act_on sha256 env p f)
  unfolding act_on
  act_on-Runs claim p now lock safe here good is =
      claim_with-Runs p (refl, (claim, good, inr (here, now, lock, is)))
  act_on-Runs claim p now lock wait here good is = record-Runs
  act_on-Runs claim p now lock squeezed here good is = finish-Runs _ (claim, now, lock, is)

  scrape-Runs :
      (claim : List ℕ) (now lock : ℕ)
      → Runs sha256 env w (taker_scrape_and_claim_asset sha256 env claim now lock)
  unfolding taker_scrape_and_claim_asset only_from
  scrape-Runs claim now lock = get-Runs _ (
      raise_if-Runs _ _ λ here. lift-Runs _ λ p good.
        lift-Runs _ λ f is.
          act_on-Runs claim p now lock f (at_state sha256 env w secret_revealed here) good is)

  refundable :
      not (state_eq w.current.state btc_locked || state_eq w.current.state params_mismatch) ≡ false
      → (w.current.state ≡ btc_locked)
        ⊎ (w.current.state ≡ params_mismatch)
        ⊎ (w.current.state ≡ both_locked)
  refundable here = elim (Bool-cases (state_eq w.current.state btc_locked)) [
    | inl first ↦ inl (state_eq→eq _ _ first)
    | inr second ↦ elim (Bool-cases (state_eq w.current.state params_mismatch)) [
      | inl third ↦ inr (inl (state_eq→eq _ _ third))
      | inr fourth ↦ absurd (ground (arith, here, second, fourth))
    ]
  ]

  refund-Runs : Runs sha256 env w (taker_refund_btc sha256 env)
  unfolding taker_refund_btc locator_of
  refund-Runs = get-Runs _ (
      raise_if-Runs _ _ λ here. raise_if-Runs _ _ λ there.
        act-Runs _ (called w _ (refundable here, refl, not-true _ there, refl)) λ done.
          elim (Bool-cases (state_eq w.current.state btc_locked)) [
            | inl first ↦ rw first (finish-Runs _ done)
            | inr second ↦ rw second (finish-Runs _ done)
          ])

  claims-never :
      (now lock : ℕ) (t_rxd : Timelock) (window : ℕ) (interval : Ratio)
      → taker_refund_window_open now lock t_rxd window true interval ≡ ok true
      → ⊥
  unfolding taker_refund_window_open
  claims-never now lock t_rxd window interval h = cc h

  stalled :
      (now lock : ℕ) (claimed : Bool)
      → taker_refund_window_open now lock w.current.terms.t_rxd
          env.config.maker_stall_safety_window_blocks claimed
          env.config.margin_policy.block_interval_s
        ≡ ok true
      → IsStalled sha256 env w.current
  stalled now lock false open_now = (now, lock, open_now)
  stalled now lock true open_now = absurd (claims-never _ _ _ _ _ open_now)

  stall-Runs :
      (now lock : ℕ) (claimed : Bool)
      → Runs sha256 env w (maybe_refund_asset_on_maker_stall sha256 env now lock claimed)
  unfolding maybe_refund_asset_on_maker_stall only_from
  stall-Runs now lock claimed = get-Runs _ (
      raise_if-Runs _ _ λ here. lift-Runs _ λ trigger is. elim (Bool-cases trigger) [
        | inl fired ↦
            let due = stalled now lock claimed (map_err-eq-ok gate _ is ∙ ap ok fired) in
            rw fired (
              act-Runs _ (called w _ (refl, at_state sha256 env w both_locked here, inl due))
                λ done.
                  advance-Runs _ (due, done)
                    λ r s edge put.
                      let same = with_state-eq s w.current r put in
                      finish-Runs _ (
                        w.current,
                        (w.calls, refl),
                        due,
                        done,
                        same
                            ∙ ap (λ x. record w.current { state = x })
                                (sym (ap (λ (x : SwapRecord B E). x.state) same)),
                      ))
        | inr quiet ↦ rw quiet record-Runs
      ])

  verify-Runs :
      (contract : List ℕ) → Runs sha256 env w (maker_verify_counter_funding sha256 env contract)
  unfolding maker_verify_counter_funding
  verify-Runs contract = get-Runs _ (
      raise_if-Runs _ _ λ eth. lift-Runs _ λ verify there. lift-Runs _ λ l bound.
        put-Runs _ λ r put. (
          located w _ r put refl (
              inr (
                verify,
                contract,
                false,
                l,
                require-eq-ok sha256 env _ _ there,
                map_err-eq-ok raised _ bound,
                refl,
              )),
          persist-Runs λ d. record-Runs,
        ))

  pub perform-Moves : (op : Op) → Moves sha256 env w (perform sha256 env op w).1
  unfolding perform
  perform-Moves (op_fund t now) = (fund-Runs t now).moves
  perform-Moves (op_revalidate spk now) = (revalidate-Runs sha256 env w spk now).moves
  perform-Moves (op_verify contract) = (verify-Runs contract).moves
  perform-Moves (op_reveal p) = (reveal-Runs p).moves
  perform-Moves (op_race claim) = (race-Runs claim).moves
  perform-Moves (op_scrape claim now lock) = (scrape-Runs claim now lock).moves
  perform-Moves (op_stall now lock claimed) = (stall-Runs now lock claimed).moves
  perform-Moves op_refund = refund-Runs.moves
  perform-Moves op_unwind = unwind-Runs.moves
