-- ===== src/Gravity/Coordinator/Revalidates.antt =====
-- `post_asset_lock_revalidate` makes allowed moves only.
use pyrxd.Common.{
  ℕ, ◌≡◌, ◌≢◌, refl, sym, ap, ◌∙◌, ◌⊎◌, inl, inr, arith, Bool, true, false, not, bytes_eq,
  bytes_eq_iff, if◌then◌else◌, List, Option, some, Result, ok, err, Bool-cases,
}
use pyrxd.Common.Hex.{to_hex}
use pyrxd.Gravity.Machine.{
  SwapState, state_eq, maker_locks_wrong_params, maker_locks_asset, btc_locked,
}
use pyrxd.Gravity.Terms.{NegotiatedTerms}
use pyrxd.Gravity.Record.{SwapRecord, with_radiant_lock}
use pyrxd.Gravity.Coordinator.{Raised, Env, World, ◌>>◌, lift}
use pyrxd.Gravity.Coordinator.Steps.{
  assert_eth_counter_funding_verified, lock_seen, post_asset_lock_revalidate,
}
use pyrxd.Gravity.Coordinator.Parts.{is_btc, only_from, finish}
use pyrxd.Gravity.Coordinator.Moves.{IsUnexpected, observed}
use pyrxd.Gravity.Coordinator.Verified.{Ends_then, assert-Ends}
use pyrxd.Gravity.Coordinator.Rules.{
  with_radiant_lock-eq, state_eq→eq, Runs, done-Runs, get-Runs, lift-Runs, check-Runs,
  raise_if-Runs, put-Runs, persist-Runs, advance-Runs, finish-Runs,
}

pub not-true : (b : Bool) → not b ≡ false → b ≡ true
not-true b h = ground arith

module _ {B E : Type 0} (sha256 : List ℕ → List ℕ) (env : Env B E) (w : World B E) where
  pub at_state : (s : SwapState) → not (state_eq w.current.state s) ≡ false → w.current.state ≡ s
  at_state s h = state_eq→eq _ s (not-true _ h)

  lock-Runs :
      (v : World B E) (t : NegotiatedTerms) (spk : List ℕ) (now : Option ℕ)
      → v.current.terms ≡ t
      → v.current.radiant_covenant_spk_hex ≡ some (to_hex spk)
      → env.expected_covenant_scriptpubkey t ≡ ok spk
      → Runs sha256 env v (
          (if is_btc t then lift (ok tt) else assert_eth_counter_funding_verified sha256 env now)
          >> finish env maker_locks_asset)
  lock-Runs v t spk now same hex expected = elim (Bool-cases (is_btc t)) [
    | inl btc ↦ rw btc (
        check-Runs _ λ done. finish-Runs maker_locks_asset (
          (spk, hex, ap env.expected_covenant_scriptpubkey same ∙ expected),
          λ eth. cc (ap is_btc same, btc, eth),
        ))
    | inr eth ↦ rw eth (
        Ends_then (assert-Ends sha256 env v now) λ u ends. finish-Runs maker_locks_asset (
          (spk, ends.1.1 ∙ hex, ap env.expected_covenant_scriptpubkey (ends.1.0 ∙ same) ∙ expected),
          λ eth'. (now, ends.0),
        ))
  ]

  unexpected :
      (outpoint spk : List ℕ) (r : SwapRecord B E)
      → with_radiant_lock outpoint (to_hex spk) w.current ≡ ok r
      → ((e : Raised) × (env.expected_covenant_scriptpubkey w.current.terms ≡ err e))
        ⊎ ((expected : List ℕ) × (env.expected_covenant_scriptpubkey w.current.terms ≡ ok expected)
            × (spk ≢ expected))
      → IsUnexpected sha256 env r
  unexpected outpoint spk r put why =
      let same = with_radiant_lock-eq _ _ w.current r put in
      (
        spk,
        ap (λ (x : SwapRecord B E). x.radiant_covenant_spk_hex) same,
        elim why [
          | inl (e, bad) ↦ inl (
            e,
            ap (λ (x : SwapRecord B E). env.expected_covenant_scriptpubkey x.terms) same ∙ bad,
          )
          | inr (x, is, differs) ↦ inr (
            x,
            ap (λ (y : SwapRecord B E). env.expected_covenant_scriptpubkey y.terms) same ∙ is,
            differs,
          )
        ],
      )

  lock_seen-Runs :
      (observed_spk : List ℕ) (now : Option ℕ) (expected : Result Raised (List ℕ))
      → w.current.state ≡ btc_locked
      → env.expected_covenant_scriptpubkey w.current.terms ≡ expected
      → Runs sha256 env w (lock_seen sha256 env observed_spk now expected)
  unfolding lock_seen
  lock_seen-Runs spk now (err e) here is = get-Runs _ (
      put-Runs _ λ r put. (
        observed w _ _ r here put,
        advance-Runs maker_locks_wrong_params (unexpected _ spk r put (inl (e, is)))
            λ r' s edge put'. persist-Runs λ d. done-Runs _,
      ))
  lock_seen-Runs spk now (ok expected) here is = get-Runs _ (
      lift-Runs _ λ outpoint found. put-Runs _ λ r put. (
        observed w _ _ r here put,
        elim (Bool-cases (bytes_eq spk expected)) [
          | inr differs ↦ rw differs (
              finish-Runs maker_locks_wrong_params (
                unexpected _ spk r put
                  (inr (expected, is, λ same. cc ((bytes_eq_iff spk expected).1 same, differs)))))
          | inl same ↦
              let put' = with_radiant_lock-eq _ _ w.current r put in
              rw same (
                lock-Runs _ _ spk now (ap (λ (x : SwapRecord B E). x.terms) put')
                  (ap (λ (x : SwapRecord B E). x.radiant_covenant_spk_hex) put')
                  (is ∙ ap ok (sym ((bytes_eq_iff spk expected).0 same))))
        ],
      ))

  pub revalidate-Runs :
      (observed_spk : List ℕ) (now : Option ℕ)
      → Runs sha256 env w (post_asset_lock_revalidate sha256 env observed_spk now)
  unfolding post_asset_lock_revalidate only_from
  revalidate-Runs spk now = get-Runs _ (
      raise_if-Runs _ _ λ here.
        lock_seen-Runs spk now (env.expected_covenant_scriptpubkey w.current.terms)
          (at_state btc_locked here) refl)
