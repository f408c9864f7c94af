-- ===== src/Gravity/Coordinator/Opens.antt =====
-- What the legs are asked to do stands in the terms.
use pyrxd.Common.{
  ℕ, ◌≡◌, refl, sym, ap, ◌∙◌, inl, inr, arith, List, [], ◌∷◌, ok, Bool-cases, bytes_eq_iff,
}
use mathlib.Core.Path.{subst}
use pyrxd.Gravity.Record.{SwapRecord}
use pyrxd.Gravity.Terms.{NegotiatedTerms}
use pyrxd.Gravity.Coordinator.{
  Call, call_fund, call_claim, call_refund, call_claim_asset, call_refund_asset, World, Env,
}
use pyrxd.Gravity.Coordinator.Secrets.{btc_secret, eth_secret}
use pyrxd.Gravity.Coordinator.Parts.{is_btc, secret_of}
use pyrxd.Gravity.Coordinator.Moves.{
  Move, persisted, funded, located, observed, called, advanced, Permits,
}
use pyrxd.Gravity.Coordinator.Rules.{with_state-eq, with_counter_lock-eq, with_radiant_lock-eq}
use pyrxd.Gravity.Coordinator.Histories.{History, History-keep}

module _ {B E : Type 0} (sha256 : List ℕ → List ℕ) where
  pub btc_secret-opens :
      (env : Env B E) (r : SwapRecord B E) (tx p : List ℕ)
      → btc_secret sha256 env r tx ≡ ok p
      → sha256 p ≡ r.terms.hashlock
  unfolding btc_secret
  btc_secret-opens env r tx p h = ground (arith, h, bytes_eq_iff (sha256 p) r.terms.hashlock)

  pub eth_secret-opens :
      (env : Env B E) (r : SwapRecord B E) (tx p : List ℕ)
      → eth_secret sha256 env r tx ≡ ok p
      → sha256 p ≡ r.terms.hashlock
  unfolding eth_secret
  eth_secret-opens env r tx p h = ground (arith, h, bytes_eq_iff (sha256 p) r.terms.hashlock)

  secret_of-opens :
      (env : Env B E) (r : SwapRecord B E) (claim p : List ℕ)
      → secret_of sha256 env r claim ≡ ok p
      → sha256 p ≡ r.terms.hashlock
  unfolding secret_of
  secret_of-opens env r claim p h = elim (Bool-cases (is_btc r.terms)) [
    | inl btc ↦ btc_secret-opens env r claim p (rw btc at h)
    | inr eth ↦ eth_secret-opens env r claim p (rw eth at h)
  ]

  module _ (t : NegotiatedTerms) where
    -- A secret that is given out opens the hashlock, and a refund is that of the counter leg's timelock.
    abbrev pub Fits : Call B E → Type 0
    Fits (call_fund t') = Unit {0}
    Fits (call_claim l p) = sha256 p ≡ t.hashlock
    Fits (call_refund l lock) = lock ≡ t.t_btc
    Fits (call_claim_asset r p) = (sha256 p ≡ t.hashlock) × (r.terms ≡ t)
    Fits (call_refund_asset r) = r.terms ≡ t

    abbrev pub AllFit : List (Call B E) → Type 0
    AllFit [] = Unit {0}
    AllFit (c ∷ cs) = Fits c × AllFit cs

    abbrev FitsAll : World B E → Type 0
    FitsAll w = (w.current.terms ≡ t) × AllFit w.calls

    permitted-Fits :
        (env : Env B E) (r : SwapRecord B E) (c : Call B E)
        → r.terms ≡ t
        → Permits sha256 env r c
        → Fits c
    permitted-Fits env r (call_fund t') same why = absurd why
    permitted-Fits env r (call_claim l p) same why =
        why.3 ∙ ap (λ (x : NegotiatedTerms). x.hashlock) same
    permitted-Fits env r (call_refund l lock) same why =
        why.3 ∙ ap (λ (x : NegotiatedTerms). x.t_btc) same
    permitted-Fits env r (call_claim_asset r' p) same (here, (claim, good, why)) = (
      secret_of-opens env r claim p good ∙ ap (λ (x : NegotiatedTerms). x.hashlock) same,
      ap (λ (x : SwapRecord B E). x.terms) here ∙ same,
    )
    permitted-Fits env r (call_refund_asset r') same why =
        ap (λ (x : SwapRecord B E). x.terms) why.0 ∙ same

    Move-FitsAll : (env : Env B E) {v u : World B E} → Move sha256 env v u → FitsAll v → FitsAll u
    Move-FitsAll env (persisted v) k = k
    Move-FitsAll env (funded v t' now here passed new) k = (k.0, (tt, k.1))
    Move-FitsAll env (located v l r put there whence) k =
        (ap (λ (x : SwapRecord B E). x.terms) (with_counter_lock-eq l v.current r put) ∙ k.0, k.1)
    Move-FitsAll env (observed v outpoint spk r here put) k = (
      ap (λ (x : SwapRecord B E). x.terms) (with_radiant_lock-eq outpoint spk v.current r put)
          ∙ k.0,
      k.1,
    )
    Move-FitsAll env (called v c why) k = (k.0, (permitted-Fits env v.current c k.0 why, k.1))
    Move-FitsAll env (advanced v e s r edge put why) k =
        (ap (λ (x : SwapRecord B E). x.terms) (with_state-eq s v.current r put) ∙ k.0, k.1)

  -- In every history of a coordinator that starts without a call: each secret that it hands to a leg opens
  -- the hashlock of the terms, each refund of the counter leg is for `t_btc`, and each asset claimed or
  -- refunded is that of the terms.
  pub History-AllFit :
      {start w : World B E}
      → start.calls ≡ []
      → History sha256 start w
      → AllFit start.current.terms w.calls
  History-AllFit {start} none_yet h =
      (History-keep sha256 (FitsAll start.current.terms)
        (λ env v u. Move-FitsAll start.current.terms env)
        (refl, subst (AllFit start.current.terms) (sym none_yet) tt) h).1
