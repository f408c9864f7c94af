-- ===== src/Gravity/Coordinator/Located.antt =====
-- Once the counter leg is funded, the record has what a refund needs, to the end of the swap.
use pyrxd.Common.{ℕ, ◌≡◌, refl, sym, ap, ◌∙◌, ◌⊎◌, inl, inr, Bool, true, false, List, ok}
use mathlib.Core.Path.{subst}
use pyrxd.Gravity.Machine.{SwapState, negotiated, aborted, SwapEvent, taker_funds_btc, advance}
use pyrxd.Gravity.Machine.Advance.{Step, fund, walk_away, advance_iff}
use pyrxd.Gravity.Record.{SwapRecord, make_record, with_state, with_counter_lock, with_radiant_lock}
use pyrxd.Gravity.Record.Updates.{IsWellFormed, make_record_iff}
use pyrxd.Gravity.Coordinator.{World, Env}
use pyrxd.Gravity.Coordinator.Parts.{is_locator}
use pyrxd.Gravity.Coordinator.Moves.{
  Move, persisted, funded, located, observed, called, advanced, Allows,
}
use pyrxd.Gravity.Coordinator.Rules.{with_state-eq, with_counter_lock-eq, with_radiant_lock-eq}
use pyrxd.Gravity.Coordinator.Histories.{History, History-keep}

-- Before the funding, and in a swap that was given up, there may be no locator.
abbrev pub is_funded : SwapState → Bool
is_funded negotiated = false
is_funded aborted = false
is_funded _ = true

funded-Step :
    {s t : SwapState} {e : SwapEvent}
    → Step s e t
    → is_funded t ≡ true
    → (e ≡ taker_funds_btc) ⊎ (is_funded s ≡ true)
funded-Step fund h = inl refl
funded-Step walk_away h = cc
funded-Step _ h = inr refl

module _ {B E : Type 0} where
  -- The record is what its constructor accepts, and has a locator where its state calls for one.
  pub record IsSound (r : SwapRecord B E) : Type 0 where
    pub well_formed : IsWellFormed r
    pub has_locator : is_funded r.state ≡ true → is_locator r.counterchain_locator ≡ true

  accepted-IsWellFormed : (r r' : SwapRecord B E) → make_record r ≡ ok r' → IsWellFormed r'
  accepted-IsWellFormed r r' h =
      let (k, same) = (make_record_iff r r').0 h in subst IsWellFormed (sym same) k

  advanced-IsSound :
      (sha256 : List ℕ → List ℕ) (env : Env B E) (v : World B E) (e : SwapEvent) (s : SwapState)
      (r : SwapRecord B E)
      → advance v.current.state e ≡ ok s
      → with_state s v.current ≡ ok r
      → Allows sha256 env v e
      → IsSound v.current
      → IsSound r
  unfolding with_state
  advanced-IsSound sha256 env v e s r edge put why k = record {
    well_formed = accepted-IsWellFormed _ r put;
    has_locator =
        λ h. has_it (subst (λ x. is_funded x ≡ true) (ap (λ (x : SwapRecord B E). x.state) same) h);
  }
    where
      same : r ≡ record v.current { state = s }
      same = with_state-eq s v.current r put

      has_it : is_funded s ≡ true → is_locator r.counterchain_locator ≡ true
      has_it h =
          ap (λ (x : SwapRecord B E). is_locator x.counterchain_locator) same
          ∙ elim (funded-Step ((advance_iff v.current.state e s).0 edge) h) [
            | inl first ↦ (subst (Allows sha256 env v) first why).3
            | inr later ↦ k.has_locator later
          ]

  Move-IsSound :
      (sha256 : List ℕ → List ℕ) (env : Env B E) {v u : World B E}
      → Move sha256 env v u
      → IsSound v.current
      → IsSound u.current
  unfolding with_counter_lock with_radiant_lock
  Move-IsSound sha256 env (persisted v) k = k
  Move-IsSound sha256 env (funded v t now here passed new) k = k
  Move-IsSound sha256 env (located v l r put there whence) k = record {
    well_formed = accepted-IsWellFormed _ r put;
    has_locator = λ h.
        ap (λ (x : SwapRecord B E). is_locator x.counterchain_locator)
          (with_counter_lock-eq l v.current r put)
        ∙ there;
  }
  Move-IsSound sha256 env (observed v outpoint spk r here put) k = record {
    well_formed = accepted-IsWellFormed _ r put;
    has_locator = λ h.
        let same = with_radiant_lock-eq outpoint spk v.current r put in
        ap (λ (x : SwapRecord B E). is_locator x.counterchain_locator) same
        ∙ k.has_locator
            (subst (λ x. is_funded x ≡ true) (ap (λ (x : SwapRecord B E). x.state) same) h);
  }
  Move-IsSound sha256 env (called v c why) k = k
  Move-IsSound sha256 env (advanced v e s r edge put why) k =
      advanced-IsSound sha256 env v e s r edge put why k

  -- A record that its constructor accepts and that has a locator where its state calls for one, as every
  -- negotiated one does, stays so in every history: its constructor accepts it still, and it has a locator
  -- in every state but NEGOTIATED and ABORTED.
  pub History-IsSound :
      (sha256 : List ℕ → List ℕ) {start w : World B E}
      → IsSound start.current
      → History sha256 start w
      → IsSound w.current
  History-IsSound sha256 k h =
      History-keep sha256 (λ v. IsSound v.current) (λ env v u. Move-IsSound sha256 env) k h
