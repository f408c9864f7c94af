-- ===== src/Gravity/Coordinator/Refused.antt =====
-- A hashlock of the seen-store is never funded again, whatever became of the first attempt.
use pyrxd.Common.{
  ℕ, ◌≡◌, refl, inl, inr, arith, true, ◌||◌, not, length, ◌==◌, List, Option, err, Bool-cases,
  Result-cases,
}
use pyrxd.Gravity.Machine.{negotiated, state_eq}
use pyrxd.Gravity.Terms.{NegotiatedTerms}
use pyrxd.Gravity.Coordinator.{
  World, Env, CoordError, wrong_state, gate_refused, GateRefusal, ref_not_authentic,
  store_unavailable, hashlock_reused, then_do, ◌>>=◌, ◌>>◌, lift, raise_if, get_record, get_seen,
  has,
}
use pyrxd.Gravity.Coordinator.Gates.{
  pre_btc_lock_check, check_credential, check_fresh, verify_ref_authenticity,
}
use pyrxd.Gravity.Coordinator.Steps.{taker_funds, perform, op_fund}
use pyrxd.Gravity.Coordinator.Parts.{only_from}
use pyrxd.Gravity.Coordinator.Moves.{Move, persisted, funded, located, observed, called, advanced}
use pyrxd.Gravity.Coordinator.Histories.{Shared, Shared-keep}

module _ {B E : Type 0} where
  gate-fresh :
      (env : Env B E) (seen : List (List ℕ)) (t : NegotiatedTerms) (now : Option ℕ)
      → has seen t.hashlock ≡ true
      → (e : GateRefusal) × (pre_btc_lock_check env seen t now ≡ err e)
  unfolding pre_btc_lock_check check_fresh
  gate-fresh env seen t now old =
      elim (Result-cases (
        verify_ref_authenticity env.resolve_ref t.genesis_ref t.asset_variant
          env.config.min_ref_confirmations)) [
            | inr (e, bad) ↦ (ref_not_authentic e, rw bad refl)
            | inl (u, real) ↦ elim (Result-cases (check_credential env t)) [
              | inr (e, bad) ↦ (e, rw (real, bad) refl)
              | inl (u', holder) ↦
                  elim (Bool-cases (env.store_down || not (length t.hashlock == 32))) [
                    | inl down ↦ (store_unavailable, rw (real, holder, down) refl)
                    | inr up ↦ (hashlock_reused, rw (real, holder, up, old) refl)
                  ]
            ]
          ]

  Move-has :
      (sha256 : List ℕ → List ℕ) (env : Env B E) (h : List ℕ) {v u : World B E}
      → Move sha256 env v u
      → has v.seen h ≡ true
      → has u.seen h ≡ true
  unfolding has
  Move-has sha256 env h (persisted v) k = k
  Move-has sha256 env h (funded v t now here passed new) k = ground (arith, k)
  Move-has sha256 env h (located v l r put there whence) k = k
  Move-has sha256 env h (observed v outpoint spk r here put) k = k
  Move-has sha256 env h (called v c why) k = k
  Move-has sha256 env h (advanced v e s r edge put why) k = k

  -- Once a hashlock is in the seen-store, every later `taker_funds_btc` on it raises and changes nothing,
  -- whichever coordinator is asked, also where the first attempt reserved it and its broadcast raised.
  pub Shared-refuses :
      (sha256 : List ℕ → List ℕ) (env : Env B E) {start w : World B E} (t : NegotiatedTerms)
      (now : Option ℕ)
      → has start.seen t.hashlock ≡ true
      → Shared sha256 start w
      → (e : CoordError) × (perform sha256 env (op_fund t now) w ≡ (err e, w))
  unfolding perform taker_funds only_from ◌>>=◌ ◌>>◌ then_do get_record get_seen raise_if lift
  Shared-refuses sha256 env {w = w} t now old run =
      let old' : has w.seen t.hashlock ≡ true =
        Shared-keep sha256 (λ v. has v.seen t.hashlock ≡ true)
          (λ e v u. Move-has sha256 e t.hashlock) (λ v r d k. k) old run in
      elim (Bool-cases (state_eq w.current.state negotiated)) [
        | inr other ↦ (wrong_state w.current.state, rw other refl)
        | inl here ↦
            let (e, shut) = gate-fresh env w.seen t now old' in
            (gate_refused e, rw (here, shut) refl)
      ]
