-- ===== src/Gravity/Coordinator/Once.antt =====
-- What the stages of a funding do to the count of fundings of a hashlock.
use pyrxd.Common.{
  ℕ, ◌+◌, ◌≤◌, ◌≡◌, refl, sym, ap, ◌∙◌, arith, Bool, true, false, bytes_eq, bytes_eq_iff, List, [],
  ◌∷◌, Option, none, some, Result, ok, err, Bool-cases, Result-cases, inl, inr,
}
use pyrxd.Gravity.Machine.{negotiated, state_eq}
use pyrxd.Gravity.Terms.{NegotiatedTerms}
use pyrxd.Gravity.Record.{SwapRecord}
use pyrxd.Gravity.Coordinator.{
  Call, call_fund, call_claim, call_refund, call_claim_asset, call_refund_asset, Env, has, World,
  Raised, CoordError, then_do, ◌>>=◌, ◌>>◌, lift, raise_if, get_record, get_seen, invoke,
  note_write, persist_by, persist_record,
}
use pyrxd.Gravity.Coordinator.Gates.{pre_btc_lock_check}
use pyrxd.Gravity.Coordinator.Parts.{only_from}
use pyrxd.Gravity.Coordinator.Steps.{check_funding, fund_reserved}
use pyrxd.Gravity.Coordinator.Refines.{record_funding-Runs}
use pyrxd.Gravity.Coordinator.Moves.{
  Move, persisted, funded, located, observed, called, advanced, Permits,
}
use pyrxd.Gravity.Coordinator.Histories.{Moves-keep}

abbrev pub one_if : Bool → ℕ
one_if true = 1
one_if false = 0

pub once_more :
    (h h' : List ℕ) (n : ℕ) (seen : List (List ℕ))
    → has seen h ≡ false
    → n ≤ one_if (has seen h')
    → one_if (bytes_eq h h') + n ≤ one_if (has (h ∷ seen) h')
unfolding has
once_more h h' n seen new k = elim (Bool-cases (bytes_eq h h')) [
  | inl same ↦
      let new' : has seen h' ≡ false = ap (has seen) (sym ((bytes_eq_iff h h').0 same)) ∙ new in
      rw same (omega (arith, k, ap one_if new'))
  | inr other ↦ rw other (omega (arith, k))
]

module _ {B E : Type 0} where
  abbrev funds_of : List ℕ → Call B E → ℕ
  funds_of h (call_fund t) = one_if (bytes_eq t.hashlock h)
  funds_of h (call_claim l p) = 0
  funds_of h (call_refund l t) = 0
  funds_of h (call_claim_asset r p) = 0
  funds_of h (call_refund_asset r) = 0

  -- How often the counter leg was asked to fund the hashlock `h`.
  abbrev pub fundings : List ℕ → List (Call B E) → ℕ
  fundings h [] = 0
  fundings h (c ∷ cs) = funds_of h c + fundings h cs

  -- With the reservations that are held for `h`, counted by `held`: only a hashlock of the store was
  -- funded or reserved, and once.
  abbrev pub IsOnce : (List ℕ → ℕ) → World B E → Type 0
  IsOnce held w = (h : List ℕ) → fundings h w.calls + held h ≤ one_if (has w.seen h)

  no_funding :
      (sha256 : List ℕ → List ℕ) (env : Env B E) (r : SwapRecord B E) (c : Call B E) (h : List ℕ)
      → Permits sha256 env r c
      → funds_of h c ≡ 0
  no_funding sha256 env r (call_fund t) h why = absurd why
  no_funding sha256 env r (call_claim l p) h why = refl
  no_funding sha256 env r (call_refund l t) h why = refl
  no_funding sha256 env r (call_claim_asset r' p) h why = refl
  no_funding sha256 env r (call_refund_asset r') h why = refl

  pub Move-IsOnce :
      (held : List ℕ → ℕ) (sha256 : List ℕ → List ℕ) (env : Env B E) {v u : World B E}
      → Move sha256 env v u
      → IsOnce held v
      → IsOnce held u
  Move-IsOnce held sha256 env (persisted v) k h = k h
  Move-IsOnce held sha256 env (funded v t now here passed new) k h =
      omega (arith, once_more t.hashlock h (fundings h v.calls + held h) v.seen new (k h))
  Move-IsOnce held sha256 env (located v l r put there whence) k h = k h
  Move-IsOnce held sha256 env (observed v outpoint spk r here put) k h = k h
  Move-IsOnce held sha256 env (called v c why) k h =
      omega (arith, k h, no_funding sha256 env v.current c h why)
  Move-IsOnce held sha256 env (advanced v e s r edge put why) k h = k h

  module _ (sha256 : List ℕ → List ℕ) (env : Env B E) (w : World B E) where
    module _ (held : List ℕ → ℕ) where
      -- The gate, and the hook after it, leave the store and the calls alone.
      persist-IsOnce :
          (hook : Option (SwapRecord B E → Result Raised (Unit {0})))
          → IsOnce held w
          → IsOnce held (persist_by hook w).1
      unfolding persist_by note_write
      persist-IsOnce none k h = k h
      persist-IsOnce (some hook) k h = elim (Result-cases (hook w.current)) [
        | inl (u, done) ↦ rw done (k h)
        | inr (e, bad) ↦ rw bad (k h)
      ]

      ends-IsOnce :
          (p : Result CoordError (Unit {0}) × World B E) (r : SwapRecord B E)
          → IsOnce held p.1
          → IsOnce held (then_do p (λ _. lift (ok r))).1
      unfolding then_do lift
      ends-IsOnce (ok u, v) r k = k
      ends-IsOnce (err e, v) r k = k

      pub check_funding-IsOnce :
          (t : NegotiatedTerms) (now : Option ℕ)
          → IsOnce held w
          → IsOnce held (check_funding sha256 env t now w).1
      unfolding check_funding only_from ◌>>=◌ ◌>>◌ then_do get_record get_seen raise_if lift
          persist_record
      check_funding-IsOnce t now k = elim (Bool-cases (state_eq w.current.state negotiated)) [
        | inr other ↦ rw other k
        | inl here ↦ elim (Result-cases (pre_btc_lock_check env w.seen t now)) [
          | inr (e, bad) ↦ rw (here, bad) k
          | inl (u, passed) ↦
              rw (here, passed)
                (ends-IsOnce (persist_by env.persist w) w.current (persist-IsOnce env.persist k))
        ]
      ]

      -- The call of `fund` uses up a reservation.
      pub fund_reserved-IsOnce :
          (t : NegotiatedTerms)
          → ((h : List ℕ)
              → fundings h w.calls + (one_if (bytes_eq t.hashlock h) + held h)
                ≤ one_if (has w.seen h))
          → IsOnce held (fund_reserved sha256 env t w.current w).1
      unfolding fund_reserved ◌>>=◌ then_do invoke
      fund_reserved-IsOnce t k = elim (Result-cases (env.fund t)) [
        | inr (e, bad) ↦ rw bad (λ h. omega (arith, k h))
        | inl (l, done) ↦ rw done (
            Moves-keep sha256 (IsOnce held) (λ e v u. Move-IsOnce held sha256 e) env
              (record_funding-Runs sha256 env (record w { calls = call_fund t ∷ w.calls }) t l
                (w.calls, refl) done).moves
              (λ h. omega (arith, k h)))
      ]
