-- ===== src/Gravity/Coordinator/Interleaved.antt =====
-- src/pyrxd/gravity/swap_coordinator.py: coordinators that share a seen-store and run at the same time. A
-- lock of the source is of one coordinator, so another may run between two awaits of `taker_funds_btc`:
-- after the gate, and after the atomic reservation. The other methods do not use the store.
use pyrxd.Common.{
  ℕ, ◌+◌, ◌≤◌, ◌≡◌, refl, ap, arith, Bool, not, ◌||◌, length, ◌==◌, List, [], ◌∷◌, ◌++◌, Option,
  Result, ok, err, Bool-cases, Result-cases, bytes_eq, inl, inr, false,
}
use pyrxd.Gravity.Machine.{negotiated, state_eq}
use pyrxd.Gravity.Terms.{NegotiatedTerms}
use pyrxd.Gravity.Record.{SwapRecord}
use pyrxd.Gravity.Coordinator.{
  World, Env, CoordError, has, then_do, ◌>>=◌, ◌>>◌, lift, raise_if, get_record, get_seen,
  persist_record, reserve, reserve_if, already_reserved,
}
use pyrxd.Gravity.Coordinator.Gates.{pre_btc_lock_check}
use pyrxd.Gravity.Coordinator.Parts.{only_from}
use pyrxd.Gravity.Coordinator.Steps.{
  Op, perform, taker_funds, check_funding, reserve_hashlock, fund_reserved,
}
use pyrxd.Gravity.Coordinator.Refines.{perform-Moves}
use pyrxd.Gravity.Coordinator.Histories.{Moves-keep}
use pyrxd.Gravity.Coordinator.Once.{
  one_if, once_more, fundings, IsOnce, Move-IsOnce, check_funding-IsOnce, fund_reserved-IsOnce,
}

module _ (B E : Type 0) where
  -- A call of `taker_funds_btc` that waits: after the gate, or after it reserved the hashlock.
  pub data Waiting : Type 0 where
    checked reserved : Env B E → NegotiatedTerms → SwapRecord B E → Waiting

module _ {B E : Type 0} where
  abbrev pub after_check :
      Env B E
      → NegotiatedTerms
      → Result CoordError (SwapRecord B E)
      → List (Waiting B E)
      → List (Waiting B E)
  after_check env t (ok r) ps = checked env t r ∷ ps
  after_check env t (err e) ps = ps

  abbrev pub after_reserve :
      Env B E → NegotiatedTerms → SwapRecord B E → Result CoordError (Unit {0}) → List (Waiting B E)
  after_reserve env t r (ok u) = reserved env t r ∷ []
  after_reserve env t r (err e) = []

-- The record is that of the coordinator whose turn it is; the store and the calls are those of all.
module _ {B E : Type 0} (sha256 : List ℕ → List ℕ) where
  pub data Interleaved (start : World B E) : World B E → List (Waiting B E) → Type 0 where
    begin : Interleaved start start []
    turn :
        {w : World B E} {ps : List (Waiting B E)} (r : SwapRecord B E) (d : List (SwapRecord B E))
        → Interleaved start w ps
        → Interleaved start (record w { current = r; durable = d }) ps
    does :
        {w : World B E} {ps : List (Waiting B E)} (env : Env B E) (op : Op)
        → Interleaved start w ps
        → Interleaved start (perform sha256 env op w).1 ps
    checks :
        {w : World B E} {ps : List (Waiting B E)} (env : Env B E) (t : NegotiatedTerms)
        (now : Option ℕ)
        → Interleaved start w ps
        → Interleaved start
            (check_funding sha256 env t now w).1
            (after_check env t (check_funding sha256 env t now w).0 ps)
    reserves :
        {w : World B E} (env : Env B E) (t : NegotiatedTerms) (r : SwapRecord B E)
        (ps qs : List (Waiting B E))
        → Interleaved start w (ps ++ (checked env t r ∷ qs))
        → Interleaved start
            (reserve_hashlock sha256 env t.hashlock w).1
            (ps ++ (after_reserve env t r (reserve_hashlock sha256 env t.hashlock w).0 ++ qs))
    funds :
        {w : World B E} (env : Env B E) (t : NegotiatedTerms) (r : SwapRecord B E)
        (d : List (SwapRecord B E)) (ps qs : List (Waiting B E))
        → Interleaved start w (ps ++ (reserved env t r ∷ qs))
        → Interleaved start
            (fund_reserved sha256 env t r (record w { current = r; durable = d })).1
            (ps ++ qs)

module _ {B E : Type 0} where
  abbrev held_by : List ℕ → Waiting B E → ℕ
  held_by h (checked env t r) = 0
  held_by h (reserved env t r) = one_if (bytes_eq t.hashlock h)

  -- The reservations of `h` that wait for their call of `fund`.
  abbrev held : List (Waiting B E) → List ℕ → ℕ
  held [] h = 0
  held (p ∷ ps) h = held_by h p + held ps h

  held-append :
      (ps qs : List (Waiting B E)) (h : List ℕ) → held (ps ++ qs) h ≡ held ps h + held qs h
  held-append [] qs h = omega arith
  held-append (p ∷ ps) qs h = omega (arith, held-append ps qs h)

  held-after_check :
      (env : Env B E) (t : NegotiatedTerms) (r : Result CoordError (SwapRecord B E))
      (ps : List (Waiting B E)) (h : List ℕ)
      → held (after_check env t r ps) h ≡ held ps h
  held-after_check env t (ok r) ps h = omega arith
  held-after_check env t (err e) ps h = refl

  module _ (sha256 : List ℕ → List ℕ) (env : Env B E) (t : NegotiatedTerms) (r : SwapRecord B E)
      (w : World B E) (ps qs : List (Waiting B E)) where
    -- A reservation is granted on a hashlock that the store did not have.
    reserves-IsOnce :
        IsOnce (held (ps ++ (checked env t r ∷ qs))) w
        → IsOnce
            (held
              (ps ++ (after_reserve env t r (reserve_hashlock sha256 env t.hashlock w).0 ++ qs)))
            (reserve_hashlock sha256 env t.hashlock w).1
    unfolding reserve_hashlock reserve reserve_if ◌>>=◌ then_do raise_if
    reserves-IsOnce k h = elim (Bool-cases (env.store_down || not (length t.hashlock == 32))) [
      | inl down ↦ rw down (omega (arith, before))
      | inr up ↦ elim (Bool-cases (has w.seen t.hashlock)) [
        | inl old ↦ rw (up, old) (omega (arith, before))
        | inr new ↦
            rw (up, new)
              (omega (
                arith,
                held-append ps (reserved env t r ∷ qs) h,
                held-append ps qs h,
                once_more t.hashlock h (fundings h w.calls + held (ps ++ qs) h) w.seen new before,
              ))
      ]
    ]
      where
        before : fundings h w.calls + held (ps ++ qs) h ≤ one_if (has w.seen h)
        before = omega (arith, k h, held-append ps (checked env t r ∷ qs) h, held-append ps qs h)

  Interleaved-IsOnce :
      (sha256 : List ℕ → List ℕ) {start w : World B E} {ps : List (Waiting B E)}
      → start.calls ≡ []
      → Interleaved sha256 start w ps
      → IsOnce (held ps) w
  Interleaved-IsOnce sha256 none_yet begin = λ h. rw none_yet (omega arith)
  Interleaved-IsOnce sha256 none_yet (turn r d run) = Interleaved-IsOnce sha256 none_yet run
  Interleaved-IsOnce sha256 none_yet (does {w} {ps} env op run) =
      Moves-keep sha256 (IsOnce (held ps)) (λ e v u. Move-IsOnce (held ps) sha256 e) env
        (perform-Moves sha256 env w op) (Interleaved-IsOnce sha256 none_yet run)
  Interleaved-IsOnce sha256 none_yet (checks {w} {ps} env t now run) = λ h. omega (
    arith,
    held-after_check env t (check_funding sha256 env t now w).0 ps h,
    check_funding-IsOnce sha256 env w (held ps) t now (Interleaved-IsOnce sha256 none_yet run) h,
  )
  Interleaved-IsOnce sha256 none_yet (reserves {w} env t r ps qs run) =
      reserves-IsOnce sha256 env t r w ps qs (Interleaved-IsOnce sha256 none_yet run)
  Interleaved-IsOnce sha256 none_yet (funds {w} env t r d ps qs run) =
      fund_reserved-IsOnce sha256 env (record w { current = r; durable = d }) (held (ps ++ qs)) t
        (λ h. omega (
          arith,
          held-append ps (reserved env t r ∷ qs) h,
          held-append ps qs h,
          Interleaved-IsOnce sha256 none_yet run h,
        ))

  module _ {A : Type 0} (e : CoordError) (m : World B E → Result CoordError A × World B E) where
    reserve-bind :
        (q : Result CoordError Bool × World B E)
        → then_do q (λ fresh. raise_if (not fresh) e >> m)
          ≡ then_do (then_do q (λ fresh. raise_if (not fresh) e)) (λ u. m)
    unfolding then_do ◌>>◌ ◌>>=◌
    reserve-bind (ok fresh, v) = refl
    reserve-bind (err e', v) = refl

  persist-bind :
      (sha256 : List ℕ → List ℕ) (env : Env B E) (t : NegotiatedTerms) (r : SwapRecord B E)
      (p : Result CoordError (Unit {0}) × World B E)
      → then_do p (λ u. reserve env t.hashlock >>= λ fresh.
          raise_if (not fresh) already_reserved >> fund_reserved sha256 env t r)
        ≡ then_do
            (then_do p (λ u. lift (ok r)))
            (λ r'. reserve_hashlock sha256 env t.hashlock >> fund_reserved sha256 env t r')
  unfolding then_do ◌>>◌ ◌>>=◌ lift reserve_hashlock
  persist-bind sha256 env t r (ok u, v) =
      unfold ◌>>◌ in
      reserve-bind already_reserved (fund_reserved sha256 env t r) (reserve env t.hashlock v)
  persist-bind sha256 env t r (err e, v) = refl

  -- Without a pause, the three stages are `taker_funds_btc`.
  pub taker_funds-stages :
      (sha256 : List ℕ → List ℕ) (env : Env B E) (t : NegotiatedTerms) (now : Option ℕ)
      (w : World B E)
      → taker_funds sha256 env t now w
        ≡ (check_funding sha256 env t now >>= λ r.
              reserve_hashlock sha256 env t.hashlock >> fund_reserved sha256 env t r)
            w
  unfolding taker_funds check_funding reserve_hashlock fund_reserved only_from ◌>>=◌ ◌>>◌ then_do
      get_record get_seen raise_if lift
  taker_funds-stages sha256 env t now w = elim (Bool-cases (state_eq w.current.state negotiated)) [
    | inr other ↦ rw other refl
    | inl here ↦ elim (Result-cases (pre_btc_lock_check env w.seen t now)) [
      | inr (e, bad) ↦ rw (here, bad) refl
      | inl (u, passed) ↦
          rw (here, passed) (persist-bind sha256 env t w.current (persist_record env w))
    ]
  ]

-- Whatever coordinators share a seen-store, from a start without a call, and however their methods are
-- interleaved, `taker_funds_btc` pausing after its gate and after its reservation: the counter leg is
-- asked to fund a hashlock once at most, and only a hashlock that the store then has.
pub Interleaved-fundings :
    {B E : Type 0} (sha256 : List ℕ → List ℕ) {start w : World B E} {ps : List (Waiting B E)}
    (h : List ℕ)
    → start.calls ≡ []
    → Interleaved sha256 start w ps
    → (fundings h w.calls ≤ 1) × (has w.seen h ≡ false → fundings h w.calls ≡ 0)
Interleaved-fundings sha256 {start} {w} {ps} h none_yet run =
    let once = Interleaved-IsOnce sha256 none_yet run in
    (ground (arith, once h), λ new. omega (arith, once h, ap one_if new))
