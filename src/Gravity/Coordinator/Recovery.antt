-- ===== src/Gravity/Coordinator/Recovery.antt =====
-- The taker gets its counter leg back: the refunds work from every record that needs them, and a refund
-- whose broadcast raised can be tried again.
use pyrxd.Common.{
  ℕ, ◌≡◌, refl, sym, ap, ◌⊎◌, inl, inr, true, List, ◌∷◌, Option, none, some, ok, Result,
}
use mathlib.Core.Path.{subst}
use pyrxd.Gravity.Machine.{
  SwapState, btc_locked, both_locked, mutual_refund, params_mismatch, aborted, SwapEvent,
  maker_never_locks_btc_timeout, taker_refunds_btc, both_timeouts_elapse, advance, state_eq,
}
use pyrxd.Gravity.Machine.Advance.{Step, give_up, recover, unwind, advance_iff}
use pyrxd.Gravity.Record.{SwapRecord}
use pyrxd.Gravity.Record.Updates.{IsWellFormed, updates_lem}
use pyrxd.Gravity.Coordinator.{
  Raised, World, Env, call_refund, call_refund_asset, then_do, ◌>>=◌, ◌>>◌, lift, raise_if,
  get_record, put_record, invoke, advance_by, note_write, persist_by, persist_record,
}
use pyrxd.Gravity.Coordinator.Steps.{taker_refund_btc, refund_both, perform, op_refund, op_unwind}
use pyrxd.Gravity.Coordinator.Parts.{is_locator, only_from, locator_of, finish}
use pyrxd.Gravity.Coordinator.Histories.{History}
use pyrxd.Gravity.Coordinator.Located.{is_funded, IsSound, History-IsSound}

module _ {B E : Type 0} where
  -- The durable hook is absent or writes what it is given.
  abbrev pub Writes : Option (SwapRecord B E → Result Raised (Unit {0})) → Type 0
  Writes none = Unit {0}
  Writes (some hook) = (r : SwapRecord B E) → hook r ≡ ok tt

  persist_by-Writes :
      (hook : Option (SwapRecord B E → Result Raised (Unit {0}))) (v : World B E)
      → Writes hook
      → (d : List (SwapRecord B E)) × (persist_by hook v ≡ (ok tt, record v { durable = d }))
  unfolding persist_by note_write
  persist_by-Writes none v k = (v.durable, refl)
  persist_by-Writes (some hook) v k = (v.current ∷ v.durable, rw (k v.current) refl)

  -- The last part of a method, where the machine has the edge.
  finish-ok :
      (env : Env B E) (v : World B E) (e : SwapEvent) (s : SwapState)
      → IsWellFormed v.current
      → advance v.current.state e ≡ ok s
      → Writes env.persist
      → (d : List (SwapRecord B E)) × (finish env e v ≡ (
        ok (record v.current { state = s }),
        record v { current = record v.current { state = s }; durable = d },
      ))
  unfolding finish ◌>>=◌ ◌>>◌ then_do advance_by get_record lift put_record persist_record
  finish-ok env v e s k edge writes =
      let (d, written) =
        persist_by-Writes env.persist (record v { current = record v.current { state = s } })
          writes in
      (d, rw (edge, (updates_lem v.current k).0 s, written) refl)

  module _ (sha256 : List ℕ → List ℕ) {start w : World B E} (env : Env B E)
      (sound : IsSound start.current) (h : History sha256 start w)
      (refunds : env.refund w.current.counterchain_locator w.current.terms.t_btc ≡ ok tt)
      (writes : Writes env.persist) where
    now-IsSound : IsSound w.current
    now-IsSound = History-IsSound sha256 sound h

    there : is_funded w.current.state ≡ true → is_locator w.current.counterchain_locator ≡ true
    there = now-IsSound.has_locator

    edge :
        {s t : SwapState} {e : SwapEvent}
        → w.current.state ≡ s
        → Step s e t
        → advance w.current.state e ≡ ok t
    edge {t = t} {e} here step =
        (advance_iff w.current.state e t).1 (subst (λ x. Step x e t) (sym here) step)

    ends :
        (e : SwapEvent) (t : SwapState) {s : SwapState}
        → w.current.state ≡ s
        → Step s e t
        → (d : List (SwapRecord B E)) × (finish env e (record w {
          calls = call_refund w.current.counterchain_locator w.current.terms.t_btc ∷ w.calls;
        })
            ≡ (
              ok (record w.current { state = t }),
              record w {
                current = record w.current { state = t };
                durable = d;
                calls = call_refund w.current.counterchain_locator w.current.terms.t_btc ∷ w.calls;
              },
            ))
    ends e t here step = finish-ok env _ e t now-IsSound.well_formed (edge here step) writes

    -- In every history from a record that its constructor accepts, and that has a counter locator if its state
    -- is one of a funded swap (as NEGOTIATED is not): from BTC_LOCKED and PARAMS_MISMATCH, once the leg's
    -- refund works and the hook writes, `taker_refund_btc` returns the record, ABORTED and otherwise as it was.
    pub taker_refund_btc-returns :
        (w.current.state ≡ btc_locked) ⊎ (w.current.state ≡ params_mismatch)
        → (perform sha256 env op_refund w).0 ≡ ok (record w.current { state = aborted })
    unfolding perform taker_refund_btc ◌>>=◌ ◌>>◌ then_do get_record raise_if locator_of invoke
    taker_refund_btc-returns (inl here) =
        let first = ap (λ x. state_eq x btc_locked) here in
        let (d, ended) = ends maker_never_locks_btc_timeout aborted here give_up in
        rw (first, there (ap is_funded here), refunds, ended) refl
    taker_refund_btc-returns (inr here) =
        let first = ap (λ x. state_eq x btc_locked) here in
        let second = ap (λ x. state_eq x params_mismatch) here in
        let (d, ended) = ends taker_refunds_btc aborted here recover in
        rw (first, second, there (ap is_funded here), refunds, ended) refl

    -- In every history from a record that its constructor accepts, and that has a counter locator if its state
    -- is one of a funded swap (as NEGOTIATED is not): from BOTH_LOCKED, once the refunds of both legs work and
    -- the hook writes, `mutual_refund` returns the record, MUTUAL_REFUND and otherwise as it was.
    pub refund_both-returns :
        w.current.state ≡ both_locked
        → env.refund_asset w.current ≡ ok tt
        → (perform sha256 env op_unwind w).0 ≡ ok (record w.current { state = mutual_refund })
    unfolding perform refund_both ◌>>=◌ ◌>>◌ then_do get_record raise_if only_from locator_of invoke
    refund_both-returns here asset =
        let first = ap (λ x. state_eq x both_locked) here in
        let (d, ended) =
          finish-ok env
            (record w {
              calls =
                  call_refund_asset w.current
                  ∷ call_refund w.current.counterchain_locator w.current.terms.t_btc
                  ∷ w.calls;
            })
            both_timeouts_elapse mutual_refund now-IsSound.well_formed (edge here unwind) writes in
        rw (first, there (ap is_funded here), refunds, asset, ended) refl
