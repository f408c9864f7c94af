-- ===== src/Gravity/Coordinator/Finishing.antt =====
-- Where the last lines of a method returned: the machine had the edge, and the record is as it was in the
-- new state.
use pyrxd.Common.{◌≡◌, refl, ◌∙◌, inl, inr, Option, none, some, ok, err, Result, Result-cases}
use pyrxd.Gravity.Machine.{SwapState, SwapEvent, advance}
use pyrxd.Gravity.Record.{SwapRecord, with_state}
use pyrxd.Gravity.Coordinator.{
  Raised, World, Env, CoordError, then_do, ◌>>=◌, ◌>>◌, lift, get_record, put_record, advance_by,
  note_write, persist_by, persist_record,
}
use pyrxd.Gravity.Coordinator.Parts.{finish}
use pyrxd.Gravity.Coordinator.Rules.{with_state-eq}

module _ {B E : Type 0} (env : Env B E) where
  -- Where a last part returned, the machine had the edge, and the record is as it was in the new state.
  persist_by-keeps :
      (hook : Option (SwapRecord B E → Result Raised (Unit {0}))) (v : World B E)
      → (persist_by hook v).1.current ≡ v.current
  unfolding persist_by note_write
  persist_by-keeps none v = refl
  persist_by-keeps (some hook) v = elim (Result-cases (hook v.current)) [
    | inl (u, done) ↦ rw done refl
    | inr (e, bad) ↦ rw bad refl
  ]

  then-keeps :
      (p : Result CoordError (Unit {0}) × World B E)
      → (then_do p (λ _. get_record)).1.current ≡ p.1.current
  unfolding then_do get_record
  then-keeps (ok u, v) = refl
  then-keeps (err e, v) = refl

  pub finish-moves :
      (v : World B E) (e : SwapEvent) (a : SwapRecord B E)
      → (finish env e v).0 ≡ ok a
      → (s : SwapState) × (advance v.current.state e ≡ ok s)
        × ((finish env e v).1.current ≡ record v.current { state = s })
  unfolding finish ◌>>=◌ ◌>>◌ then_do advance_by get_record lift put_record persist_record
  finish-moves v e a h = elim (Result-cases (advance v.current.state e)) [
    | inr (bad, no_edge) ↦ absurd (cc (rw no_edge at h))
    | inl (s, edge) ↦ elim (Result-cases (with_state s v.current)) [
      | inr (bad, refused) ↦ absurd (cc (rw (edge, refused) at h))
      | inl (r, put) ↦ (
        s,
        edge,
        rw (edge, put)
            (then-keeps (persist_by env.persist (record v { current = r }))
              ∙ persist_by-keeps env.persist (record v { current = r })
              ∙ with_state-eq s v.current r put),
      )
    ]
  ]
