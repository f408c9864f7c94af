-- ===== src/Gravity/Coordinator/Tracks.antt =====
-- The coordinator implements the state machine.
use pyrxd.Common.{ℕ, ◌≡◌, refl, sym, ap, ◌∙◌, List, [], ◌∷◌, ◌++◌, ok, >>=-eq-ok}
use mathlib.Core.Path.{subst}
use pyrxd.Gravity.Machine.{SwapState, SwapEvent, advance}
use pyrxd.Gravity.Machine.Traces.{run}
use pyrxd.Gravity.Terms.{NegotiatedTerms}
use pyrxd.Gravity.Record.{SwapRecord}
use pyrxd.Gravity.Coordinator.{World, Env}
use pyrxd.Gravity.Coordinator.Moves.{Move, persisted, funded, located, observed, called, advanced}
use pyrxd.Gravity.Coordinator.Rules.{with_state-eq, with_counter_lock-eq, with_radiant_lock-eq}
use pyrxd.Gravity.Coordinator.Histories.{History, History-keep}

run-append :
    (s : SwapState) (es : List SwapEvent) (e : SwapEvent) {t u : SwapState}
    → run s es ≡ ok t
    → advance t e ≡ ok u
    → run s (es ++ (e ∷ [])) ≡ ok u
unfolding run
run-append s [] e {t} {u} h k = rw (subst (λ x. advance x e ≡ ok u) (sym start) k)
  where
    start : s ≡ t
    start = cc h
run-append s (d ∷ es) e h k =
    let (v, first, later) = >>=-eq-ok (advance s d) (λ v. run v es) h in
    rw first (run-append v es e later k)

module _ {B E : Type 0} (s : SwapState) (t : NegotiatedTerms) where
  -- The record is where some accepted events lead from `s`, on the terms `t`.
  abbrev pub IsOnTrack : SwapRecord B E → Type 0
  IsOnTrack r = ((es : List SwapEvent) × (run s es ≡ ok r.state)) × (r.terms ≡ t)

  abbrev pub AllOnTrack : List (SwapRecord B E) → Type 0
  AllOnTrack [] = Unit {0}
  AllOnTrack (r ∷ rs) = IsOnTrack r × AllOnTrack rs

  abbrev TracksAll : World B E → Type 0
  TracksAll w = IsOnTrack w.current × AllOnTrack w.durable

  IsOnTrack-same :
      (r r' : SwapRecord B E) → r'.state ≡ r.state → r'.terms ≡ r.terms → IsOnTrack r → IsOnTrack r'
  IsOnTrack-same r r' same same' k = ((k.0.0, k.0.1 ∙ ap ok (sym same)), same' ∙ k.1)

  Move-TracksAll :
      (sha256 : List ℕ → List ℕ) (env : Env B E) {v u : World B E}
      → Move sha256 env v u
      → TracksAll v
      → TracksAll u
  Move-TracksAll sha256 env (persisted v) k = (k.0, (k.0, k.1))
  Move-TracksAll sha256 env (funded v t now here passed new) k = k
  Move-TracksAll sha256 env (located v l r put there whence) k =
      let same = with_counter_lock-eq l v.current r put in
      (
        IsOnTrack-same v.current r (ap (λ (x : SwapRecord B E). x.state) same)
            (ap (λ (x : SwapRecord B E). x.terms) same) k.0,
        k.1,
      )
  Move-TracksAll sha256 env (observed v outpoint spk r here put) k =
      let same = with_radiant_lock-eq outpoint spk v.current r put in
      (
        IsOnTrack-same v.current r (ap (λ (x : SwapRecord B E). x.state) same)
            (ap (λ (x : SwapRecord B E). x.terms) same) k.0,
        k.1,
      )
  Move-TracksAll sha256 env (called v c why) k = k
  Move-TracksAll sha256 env (advanced v e s' r edge put why) k =
      let same = with_state-eq s' v.current r put in
      (
        (
          (
            k.0.0.0 ++ (e ∷ []),
            run-append s k.0.0.0 e k.0.0.1 edge
                ∙ ap ok (sym (ap (λ (x : SwapRecord B E). x.state) same)),
          ),
          ap (λ (x : SwapRecord B E). x.terms) same ∙ k.0.1,
        ),
        k.1,
      )

-- Whatever the coordinator is asked to do and whatever the world answers: the record in memory, and every
-- record that the hook wrote, is where events that `advance` accepts lead from the first state, and has
-- the first terms.
pub History-run :
    {B E : Type 0} (sha256 : List ℕ → List ℕ) {start w : World B E}
    → start.durable ≡ []
    → History sha256 start w
    → AllOnTrack start.current.state start.current.terms (w.current ∷ w.durable)
unfolding run
History-run sha256 {start} none_yet h =
    History-keep sha256 (TracksAll start.current.state start.current.terms)
      (λ env v u. Move-TracksAll start.current.state start.current.terms sha256 env)
      (
        (([], refl), refl),
        subst (AllOnTrack start.current.state start.current.terms) (sym none_yet) tt,
      )
      h
