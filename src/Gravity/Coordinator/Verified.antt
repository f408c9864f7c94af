-- ===== src/Gravity/Coordinator/Verified.antt =====
-- The verification of an ETH counter leg: if it returns, the record in memory has the verified locator.
use pyrxd.Common.{
  map_err-eq-ok, ℕ, ◌≡◌, refl, sym, ap, inl, inr, Bool, List, Option, none, some, Result, ok, err,
  Bool-cases,
}
use mathlib.Core.Path.{subst}
use pyrxd.Gravity.Terms.{NegotiatedTerms}
use pyrxd.Gravity.Record.{Locator, SwapRecord, RecordError, with_counter_lock}
use pyrxd.Gravity.Coordinator.{
  Raised, raised, Env, CoordError, order, no_verifier, is_validation, World, Action, then_do, ◌>>=◌,
  ◌>>◌, lift, get_record, put_record, note_write, persist_by, persist_record,
}
use pyrxd.Gravity.Coordinator.Gates.{require, assert_eth_lock_timing_still_safe}
use pyrxd.Gravity.Coordinator.Steps.{reverify, on_missing, assert_eth_counter_funding_verified}
use pyrxd.Gravity.Coordinator.Parts.{settle, reraise, on_validation_error}
use pyrxd.Gravity.Coordinator.Moves.{
  IsVerified, Move, persisted, located, Moves, stay, next, Moves-trans,
}
use pyrxd.Gravity.Coordinator.Rules.{Runs, with_counter_lock-eq}

-- What the verification leaves alone.
abbrev pub KeepsCovenant : {B E : Type 0} → World B E → World B E → Type 0
KeepsCovenant w v =
    (v.current.terms ≡ w.current.terms)
    × (v.current.radiant_covenant_spk_hex ≡ w.current.radiant_covenant_spk_hex)

-- The action makes moves only, and where it returns, it ends in `Q`.
pub record Ends {B E A : Type 0} (sha256 : List ℕ → List ℕ) (env : Env B E) (w : World B E)
    (m : Action B E A) (Q : World B E → Type 0) : Type 0 where
  pub moves : Moves sha256 env w (m w).1
  pub after : (a : A) → (m w).0 ≡ ok a → Q (m w).1

module _ {B E A : Type 0} where
  reraise-err :
      (e : CoordError) (p : Result CoordError (Unit {0}) × World B E)
      → (raised_last : CoordError) × (reraise {A = A} e p ≡ (err raised_last, p.1))
  unfolding reraise
  reraise-err e (ok u, w) = (e, refl)
  reraise-err e (err e', w) = (e', refl)

module _ {B E : Type 0} {sha256 : List ℕ → List ℕ} {env : Env B E} where
  write-Moves :
      (w : World B E) (written : Result Raised (Unit {0}))
      → Moves sha256 env w (note_write written w).1
  unfolding note_write
  write-Moves w (ok u) = next stay (persisted w)
  write-Moves w (err e) = stay

  persist_by-Moves :
      (w : World B E) (hook : Option (SwapRecord B E → Result Raised (Unit {0})))
      → Moves sha256 env w (persist_by hook w).1
  unfolding persist_by
  persist_by-Moves w none = stay
  persist_by-Moves w (some hook) = write-Moves w (hook w.current)

  persist-Moves : (w : World B E) → Moves sha256 env w (persist_record env w).1
  unfolding persist_record
  persist-Moves w = persist_by-Moves w env.persist

  then-Runs :
      {A C : Type 0} {w : World B E} (p : Result CoordError A × World B E) {f : A → Action B E C}
      → Moves sha256 env w p.1
      → ((a : A) → p.0 ≡ ok a → Runs sha256 env p.1 (f a))
      → Moves sha256 env w (then_do p f).1
  unfolding then_do
  then-Runs (ok a, v) m k = Moves-trans sha256 env m (k a refl).moves
  then-Runs (err e, v) m k = m

  settle-Ends :
      {w : World B E} (Q : World B E → Type 0) (v : World B E) (r : Result CoordError (Unit {0}))
      → Moves sha256 env w v
      → ((a : Unit {0}) → r ≡ ok a → Q v)
      → (Moves sha256 env w (settle r (persist_record env) v).1)
        × ((a : Unit {0})
            → (settle r (persist_record env) v).0 ≡ ok a
            → Q (settle r (persist_record env) v).1)
  unfolding settle
  settle-Ends Q v (ok u) m q = (m, λ a h. q a h)
  settle-Ends Q v (err e) m q = elim (Bool-cases (is_validation e)) [
    | inl ours ↦
        let again = reraise-err {A = Unit {0}} e (persist_record env v) in
        rw (ours, again.1) (Moves-trans sha256 env m (persist-Moves v), λ a h. cc)
    | inr other ↦ rw other (m, λ a h. cc)
  ]

module _ {B E : Type 0} {sha256 : List ℕ → List ℕ} {env : Env B E} {Q : World B E → Type 0} where
  Ends_get :
      {A : Type 0} {w : World B E} (f : SwapRecord B E → Action B E A)
      → Ends sha256 env w (f w.current) Q
      → Ends sha256 env w (get_record >>= f) Q
  unfolding get_record ◌>>=◌
  Ends_get f k = record { moves = k.moves; after = k.after }

  Ends_lift :
      {A C : Type 0} {w : World B E} (r : Result CoordError A) {f : A → Action B E C}
      → ((a : A) → r ≡ ok a → Ends sha256 env w (f a) Q)
      → Ends sha256 env w (lift r >>= f) Q
  unfolding lift ◌>>=◌
  Ends_lift (ok a) k = record { moves = (k a refl).moves; after = (k a refl).after }
  Ends_lift (err e) k = record { moves = stay; after = λ a h. cc }

  Ends_last :
      {w : World B E} (r : Result CoordError (Unit {0}))
      → (r ≡ ok tt → Q w)
      → Ends sha256 env w (lift r) Q
  unfolding lift
  Ends_last r q = record { moves = stay; after = λ a h. q h }

  Ends_put :
      {C : Type 0} {w : World B E} (r : Result RecordError (SwapRecord B E)) {m : Action B E C}
      → ((r' : SwapRecord B E)
          → r ≡ ok r'
          → Move sha256 env w (record w { current = r' })
            × Ends sha256 env (record w { current = r' }) m Q)
      → Ends sha256 env w (put_record r >> m) Q
  unfolding put_record ◌>>◌
  Ends_put (ok r) k = record {
    moves = Moves-trans sha256 env (next stay (k r refl).0) (k r refl).1.moves;
    after = (k r refl).1.after;
  }
  Ends_put (err e) k = record { moves = stay; after = λ a h. cc }

  Ends_handled :
      {w : World B E} {m : Action B E (Unit {0})}
      → Ends sha256 env w m Q
      → Ends sha256 env w (on_validation_error m (persist_record env)) Q
  unfolding on_validation_error
  Ends_handled {w = w} {m} k =
      let both = settle-Ends Q (m w).1 (m w).0 k.moves k.after in
      record { moves = both.0; after = both.1 }

  Ends_missing :
      {A C : Type 0} {w : World B E} (r : Result CoordError A) {f : A → Action B E C}
      → ((a : A) → r ≡ ok a → Ends sha256 env w (f a) Q)
      → Ends sha256 env w (on_missing sha256 env r >>= f) Q
  unfolding on_missing ◌>>=◌
  Ends_missing (ok a) k = record { moves = (k a refl).moves; after = (k a refl).after }
  Ends_missing {A = A} {w = w} (err e) {f} k =
      let again = reraise-err {A = A} e (persist_record env w) in
      let stopped = ap (λ p. then_do p f) again.1 in
      record { moves = rw (ap (λ p. p.1) stopped) (persist-Moves w); after = λ a h. cc (h) }

  pub Ends_then :
      {C : Type 0} {w : World B E} {m : Action B E (Unit {0})} {m' : Action B E C}
      → Ends sha256 env w m Q
      → ((v : World B E) → Q v → Runs sha256 env v m')
      → Runs sha256 env w (m >> m')
  unfolding ◌>>◌
  Ends_then {w = w} {m} k later = record {
    moves = then-Runs (m w) k.moves (λ u done. later (m w).1 (k.after u done));
  }

module _ {B E : Type 0} (sha256 : List ℕ → List ℕ) (env : Env B E) where
  reverify-Ends :
      (w : World B E) (now : Option ℕ) (e : E)
      (verify : List ℕ → NegotiatedTerms → Bool → Result Raised E)
      → env.verify_counterparty_funded ≡ some verify
      → Ends sha256 env w
          (reverify sha256 env now e verify)
          (λ v. IsVerified sha256 env v.current now × KeepsCovenant w v)
  unfolding reverify
  reverify-Ends w now e verify there = Ends_get _ (
      Ends_lift _ λ l bound. Ends_put _ λ r put. (
        located w _ r put refl (
            inr (
              verify,
              env.contract_address e,
              measured,
              l,
              there,
              map_err-eq-ok raised _ bound,
              refl,
            )),
        Ends_last _ λ safe. (
          (
            verify,
            e,
            l,
            there,
            subst (λ (x : NegotiatedTerms). verify (env.contract_address e) x measured ≡ ok l)
                (sym (terms r _ put)) (map_err-eq-ok raised _ bound),
            ap (λ (x : SwapRecord B E). x.counterchain_locator)
                (with_counter_lock-eq _ w.current r put),
            subst
                (λ (x : NegotiatedTerms).
                  assert_eth_lock_timing_still_safe env.config.margin_policy x now ≡ ok tt)
                (sym (terms r _ put)) (map_err-eq-ok order _ safe),
          ),
          (
            terms r _ put,
            ap (λ (x : SwapRecord B E). x.radiant_covenant_spk_hex)
                (with_counter_lock-eq _ w.current r put),
          ),
        ),
      ))
    where
      measured : Bool
      measured = env.config.margin_policy.is_measured

      terms :
          (r : SwapRecord B E) (l : Locator B E)
          → with_counter_lock l w.current ≡ ok r
          → r.terms ≡ w.current.terms
      terms r l put = ap (λ (x : SwapRecord B E). x.terms) (with_counter_lock-eq _ w.current r put)

  pub require-eq-ok :
      {X : Type 0} (o : Option X) (e : CoordError) {a : X} → require o e ≡ ok a → o ≡ some a
  unfolding require
  require-eq-ok none e h = cc
  require-eq-ok (some b) e h = cc

  pub assert-Ends :
      (w : World B E) (now : Option ℕ)
      → Ends sha256 env w
          (assert_eth_counter_funding_verified sha256 env now)
          (λ v. IsVerified sha256 env v.current now × KeepsCovenant w v)
  unfolding assert_eth_counter_funding_verified
  assert-Ends w now = Ends_get _ (
      Ends_missing _ λ e is. Ends_missing _ λ verify there.
        Ends_handled (reverify-Ends w now e verify (require-eq-ok _ no_verifier there)))
