-- ===== src/Gravity/Coordinator/Claims.antt =====
-- When the taker claims the asset.
use pyrxd.Common.{
  ℕ, ◌≡◌, ◌≢◌, ◌↔◌, ◌⊎◌, refl, sym, ap, ◌∙◌, inl, inr, arith, length, List, ◌∷◌, Option, none, some,
  ok, err, Result, Bool-cases, Result-cases,
}
use pyrxd.Gravity.Machine.{SwapEvent, secret_revealed, state_eq, advance}
use pyrxd.Gravity.Margin.{ClaimFinality, safe, wait, squeezed}
use pyrxd.Gravity.Record.{SwapRecord, with_state}
use pyrxd.Gravity.Coordinator.{
  Raised, World, Env, Call, CoordError, call_claim_asset, then_do, ◌>>=◌, ◌>>◌, lift, raise_if,
  get_record, put_record, invoke, advance_by, note_write, persist_by, persist_record,
}
use pyrxd.Gravity.Coordinator.Steps.{
  claim_with, act_on, taker_scrape_and_claim_asset, perform, op_scrape,
}
use pyrxd.Gravity.Coordinator.Parts.{only_from, finish, secret_of, finality_of}
use pyrxd.Gravity.Coordinator.Rules.{state_eq→eq}
use pyrxd.Gravity.Coordinator.Shows.{ShowsBtc, ShowsEth}
use pyrxd.Gravity.Coordinator.Shows.Passes.{passes_iff}

cons-ne {ℓ} : {A : Type ℓ} (x : A) (xs : List A) → xs ≢ x ∷ xs
cons-ne x xs h = absurd (omega (arith, ap length h))

module _ {B E : Type 0} (sha256 : List ℕ → List ℕ) (env : Env B E) (w : World B E) where
  persist_by-calls :
      (hook : Option (SwapRecord B E → Result Raised (Unit {0}))) (v : World B E)
      → (persist_by hook v).1.calls ≡ v.calls
  unfolding persist_by note_write
  persist_by-calls none v = refl
  persist_by-calls (some hook) v = elim (Result-cases (hook v.current)) [
    | inl (u, done) ↦ rw done refl
    | inr (e, bad) ↦ rw bad refl
  ]

  then-calls :
      (p : Result CoordError (Unit {0}) × World B E)
      → (then_do p (λ _. get_record)).1.calls ≡ p.1.calls
  unfolding then_do get_record
  then-calls (ok u, v) = refl
  then-calls (err e, v) = refl

  finish-calls : (v : World B E) (e : SwapEvent) → (finish env e v).1.calls ≡ v.calls
  unfolding finish ◌>>=◌ ◌>>◌ then_do advance_by get_record lift put_record persist_record
  finish-calls v e = elim (Result-cases (advance v.current.state e)) [
    | inr (bad, no_edge) ↦ rw no_edge refl
    | inl (s, edge) ↦ elim (Result-cases (with_state s v.current)) [
      | inr (bad, refused) ↦ rw (edge, refused) refl
      | inl (r, put) ↦
          rw (edge, put)
            (then-calls (persist_by env.persist (record v { current = r }))
              ∙ persist_by-calls env.persist (record v { current = r }))
    ]
  ]

  claim_with-calls :
      (p : List ℕ) → (claim_with sha256 env p w).1.calls ≡ call_claim_asset w.current p ∷ w.calls
  unfolding claim_with ◌>>=◌ ◌>>◌ then_do get_record invoke
  claim_with-calls p = elim (Result-cases (env.claim_asset w.current p)) [
    | inr (e, bad) ↦ rw bad refl
    | inl (u, done) ↦ rw done (finish-calls _ _)
  ]

  -- The calls after each answer of the gate.
  abbrev calls_after : List ℕ → ClaimFinality → List (Call B E)
  calls_after p safe = call_claim_asset w.current p ∷ w.calls
  calls_after p wait = w.calls
  calls_after p squeezed = w.calls

  act_on-calls :
      (p : List ℕ) (f : ClaimFinality) → (act_on sha256 env p f w).1.calls ≡ calls_after p f
  unfolding act_on get_record
  act_on-calls p safe = claim_with-calls p
  act_on-calls p wait = refl
  act_on-calls p squeezed = finish-calls w _

  is_safe :
      (p q : List ℕ) (f : ClaimFinality)
      → calls_after q f ≡ call_claim_asset w.current p ∷ w.calls
      → (f ≡ safe) × (q ≡ p)
  is_safe p q safe h = (refl, cc h)
  is_safe p q wait h = absurd (cons-ne _ w.calls h)
  is_safe p q squeezed h = absurd (cons-ne _ w.calls h)

  module _ (claim p : List ℕ) (now lock : ℕ) where
    abbrev pub Claimed : Type 0
    Claimed =
        (perform sha256 env (op_scrape claim now lock) w).1.calls
        ≡ call_claim_asset w.current p ∷ w.calls

    abbrev pub MayClaim : Type 0
    MayClaim =
        (w.current.state ≡ secret_revealed)
        × (ShowsBtc sha256 env w.current claim p now lock
            ⊎ ShowsEth sha256 env w.current claim p now lock)

    abbrev Passes : Type 0
    Passes =
        (w.current.state ≡ secret_revealed)
        × (secret_of sha256 env w.current claim ≡ ok p)
        × (finality_of env w.current claim now lock ≡ ok safe)

    scrape_only : Claimed → Passes
    unfolding perform taker_scrape_and_claim_asset only_from ◌>>=◌ ◌>>◌ then_do get_record raise_if
        lift
    scrape_only h = elim (Bool-cases (state_eq w.current.state secret_revealed)) [
      | inr other ↦ absurd (cons-ne _ w.calls (rw other at h))
      | inl here ↦ elim (Result-cases (secret_of sha256 env w.current claim)) [
        | inr (e, bad) ↦ absurd (cons-ne _ w.calls (rw (here, bad) at h))
        | inl (q, good) ↦ elim (Result-cases (finality_of env w.current claim now lock)) [
          | inr (e, bad) ↦ absurd (cons-ne _ w.calls (rw (here, good, bad) at h))
          | inl (f, is) ↦
              let both = is_safe p q f (sym (act_on-calls q f) ∙ (rw (here, good, is) at h)) in
              (state_eq→eq _ _ here, good ∙ ap ok both.1, is ∙ ap ok both.0)
        ]
      ]
    ]

    scrape_does : Passes → Claimed
    unfolding perform taker_scrape_and_claim_asset only_from ◌>>=◌ ◌>>◌ then_do get_record raise_if
        lift
    scrape_does k = rw (ap (λ s. state_eq s secret_revealed) k.0, k.1, k.2) (act_on-calls p safe)

    -- `taker_scrape_and_claim_asset` claims the asset with the secret `p` exactly when the record is in
    -- SECRET_REVEALED and the maker's claim shows what it must. On a BTC swap: it reveals `p`, which hashes to
    -- the hashlock; one of the outpoints that it spends is the funding on the record; and it has the reorg
    -- depth of the policy. On an ETH swap: it reveals such a `p`, the contract on the record confirms it, and it is
    -- final. On both: the height is not below the lock's, a value at risk is known where a reorg cost is
    -- configured, and the required burial fits before the maker's refund opens.
    pub scrape_iff : Claimed ↔ MayClaim
    scrape_iff =
        let shows = passes_iff sha256 env w.current claim p now lock in
        (
          λ h. let k = scrape_only h in (k.0, shows.0 (k.1, k.2)),
          λ k. let checks = shows.1 k.1 in scrape_does (k.0, checks.0, checks.1),
        )
