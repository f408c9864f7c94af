-- ===== src/Gravity/Record/Updates.antt =====
-- The updates of a record: which of them can fail, and that they keep the record well formed.
use pyrxd.Common.{ℕ, ◌≡◌, ◌↔◌, arith, true, List, some, ok, Result-cases, inl, inr}
use pyrxd.Gravity.Machine.{SwapState}
use pyrxd.Gravity.Terms.{NegotiatedTerms}
use pyrxd.Gravity.Record.{
  Locator, no_locator, btc_locator, eth_locator, SwapRecord, check_spk, check_locator, make_record,
  with_state, with_counter_lock, with_radiant_lock,
}
use text.Mathlib.Text.{◌==◌ as str_eq}

module _ {B E : Type 0} where
  -- The locator's chain is the counter chain of the terms.
  abbrev pub IsOnChain : Locator B E → NegotiatedTerms → Type 0
  IsOnChain no_locator t = Unit {0}
  IsOnChain (btc_locator b) t = str_eq t.counter_chain "btc" ≡ true
  IsOnChain (eth_locator e) t = str_eq t.counter_chain "eth" ≡ true

  -- What the constructor of `SwapRecord` enforces.
  pub record IsWellFormed (r : SwapRecord B E) : Type 0 where
    pub on_chain : IsOnChain r.counterchain_locator r.terms
    pub spk : check_spk r.radiant_covenant_spk_hex ≡ ok tt

  check_locator_iff :
      (l : Locator B E) (t : NegotiatedTerms) → (check_locator l t ≡ ok tt) ↔ IsOnChain l t
  unfolding check_locator
  check_locator_iff no_locator t = ground arith
  check_locator_iff (btc_locator b) t = ground arith
  check_locator_iff (eth_locator e) t = ground arith

  make_record_of : (r : SwapRecord B E) → IsWellFormed r → make_record r ≡ ok r
  unfolding make_record
  make_record_of r v = rw ((check_locator_iff r.counterchain_locator r.terms).1 v.on_chain, v.spk)

  make_record-IsWellFormed :
      (r r' : SwapRecord B E) → make_record r ≡ ok r' → IsWellFormed r × (r' ≡ r)
  unfolding make_record
  make_record-IsWellFormed r r' h =
      elim (Result-cases (check_locator r.counterchain_locator r.terms)) [
        | inr (e, bad) ↦ absurd (cc (h, bad))
        | inl (tt, fits) ↦ elim (Result-cases (check_spk r.radiant_covenant_spk_hex)) [
          | inr (e, bad) ↦ absurd (cc (h, fits, bad))
          | inl (tt, hex) ↦ (
            record {
              on_chain = (check_locator_iff r.counterchain_locator r.terms).0 fits;
              spk = hex;
            },
            cc (h, fits, hex),
          )
        ]
      ]

  -- A record is accepted exactly when its locator is on the counter chain of its terms and its
  -- covenant script, where there is one, is hex text; it is accepted as it was given.
  pub make_record_iff :
      (r r' : SwapRecord B E) → (make_record r ≡ ok r') ↔ (IsWellFormed r × (r' ≡ r))
  make_record_iff r r' = (make_record-IsWellFormed r r', λ k. rw (make_record_of r k.0, k.1))

  -- The updates of a well-formed record: a change of state always succeeds and changes the state
  -- alone; a counter-leg locator is attached exactly when it is on the counter chain of the terms; a
  -- covenant is attached exactly when its script is hex text. Each result is well formed again.
  pub updates_lem :
      (r : SwapRecord B E)
      → IsWellFormed r
      → ((s : SwapState) → with_state s r ≡ ok (record r { state = s }))
        × ((l : Locator B E) (r' : SwapRecord B E)
            → (with_counter_lock l r ≡ ok r')
              ↔ (IsOnChain l r.terms × (r' ≡ record r { counterchain_locator = l })))
        × ((outpoint spk : List ℕ) (r' : SwapRecord B E)
            → (with_radiant_lock outpoint spk r ≡ ok r') ↔ (
                (check_spk (some spk) ≡ ok tt)
                × (r' ≡ record r {
                  radiant_covenant_outpoint = some outpoint;
                  radiant_covenant_spk_hex = some spk;
                })))
  unfolding with_state with_counter_lock with_radiant_lock
  updates_lem r v = (
    λ s. make_record_of _ (record { on_chain = v.on_chain; spk = v.spk }),
    λ l r'.
        let both = make_record_iff (record r { counterchain_locator = l }) r' in
        (
          λ h. ((both.0 h).0.on_chain, (both.0 h).1),
          λ k. both.1 (record { on_chain = k.0; spk = v.spk }, k.1),
        ),
    λ outpoint spk r'.
        let both =
          make_record_iff
            (record r {
              radiant_covenant_outpoint = some outpoint;
              radiant_covenant_spk_hex = some spk;
            })
            r' in
        (
          λ h. ((both.0 h).0.spk, (both.0 h).1),
          λ k. both.1 (record { on_chain = v.on_chain; spk = k.0 }, k.1),
        ),
  )
