-- ===== src/Gravity/Coordinator/Shows/Passes.antt =====
-- The checks of a claim pass exactly where it shows what it must.
use pyrxd.Common.{
  ℕ, ◌≤◌, ◌≡◌, ◌↔◌, ◌⊎◌, refl, sym, ap, ◌∙◌, arith, inl, inr, true, false, bytes_eq, bytes_eq_iff,
  List, [], ◌∷◌, ◌++◌, none, ok, guard, map_err, Bool-cases, Result-cases, >>=-eq-ok, >>-eq-ok,
  map_err-eq-ok,
}
use pyrxd.Gravity.Watch.Decide.Sound.{from_btc_depth-final}
use pyrxd.Gravity.Finality.{final, from_btc_depth}
use pyrxd.Gravity.Margin.{safe, blocks_of}
use pyrxd.Gravity.Margin.Gate.{assess_claim_finality-safe_iff}
use pyrxd.Gravity.Record.{Locator, no_locator, btc_locator, eth_locator, SwapRecord}
use pyrxd.Gravity.Coordinator.{Env, raw_tx, artifacts, raised, wrong_preimage, gate, has}
use pyrxd.Gravity.Coordinator.Provenance.{btc_input_outpoints_from_raw}
use pyrxd.Gravity.Coordinator.Secrets.{
  assert_claim_tx_spends_our_htlc, eth_locator_of, btc_secret, eth_secret, btc_finality,
  eth_finality,
}
use pyrxd.Gravity.Coordinator.Opens.{btc_secret-opens, eth_secret-opens}
use pyrxd.Gravity.Coordinator.Parts.{is_btc, secret_of, finality_of}
use pyrxd.Gravity.Coordinator.Shows.{SpendsOurs, ShowsBtc, ShowsEth}

has-split :
    (xs : List (List ℕ)) (x : List ℕ)
    → has xs x ≡ true
    → (before : List (List ℕ)) × (after : List (List ℕ)) × (xs ≡ before ++ (x ∷ after))
unfolding has
has-split [] x h = cc h
has-split (y ∷ ys) x h = elim (Bool-cases (bytes_eq y x)) [
  | inl same ↦ ([], ys, ap (λ z. z ∷ ys) ((bytes_eq_iff y x).0 same))
  | inr other ↦
      let (before, after, is) = has-split ys x (ground (arith, h, other)) in
      (y ∷ before, after, ap (λ zs. y ∷ zs) is)
]

has-append : (before after : List (List ℕ)) (x : List ℕ) → has (before ++ (x ∷ after)) x ≡ true
unfolding has
has-append [] after x = rw ((bytes_eq_iff x x).1 refl) refl
has-append (y ∷ before) after x = ground (arith, has-append before after x)

Locator-cases :
    {B E : Type 0} (l : Locator B E)
    → (l ≡ no_locator) ⊎ ((b : B) × (l ≡ btc_locator b)) ⊎ ((e : E) × (l ≡ eth_locator e))
Locator-cases no_locator = inl refl
Locator-cases (btc_locator b) = inr (inl (b, refl))
Locator-cases (eth_locator e) = inr (inr (e, refl))

final-from_btc_depth : (c depth : ℕ) → depth ≤ c → (from_btc_depth c depth).state ≡ final
unfolding from_btc_depth
final-from_btc_depth c depth h = ground arith

module _ {B E : Type 0} (sha256 : List ℕ → List ℕ) (env : Env B E) (r : SwapRecord B E)
    (claim : List ℕ) where
  asserts-SpendsOurs :
      assert_claim_tx_spends_our_htlc sha256 env r claim ≡ ok tt → SpendsOurs sha256 env r claim
  unfolding assert_claim_tx_spends_our_htlc
  asserts-SpendsOurs h = elim (Locator-cases r.counterchain_locator) [
    | inl none_there ↦ cc (rw none_there at h)
    | inr (inr (e, eth)) ↦ cc (rw eth at h)
    | inr (inl (b, btc)) ↦ elim (Result-cases (btc_input_outpoints_from_raw claim)) [
      | inr (e, bad) ↦ cc (rw (btc, bad) at h)
      | inl (xs, good) ↦ elim (Bool-cases (has xs (env.prevout_bytes b))) [
        | inr other ↦ cc (rw (btc, good, other) at h)
        | inl there ↦
            let (before, after, is) = has-split xs (env.prevout_bytes b) there in
            record {
              funding = b;
              on_record = btc;
              before = before;
              after = after;
              spent = good ∙ ap ok is;
            }
      ]
    ]
  ]

  SpendsOurs-asserts :
      SpendsOurs sha256 env r claim → assert_claim_tx_spends_our_htlc sha256 env r claim ≡ ok tt
  unfolding assert_claim_tx_spends_our_htlc
  SpendsOurs-asserts k =
      rw (k.on_record, k.spent, has-append k.before k.after (env.prevout_bytes k.funding)) refl

  eth_locator_of-eq-ok : (e : E) → eth_locator_of r ≡ ok e → r.counterchain_locator ≡ eth_locator e
  unfolding eth_locator_of
  eth_locator_of-eq-ok e h = elim (Locator-cases r.counterchain_locator) [
    | inl none_there ↦ cc (rw none_there at h)
    | inr (inl (b, btc)) ↦ cc (rw btc at h)
    | inr (inr (e', eth)) ↦ cc (eth, rw eth at h)
  ]

  module _ (p : List ℕ) (now lock : ℕ) where
    passes-ShowsBtc :
        is_btc r.terms ≡ true
        → btc_secret sha256 env r claim ≡ ok p
        → btc_finality env r claim now lock ≡ ok safe
        → ShowsBtc sha256 env r claim p now lock
    unfolding btc_secret btc_finality
    passes-ShowsBtc btc secret finality =
        let (p', found, h1) =
          >>=-eq-ok (map_err raised (env.scrape_secret (raw_tx claim) r.terms.hashlock)) _ secret in
        let (hashes, h2) =
          >>-eq-ok (guard (bytes_eq (sha256 p') r.terms.hashlock) wrong_preimage) _ h1 in
        let (spends, h3) = >>-eq-ok (assert_claim_tx_spends_our_htlc sha256 env r claim) _ h2 in
        let same : p' ≡ p = cc h3 in
        let (c, read, h4) =
          >>=-eq-ok (map_err raised (env.confirmations_of_claim claim)) _ finality in
        let (depth, required, h5) =
          >>=-eq-ok
            (map_err gate
              (blocks_of env.config.margin_policy env.config.margin_policy.btc_claim_reorg_depth))
            _ h4 in
        let (is_final, room) =
          (assess_claim_finality-safe_iff (from_btc_depth c depth) now lock r.terms.t_rxd
              env.config.margin_policy none).0
            (map_err-eq-ok gate _ h5) in
        record {
          btc = btc;
          scraped = map_err-eq-ok raised _ found ∙ ap ok same;
          opens = btc_secret-opens sha256 env r claim p secret;
          ours = asserts-SpendsOurs spends;
          confirmations = c;
          depth = depth;
          read = map_err-eq-ok raised _ read;
          required = map_err-eq-ok gate _ required;
          deep = from_btc_depth-final c depth is_final;
          room = room;
        }

    passes-ShowsEth :
        is_btc r.terms ≡ false
        → eth_secret sha256 env r claim ≡ ok p
        → eth_finality env r claim now lock ≡ ok safe
        → ShowsEth sha256 env r claim p now lock
    unfolding eth_secret eth_finality
    passes-ShowsEth eth secret finality =
        let (contract, located, h0) = >>=-eq-ok (eth_locator_of r) _ secret in
        let (blobs, fetched, h1) =
          >>=-eq-ok (map_err raised (env.fetch_claim_artifacts claim)) _ h0 in
        let (p', found, h2) =
          >>=-eq-ok (map_err raised (env.scrape_secret (artifacts blobs) r.terms.hashlock)) _ h1 in
        let (hashes, h3) =
          >>-eq-ok (guard (bytes_eq (sha256 p') r.terms.hashlock) wrong_preimage) _ h2 in
        let (ours, h4) =
          >>-eq-ok
            (map_err raised (env.assert_claim_provenance claim (env.contract_address contract) p'))
            _ h3 in
        let same : p' ≡ p = cc h4 in
        let (verdict, read, h5) =
          >>=-eq-ok (map_err raised (env.claim_finality_verdict claim)) _ finality in
        let (is_final, room) =
          (assess_claim_finality-safe_iff verdict now lock r.terms.t_rxd env.config.margin_policy
              none).0
            (map_err-eq-ok gate _ h5) in
        record {
          eth = eth;
          contract = contract;
          on_record = eth_locator_of-eq-ok contract located;
          blobs = blobs;
          fetched = map_err-eq-ok raised _ fetched;
          scraped = map_err-eq-ok raised _ found ∙ ap ok same;
          opens = eth_secret-opens sha256 env r claim p secret;
          ours =
              ap (env.assert_claim_provenance claim (env.contract_address contract)) (sym same)
              ∙ map_err-eq-ok raised _ ours;
          verdict = verdict;
          read = map_err-eq-ok raised _ read;
          is_final = is_final;
          room = room;
        }

    ShowsBtc-passes :
        (k : ShowsBtc sha256 env r claim p now lock)
        → (btc_secret sha256 env r claim ≡ ok p) × (btc_finality env r claim now lock ≡ ok safe)
    unfolding btc_secret btc_finality
    ShowsBtc-passes k = (
      rw
          (
            k.scraped,
            (bytes_eq_iff (sha256 p) r.terms.hashlock).1 k.opens,
            SpendsOurs-asserts k.ours,
          )
          refl,
      rw
          (
            k.read,
            k.required,
            (assess_claim_finality-safe_iff (from_btc_depth k.confirmations k.depth) now lock
                  r.terms.t_rxd env.config.margin_policy none).1
                (final-from_btc_depth k.confirmations k.depth k.deep, k.room),
          )
          refl,
    )

    ShowsEth-passes :
        (k : ShowsEth sha256 env r claim p now lock)
        → (eth_secret sha256 env r claim ≡ ok p) × (eth_finality env r claim now lock ≡ ok safe)
    unfolding eth_secret eth_finality eth_locator_of
    ShowsEth-passes k = (
      rw
          (
            k.on_record,
            k.fetched,
            k.scraped,
            (bytes_eq_iff (sha256 p) r.terms.hashlock).1 k.opens,
            k.ours,
          )
          refl,
      rw
          (
            k.read,
            (assess_claim_finality-safe_iff k.verdict now lock r.terms.t_rxd
                  env.config.margin_policy none).1
                (k.is_final, k.room),
          )
          refl,
    )

    -- The checks pass exactly on such a claim.
    pub passes_iff :
        ((secret_of sha256 env r claim ≡ ok p) × (finality_of env r claim now lock ≡ ok safe))
        ↔ (ShowsBtc sha256 env r claim p now lock ⊎ ShowsEth sha256 env r claim p now lock)
    unfolding secret_of finality_of
    passes_iff = (
      λ h. elim (Bool-cases (is_btc r.terms)) [
        | inl btc ↦ inl (passes-ShowsBtc btc (rw btc at h.0) (rw btc at h.1))
        | inr eth ↦ inr (passes-ShowsEth eth (rw eth at h.0) (rw eth at h.1))
      ],
      λ k. elim k [ inl b ↦ rw b.btc (ShowsBtc-passes b) | inr e ↦ rw e.eth (ShowsEth-passes e) ],
    )
