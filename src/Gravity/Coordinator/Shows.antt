-- ===== src/Gravity/Coordinator/Shows.antt =====
-- What a claim of the maker must show before the taker acts on it, without the order of the code's checks.
pub mod Passes
use pyrxd.Common.{
  ℕ, ◌≤◌, ◌≡◌, ◌↔◌, ◌⊎◌, refl, sym, ap, ◌∙◌, arith, inl, inr, true, false, bytes_eq, bytes_eq_iff,
  List, [], ◌∷◌, ◌++◌, none, ok, guard, map_err, Bool-cases, Result-cases, >>=-eq-ok, >>-eq-ok,
  map_err-eq-ok,
}
use pyrxd.Gravity.Watch.Decide.Sound.{from_btc_depth-final}
use pyrxd.Gravity.Finality.{final, CounterClaimFinality, from_btc_depth}
use pyrxd.Gravity.Margin.{safe, blocks_of}
use pyrxd.Gravity.Margin.Gate.{HasRoom, assess_claim_finality-safe_iff}
use pyrxd.Gravity.Record.{Locator, no_locator, btc_locator, eth_locator, SwapRecord}
use pyrxd.Gravity.Coordinator.{Env, raw_tx, artifacts, raised, wrong_preimage, gate, has}
use pyrxd.Gravity.Coordinator.Provenance.{btc_input_outpoints_from_raw}
use pyrxd.Gravity.Coordinator.Secrets.{
  assert_claim_tx_spends_our_htlc, eth_locator_of, btc_secret, eth_secret, btc_finality,
  eth_finality,
}
use pyrxd.Gravity.Coordinator.Opens.{btc_secret-opens, eth_secret-opens}
use pyrxd.Gravity.Coordinator.Parts.{is_btc, secret_of, finality_of}

module _ {B E : Type 0} (sha256 : List ℕ → List ℕ) (env : Env B E) (r : SwapRecord B E)
    (claim : List ℕ) where
  -- The transaction spends the funding on the record.
  pub record SpendsOurs : Type 0 where
    pub funding : B
    pub on_record : r.counterchain_locator ≡ btc_locator funding
    pub before : List (List ℕ)
    pub after : List (List ℕ)
    pub spent :
        btc_input_outpoints_from_raw claim ≡ ok (before ++ (env.prevout_bytes funding ∷ after))

  module _ (p : List ℕ) (now lock : ℕ) where
    -- On a BTC swap: a claim of our funding that reveals the secret, buried by the depth of the policy.
    pub record ShowsBtc : Type 0 where
      pub btc : is_btc r.terms ≡ true
      pub scraped : env.scrape_secret (raw_tx claim) r.terms.hashlock ≡ ok p
      pub opens : sha256 p ≡ r.terms.hashlock
      pub ours : SpendsOurs
      pub confirmations : ℕ
      pub depth : ℕ
      pub read : env.confirmations_of_claim claim ≡ ok confirmations
      pub required :
          blocks_of env.config.margin_policy env.config.margin_policy.btc_claim_reorg_depth
          ≡ ok depth
      pub deep : depth ≤ confirmations
      pub room :
          HasRoom
            (from_btc_depth confirmations depth)
            now
            lock
            r.terms.t_rxd
            env.config.margin_policy
            none

    -- On an ETH swap: a claim that our contract confirms to have revealed the secret, and that is final.
    pub record ShowsEth : Type 0 where
      pub eth : is_btc r.terms ≡ false
      pub contract : E
      pub on_record : r.counterchain_locator ≡ eth_locator contract
      pub blobs : List (List ℕ)
      pub fetched : env.fetch_claim_artifacts claim ≡ ok blobs
      pub scraped : env.scrape_secret (artifacts blobs) r.terms.hashlock ≡ ok p
      pub opens : sha256 p ≡ r.terms.hashlock
      pub ours : env.assert_claim_provenance claim (env.contract_address contract) p ≡ ok tt
      pub verdict : CounterClaimFinality
      pub read : env.claim_finality_verdict claim ≡ ok verdict
      pub is_final : verdict.state ≡ final
      pub room : HasRoom verdict now lock r.terms.t_rxd env.config.margin_policy none
