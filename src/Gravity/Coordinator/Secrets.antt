-- ===== src/Gravity/Coordinator/Secrets.antt =====
-- src/pyrxd/gravity/swap_coordinator.py: the checks on a claim of the maker, before the taker acts on it:
-- the secret, the provenance of the claim, and its finality.
use pyrxd.Common.{ℕ, bytes_eq, List, none, Result, ok, err, ◌>>=◌, ◌>>◌, guard, map_err}
use pyrxd.Gravity.Finality.{from_btc_depth}
use pyrxd.Gravity.Margin.{ClaimFinality, blocks_of, assess_claim_finality}
use pyrxd.Gravity.Record.{Locator, no_locator, btc_locator, eth_locator, SwapRecord}
use pyrxd.Gravity.Coordinator.{
  other_error, raw_tx, artifacts, Env, CoordError, never_verified, no_locator_on_record,
  wrong_preimage, other_tx, unparsable_tx, gate, raised, has,
}
use pyrxd.Gravity.Coordinator.Provenance.{btc_input_outpoints_from_raw}

module _ {B E : Type 0} where
  eth_of : Locator B E → Result CoordError E
  eth_of (eth_locator e) = ok e
  eth_of _ = err never_verified

  -- `isinstance(locator, EthHtlcLocator)`.
  unfoldable pub eth_locator_of : SwapRecord B E → Result CoordError E
  unfolding eth_of
  eth_locator_of r = eth_of r.counterchain_locator

module _ {B E : Type 0} (sha256 : List ℕ → List ℕ) (env : Env B E) (r : SwapRecord B E) where
  -- The outpoint of the locator, to be compared with those that the transaction spends.
  spends : Locator B E → List ℕ → Result CoordError (Unit {0})
  spends no_locator tx = err no_locator_on_record
  spends (eth_locator e) tx = err (raised other_error)
  spends (btc_locator b) tx = do
    prevouts ← map_err unparsable_tx (btc_input_outpoints_from_raw tx)
    guard (has prevouts (env.prevout_bytes b)) other_tx

  -- `_assert_claim_tx_spends_our_htlc`.
  unfoldable pub assert_claim_tx_spends_our_htlc : List ℕ → Result CoordError (Unit {0})
  unfolding spends
  assert_claim_tx_spends_our_htlc tx = spends r.counterchain_locator tx

  -- The secret of a BTC claim: scraped, hashed again, and from a claim of our own funding.
  unfoldable pub btc_secret : List ℕ → Result CoordError (List ℕ)
  btc_secret tx = do
    p ← map_err raised (env.scrape_secret (raw_tx tx) r.terms.hashlock)
    guard (bytes_eq (sha256 p) r.terms.hashlock) wrong_preimage
    assert_claim_tx_spends_our_htlc tx
    ok p

  -- The secret of an ETH claim: scraped, hashed again, and revealed by our own contract.
  unfoldable pub eth_secret : List ℕ → Result CoordError (List ℕ)
  eth_secret claim_tx_hash = do
    locator ← eth_locator_of r
    blobs ← map_err raised (env.fetch_claim_artifacts claim_tx_hash)
    p ← map_err raised (env.scrape_secret (artifacts blobs) r.terms.hashlock)
    guard (bytes_eq (sha256 p) r.terms.hashlock) wrong_preimage
    map_err raised (env.assert_claim_provenance claim_tx_hash (env.contract_address locator) p)
    ok p

module _ {B E : Type 0} (env : Env B E) (r : SwapRecord B E) where
  -- The reorg gate on the depth of a BTC claim.
  unfoldable pub btc_finality : List ℕ → ℕ → ℕ → Result CoordError ClaimFinality
  btc_finality tx now_rxd_height asset_locked_at_height = do
    btc_confs ← map_err raised (env.confirmations_of_claim tx)
    let policy = env.config.margin_policy
    required_depth ← map_err gate (blocks_of policy policy.btc_claim_reorg_depth)
    map_err gate (
        assess_claim_finality (from_btc_depth btc_confs required_depth) now_rxd_height
          asset_locked_at_height r.terms.t_rxd policy none)

  -- The reorg gate on the finalized checkpoint of an ETH claim.
  unfoldable pub eth_finality : List ℕ → ℕ → ℕ → Result CoordError ClaimFinality
  eth_finality claim_tx_hash now_rxd_height asset_locked_at_height = do
    verdict ← map_err raised (env.claim_finality_verdict claim_tx_hash)
    map_err gate (
        assess_claim_finality verdict now_rxd_height asset_locked_at_height r.terms.t_rxd
          env.config.margin_policy none)
