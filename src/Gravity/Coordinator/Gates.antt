-- ===== src/Gravity/Coordinator/Gates.antt =====
-- src/pyrxd/gravity/ref_authenticity.py and the gates of `swap_coordinator.py`: what the taker checks
-- before it funds the counter leg, and the clock of an ETH swap once the covenant is locked.
use pyrxd.Common.{
  ℕ, not, ◌||◌, bytes_eq, length, ltb, ◌==◌, if◌then◌else◌, List, Option, none, some, Result, ok,
  err, ◌>>=◌, ◌>>◌, refuse, guard, map_err,
}
use pyrxd.Gravity.CrossClock.{CrossClockMargin, assert_covenant_confirms_before_eth_deadline}
use pyrxd.Gravity.Margin.{MarginPolicy, assert_timelock_margin}
use pyrxd.Gravity.Terms.{NegotiatedTerms}
use pyrxd.Gravity.Coordinator.{
  Raised, ResolvedRef, Env, RefError, unknown_variant, ref_on_rxd, ref_missing, indexer_failed,
  no_token, outpoint_differs, no_marker, too_shallow, OrderError, clock_missing,
  eth_timeout_missing, margin_missing, margin, cross_clock, GateRefusal, ref_not_authentic,
  no_resolver, credential_unknown, not_the_recipient, credential_failed, hashlock_reused,
  store_unavailable, margin_failed, spk_not_derived, spk_differs, has,
}
use Prim.Native.String.{String}
use text.Mathlib.Text.{◌==◌ as str_eq}

-- A missing value is an exception.
unfoldable pub require {ℓ} : {E : Type 0} {A : Type ℓ} → Option A → E → Result E A
require none e = err e
require (some a) e = ok a

-- `try: … except Exception: e`.
unfoldable pub or_fail {ℓ} : {E : Type 0} {A : Type ℓ} → Result Raised A → E → Result E A
or_fail (ok a) e = ok a
or_fail (err r) e = err e

-- The bindings of `verify_ref_authenticity` on what the indexer resolved.
unfoldable pub check_resolved : List ℕ → ℕ → ResolvedRef → Result RefError (Unit {0})
check_resolved ref min_confirmations resolved = do
  guard (bytes_eq resolved.genesis_outpoint ref) outpoint_differs
  guard resolved.has_gly_marker no_marker
  refuse (ltb resolved.confirmations min_confirmations) too_shallow

-- `verify_ref_authenticity` without an expected payload hash, as the coordinator calls it.
unfoldable pub verify_ref_authenticity :
    (List ℕ → Result Raised (Option ResolvedRef)) → List ℕ → String → ℕ → Result RefError (Unit {0})
unfolding check_resolved require or_fail
verify_ref_authenticity resolve_ref genesis_ref variant min_confirmations = do
  guard (str_eq variant "rxd" || str_eq variant "ft" || str_eq variant "nft") unknown_variant
  if str_eq variant "rxd" then refuse (not (length genesis_ref == 0)) ref_on_rxd else (do
    refuse (length genesis_ref == 0) ref_missing
    found ← or_fail (resolve_ref genesis_ref) indexer_failed
    resolved ← require found no_token
    check_resolved genesis_ref min_confirmations resolved)

-- The clock of an ETH swap: the covenant confirms within `max_wait` of `now`.
unfoldable pub eth_order :
    MarginPolicy → NegotiatedTerms → ℕ → CrossClockMargin → ℕ → ℕ → Result OrderError (Unit {0})
eth_order policy terms now m timeout max_wait = map_err cross_clock (
    assert_covenant_confirms_before_eth_deadline now timeout m terms.t_rxd
      policy.rxd_block_interval_s max_wait)

-- `_assert_eth_timelock_ordering`.
unfoldable pub assert_eth_timelock_ordering :
    MarginPolicy → NegotiatedTerms → Option ℕ → Result OrderError (Unit {0})
unfolding require
assert_eth_timelock_ordering policy terms now_unix_s = do
  now ← require now_unix_s clock_missing
  timeout ← require terms.eth_timeout_unix_s eth_timeout_missing
  m ← require policy.cross_clock_margin margin_missing
  max_wait ← require policy.max_covenant_confirm_wait_s margin_missing
  eth_order policy terms now m timeout max_wait

-- `_assert_eth_lock_timing_still_safe`: the covenant is confirmed now.
unfoldable pub assert_eth_lock_timing_still_safe :
    MarginPolicy → NegotiatedTerms → Option ℕ → Result OrderError (Unit {0})
unfolding require
assert_eth_lock_timing_still_safe policy terms now_unix_s = do
  now ← require now_unix_s clock_missing
  timeout ← require terms.eth_timeout_unix_s eth_timeout_missing
  m ← require policy.cross_clock_margin margin_missing
  eth_order policy terms now m timeout 0

-- The ordering check of the gate, on the counter chain of the terms.
unfoldable pub assert_ordering :
    MarginPolicy → NegotiatedTerms → Option ℕ → Result OrderError (Unit {0})
assert_ordering policy terms now_unix_s =
    if str_eq terms.counter_chain "btc"
    then map_err margin (assert_timelock_margin terms.t_btc terms.t_rxd policy)
    else assert_eth_timelock_ordering policy terms now_unix_s

module _ {B E : Type 0} (env : Env B E) where
  -- The binding of a credential to the payout of the taker, where the terms name one.
  unfoldable pub check_credential : NegotiatedTerms → Result GateRefusal (Unit {0})
  unfolding require or_fail
  check_credential terms = if length terms.credential_ref == 0 then ok tt else (do
    resolve ← require env.resolve_credential no_resolver
    found ←
        or_fail
          (resolve terms.credential_ref env.config.min_credential_confirmations terms.asset_variant
            terms.genesis_ref)
          credential_failed
    payout ← require found credential_unknown
    guard (bytes_eq payout terms.taker_dest_hash) not_the_recipient)

  -- `seen_store.has_seen`, which raises on a hashlock that has not 32 bytes.
  unfoldable pub check_fresh : List (List ℕ) → List ℕ → Result GateRefusal (Unit {0})
  check_fresh seen h = do
    refuse (env.store_down || not (length h == 32)) store_unavailable
    refuse (has seen h) hashlock_reused

  -- `pre_btc_lock_check`; `err` is a gate that is not ok.
  unfoldable pub pre_btc_lock_check :
      List (List ℕ) → NegotiatedTerms → Option ℕ → Result GateRefusal (Unit {0})
  unfolding check_credential check_fresh or_fail
  pre_btc_lock_check seen terms now_unix_s = do
    map_err ref_not_authentic (
        verify_ref_authenticity env.resolve_ref terms.genesis_ref terms.asset_variant
          env.config.min_ref_confirmations)
    check_credential terms
    check_fresh seen terms.hashlock
    map_err margin_failed (assert_ordering env.config.margin_policy terms now_unix_s)
    expected ← or_fail (env.derive_funding_scriptpubkey terms) spk_not_derived
    promised ← or_fail (env.promised_funding_scriptpubkey terms) spk_not_derived
    guard (bytes_eq expected promised) spk_differs
