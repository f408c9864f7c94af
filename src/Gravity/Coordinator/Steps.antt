-- ===== src/Gravity/Coordinator/Steps.antt =====
-- src/pyrxd/gravity/swap_coordinator.py: the methods of `SwapCoordinator` that advance the swap.
use pyrxd.Common.{
  ℕ, Bool, false, not, ◌||◌, bytes_eq, ◌==◌, if◌then◌else◌, List, Option, Result, ok, err, map_err,
}
use pyrxd.Common.Hex.{to_hex}
use pyrxd.Gravity.Machine.{
  negotiated, btc_locked, both_locked, secret_revealed, params_mismatch, asset_vulnerable,
  taker_funds_btc, maker_locks_asset, maker_locks_wrong_params, maker_never_locks_btc_timeout,
  taker_refunds_btc, maker_claims_btc_reveals_p, maker_stall_detected,
  taker_refunds_asset_proactively, both_timeouts_elapse, taker_scrapes_p_claims_asset,
  taker_offline_or_pinned, state_eq,
}
use pyrxd.Gravity.Margin.{ClaimFinality, safe, wait, squeezed, taker_refund_window_open}
use pyrxd.Gravity.Terms.{NegotiatedTerms}
use pyrxd.Gravity.Record.{Locator, eth_locator, SwapRecord, with_counter_lock, with_radiant_lock}
use pyrxd.Gravity.Coordinator.{
  Raised, call_fund, call_claim, call_refund, call_claim_asset, call_refund_asset, Env, CoordError,
  wrong_state, gate_refused, already_reserved, not_a_locator, wrong_amount, spk_not_recomputed,
  no_verifier, not_eth, wrong_preimage, order, gate, raised, Action, ◌>>=◌, ◌>>◌, lift, raise_if,
  get_record, get_seen, put_record, invoke, advance_by, persist_record, reserve,
}
use pyrxd.Gravity.Coordinator.Gates.{require, pre_btc_lock_check, assert_eth_lock_timing_still_safe}
use pyrxd.Gravity.Coordinator.Secrets.{eth_locator_of}
use pyrxd.Gravity.Coordinator.Parts.{
  is_btc, unverifiable, is_locator, only_from, locator_of, reraise, on_validation_error,
  finality_of, finish, secret_of,
}
use text.Mathlib.Text.{◌==◌ as str_eq}

-- The calls that advance a swap, with their arguments.
pub data Op : Type 0 where
  op_fund : NegotiatedTerms → Option ℕ → Op
  op_revalidate : List ℕ → Option ℕ → Op
  op_verify op_reveal op_race : List ℕ → Op
  op_scrape : List ℕ → ℕ → ℕ → Op
  op_stall : ℕ → ℕ → Bool → Op
  op_refund op_unwind : Op

module _ {B E : Type 0} (sha256 : List ℕ → List ℕ) (env : Env B E) where
  -- `taker_funds_btc` after `fund` returned a locator.
  unfoldable pub record_funding :
      NegotiatedTerms → SwapRecord B E → Locator B E → Action B E (SwapRecord B E)
  record_funding terms r locator = do
    raise_if (not (is_locator locator)) not_a_locator
    funded ← lift (map_err raised (env.locked_amount locator))
    raise_if (not (funded == terms.value_amount)) wrong_amount
    put_record (with_counter_lock locator r)
    finish env taker_funds_btc

  -- Its reservation of the hashlock.
  unfoldable pub reserve_hashlock : List ℕ → Action B E (Unit {0})
  reserve_hashlock h = do reserved ← reserve env h; raise_if (not reserved) already_reserved

  -- From the call of `fund` on.
  unfoldable pub fund_reserved : NegotiatedTerms → SwapRecord B E → Action B E (SwapRecord B E)
  unfolding record_funding
  fund_reserved terms r = do
    locator ← invoke (call_fund terms) (env.fund terms)
    record_funding terms r locator

  -- Up to the reservation.
  unfoldable pub check_funding : NegotiatedTerms → Option ℕ → Action B E (SwapRecord B E)
  check_funding terms now_unix_s = do
    r ← get_record
    only_from negotiated r
    seen ← get_seen
    lift (map_err gate_refused (pre_btc_lock_check env seen terms now_unix_s))
    persist_record env
    lift (ok r)

  -- `taker_funds_btc`, without a pause.
  unfoldable pub taker_funds : NegotiatedTerms → Option ℕ → Action B E (SwapRecord B E)
  unfolding fund_reserved
  taker_funds terms now_unix_s = do
    r ← get_record
    only_from negotiated r
    seen ← get_seen
    lift (map_err gate_refused (pre_btc_lock_check env seen terms now_unix_s))
    persist_record env
    reserved ← reserve env terms.hashlock
    raise_if (not reserved) already_reserved
    fund_reserved terms r

  -- `_assert_eth_counter_funding_verified`, in its `try` and around it.
  unfoldable pub reverify :
      Option ℕ → E → (List ℕ → NegotiatedTerms → Bool → Result Raised E) → Action B E (Unit {0})
  reverify now_unix_s e verify = do
    r ← get_record
    reverified ← lift (
        map_err raised
          (verify (env.contract_address e) r.terms env.config.margin_policy.is_measured))
    put_record (with_counter_lock (eth_locator reverified) r)
    lift (
        map_err order
          (assert_eth_lock_timing_still_safe env.config.margin_policy r.terms now_unix_s))

  -- A missing locator or method is raised after a persist.
  unfoldable pub on_missing : {A : Type 0} → Result CoordError A → Action B E A
  unfolding reraise
  on_missing (ok a) w = (ok a, w)
  on_missing (err e) w = reraise e (persist_record env w)

  unfoldable pub assert_eth_counter_funding_verified : Option ℕ → Action B E (Unit {0})
  unfolding reverify
  assert_eth_counter_funding_verified now_unix_s = do
    r ← get_record
    e ← on_missing (eth_locator_of r)
    verify ← on_missing (require env.verify_counterparty_funded no_verifier)
    on_validation_error (reverify now_unix_s e verify) (persist_record env)

  -- `post_asset_lock_revalidate`, from the answer on the expected script on.
  unfoldable pub lock_seen :
      List ℕ → Option ℕ → Result Raised (List ℕ) → Action B E (SwapRecord B E)
  lock_seen observed now_unix_s (err e) = do
    r ← get_record
    put_record (with_radiant_lock unverifiable (to_hex observed) r)
    advance_by maker_locks_wrong_params
    persist_record env
    lift (err spk_not_recomputed)
  lock_seen observed now_unix_s (ok expected) = do
    r ← get_record
    outpoint ← lift (map_err raised (env.covenant_outpoint r.terms))
    put_record (with_radiant_lock outpoint (to_hex observed) r)
    if not (bytes_eq observed expected) then finish env maker_locks_wrong_params else (do
      if is_btc r.terms then lift (ok tt) else assert_eth_counter_funding_verified now_unix_s
      finish env maker_locks_asset)

  unfoldable pub post_asset_lock_revalidate : List ℕ → Option ℕ → Action B E (SwapRecord B E)
  unfolding lock_seen
  post_asset_lock_revalidate observed now_unix_s = do
    r ← get_record
    only_from btc_locked r
    lock_seen observed now_unix_s (env.expected_covenant_scriptpubkey r.terms)

  -- `maker_verify_counter_funding`; the read is not pinned to a block.
  unfoldable pub maker_verify_counter_funding : List ℕ → Action B E (SwapRecord B E)
  maker_verify_counter_funding contract = do
    r ← get_record
    raise_if (not (str_eq r.terms.counter_chain "eth")) not_eth
    verify ← lift (require env.verify_counterparty_funded no_verifier)
    locator ← lift (map_err raised (verify contract r.terms false))
    put_record (with_counter_lock (eth_locator locator) r)
    persist_record env
    get_record

  -- `maker_claims_btc`; wiping the secret from memory is not modelled.
  unfoldable pub maker_claims_btc : List ℕ → Action B E (SwapRecord B E)
  maker_claims_btc preimage = do
    r ← get_record
    only_from both_locked r
    locator_of r
    raise_if (not (bytes_eq (sha256 preimage) r.terms.hashlock)) wrong_preimage
    invoke (call_claim r.counterchain_locator preimage) (env.claim r.counterchain_locator preimage)
    finish env maker_claims_btc_reveals_p

  -- `claim_asset` with the secret, and the end of the swap.
  unfoldable pub claim_with : List ℕ → Action B E (SwapRecord B E)
  claim_with p = do
    r ← get_record
    invoke (call_claim_asset r p) (env.claim_asset r p)
    finish env taker_scrapes_p_claims_asset

  -- The three answers of the gate.
  unfoldable pub act_on : List ℕ → ClaimFinality → Action B E (SwapRecord B E)
  act_on p wait = get_record
  act_on p squeezed = finish env taker_offline_or_pinned
  act_on p safe = claim_with p

  -- `taker_scrape_and_claim_asset` and `_taker_scrape_and_claim_eth`.
  unfoldable pub taker_scrape_and_claim_asset : List ℕ → ℕ → ℕ → Action B E (SwapRecord B E)
  taker_scrape_and_claim_asset claim now_rxd_height asset_locked_at_height = do
    r ← get_record
    only_from secret_revealed r
    p ← lift (secret_of sha256 env r claim)
    finality ← lift (finality_of env r claim now_rxd_height asset_locked_at_height)
    act_on p finality

  -- `taker_claim_asset_from_vulnerable` and `_taker_claim_eth_from_vulnerable`.
  unfoldable pub taker_claim_asset_from_vulnerable : List ℕ → Action B E (SwapRecord B E)
  taker_claim_asset_from_vulnerable claim = do
    r ← get_record
    only_from asset_vulnerable r
    p ← lift (secret_of sha256 env r claim)
    claim_with p

  -- `maybe_refund_asset_on_maker_stall`.
  unfoldable pub maybe_refund_asset_on_maker_stall : ℕ → ℕ → Bool → Action B E (SwapRecord B E)
  maybe_refund_asset_on_maker_stall now lock maker_has_claimed_btc = do
    r ← get_record
    only_from both_locked r
    trigger ← lift (
        map_err gate (
          taker_refund_window_open now lock r.terms.t_rxd
            env.config.maker_stall_safety_window_blocks maker_has_claimed_btc
            env.config.margin_policy.block_interval_s))
    if not trigger then get_record else (do
      invoke (call_refund_asset r) (env.refund_asset r)
      advance_by maker_stall_detected
      finish env taker_refunds_asset_proactively)

  -- `taker_refund_btc`.
  unfoldable pub taker_refund_btc : Action B E (SwapRecord B E)
  taker_refund_btc = do
    r ← get_record
    raise_if (not (state_eq r.state btc_locked || state_eq r.state params_mismatch))
        (wrong_state r.state)
    locator_of r
    invoke (call_refund r.counterchain_locator r.terms.t_btc)
        (env.refund r.counterchain_locator r.terms.t_btc)
    finish env
        (if state_eq r.state btc_locked then maker_never_locks_btc_timeout else taker_refunds_btc)

  -- `mutual_refund`.
  unfoldable pub refund_both : Action B E (SwapRecord B E)
  refund_both = do
    r ← get_record
    only_from both_locked r
    locator_of r
    invoke (call_refund r.counterchain_locator r.terms.t_btc)
        (env.refund r.counterchain_locator r.terms.t_btc)
    invoke (call_refund_asset r) (env.refund_asset r)
    finish env both_timeouts_elapse

  -- A call of one of the methods.
  unfoldable pub perform : Op → Action B E (SwapRecord B E)
  perform (op_fund terms now) = taker_funds terms now
  perform (op_revalidate observed now) = post_asset_lock_revalidate observed now
  perform (op_verify contract) = maker_verify_counter_funding contract
  perform (op_reveal preimage) = maker_claims_btc preimage
  perform (op_scrape claim now lock) = taker_scrape_and_claim_asset claim now lock
  perform (op_race claim) = taker_claim_asset_from_vulnerable claim
  perform (op_stall now lock claimed) = maybe_refund_asset_on_maker_stall now lock claimed
  perform op_refund = taker_refund_btc
  perform op_unwind = refund_both
