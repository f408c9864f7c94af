-- ===== src/Gravity/Coordinator/Moves.antt =====
-- The coordinator as a relation: the moves that a method may make on its state, each with the facts that
-- allow it. The relation does not mention the order of the code's statements.
use pyrxd.Common.{ℕ, ◌≡◌, ◌≢◌, ◌⊎◌, Bool, true, false, List, ◌∷◌, Option, some, Result, ok, err}
use pyrxd.Common.Hex.{to_hex}
use pyrxd.Gravity.Machine.{
  SwapState, negotiated, btc_locked, both_locked, secret_revealed, params_mismatch,
  asset_vulnerable, SwapEvent, maker_locks_wrong_params, taker_refunds_asset_proactively,
  taker_funds_btc, taker_never_funds, maker_locks_asset, maker_never_locks_btc_timeout,
  taker_refunds_btc, maker_claims_btc_reveals_p, maker_stall_detected, both_timeouts_elapse,
  taker_scrapes_p_claims_asset, taker_offline_or_pinned, maker_refunds_asset_csv, advance,
}
use pyrxd.Gravity.Margin.{safe, squeezed, taker_refund_window_open}
use pyrxd.Gravity.Terms.{NegotiatedTerms}
use pyrxd.Gravity.Record.{
  Locator, eth_locator, SwapRecord, with_state, with_counter_lock, with_radiant_lock,
}
use pyrxd.Gravity.Coordinator.{
  Raised, Call, call_fund, call_claim, call_refund, call_claim_asset, call_refund_asset, Env, has,
  World,
}
use pyrxd.Gravity.Coordinator.Gates.{pre_btc_lock_check, assert_eth_lock_timing_still_safe}
use pyrxd.Gravity.Coordinator.Parts.{is_btc, is_locator, secret_of, finality_of}

module _ {B E : Type 0} (sha256 : List ℕ → List ℕ) (env : Env B E) where
  -- The maker is late, as `taker_refund_window_open` says at some heights, and was not seen to claim.
  abbrev pub IsStalled : SwapRecord B E → Type 0
  IsStalled r =
      (now : ℕ) × (lock : ℕ) × (taker_refund_window_open now lock r.terms.t_rxd
          env.config.maker_stall_safety_window_blocks false
          env.config.margin_policy.block_interval_s
        ≡ ok true)

  -- Why a call may be made on a record.
  abbrev pub Permits : SwapRecord B E → Call B E → Type 0
  Permits r (call_fund t) = ⊥
  Permits r (call_claim l p) =
      (r.state ≡ both_locked)
      × (l ≡ r.counterchain_locator)
      × (is_locator l ≡ true)
      × (sha256 p ≡ r.terms.hashlock)
  Permits r (call_refund l t) =
      ((r.state ≡ btc_locked) ⊎ (r.state ≡ params_mismatch) ⊎ (r.state ≡ both_locked))
      × (l ≡ r.counterchain_locator)
      × (is_locator l ≡ true)
      × (t ≡ r.terms.t_btc)
  Permits r (call_claim_asset r' p) =
      (r' ≡ r)
      × ((claim : List ℕ) × (secret_of sha256 env r claim ≡ ok p)
          × ((r.state ≡ asset_vulnerable)
              ⊎ ((r.state ≡ secret_revealed)
                  × (now : ℕ) × (lock : ℕ) × (finality_of env r claim now lock ≡ ok safe))))
  Permits r (call_refund_asset r') =
      (r' ≡ r)
      × (r.state ≡ both_locked)
      × (IsStalled r ⊎ (env.refund r.counterchain_locator r.terms.t_btc ≡ ok tt))

  -- The latest call.
  abbrev pub Called : World B E → Call B E → Type 0
  Called w c = (rest : List (Call B E)) × (w.calls ≡ c ∷ rest)

  -- The ETH funding was verified just now, at `finalized` if the policy is measured, and the clock holds.
  abbrev pub IsVerified : SwapRecord B E → Option ℕ → Type 0
  IsVerified r now =
      (verify : List ℕ → NegotiatedTerms → Bool → Result Raised E) × (old : E) × (e : E)
      × (env.verify_counterparty_funded ≡ some verify)
      × (verify (env.contract_address old) r.terms env.config.margin_policy.is_measured ≡ ok e)
      × (r.counterchain_locator ≡ eth_locator e)
      × (assert_eth_lock_timing_still_safe env.config.margin_policy r.terms now ≡ ok tt)

  -- The covenant on the record has the script that the terms ask for.
  abbrev pub IsExpected : SwapRecord B E → Type 0
  IsExpected r =
      (spk : List ℕ) × (r.radiant_covenant_spk_hex ≡ some (to_hex spk))
      × (env.expected_covenant_scriptpubkey r.terms ≡ ok spk)

  -- The covenant on the record does not have the script that the terms ask for, or it is not known which.
  abbrev pub IsUnexpected : SwapRecord B E → Type 0
  IsUnexpected r =
      (spk : List ℕ) × (r.radiant_covenant_spk_hex ≡ some (to_hex spk))
      × (((e : Raised) × (env.expected_covenant_scriptpubkey r.terms ≡ err e))
          ⊎ ((expected : List ℕ) × (env.expected_covenant_scriptpubkey r.terms ≡ ok expected)
              × (spk ≢ expected)))

  -- The leg returned the locator: the latest call funded it, or its funding was verified.
  abbrev pub Returned : World B E → Locator B E → Type 0
  Returned w l =
      ((t : NegotiatedTerms) × Called w (call_fund t) × (env.fund t ≡ ok l))
      ⊎ ((verify : List ℕ → NegotiatedTerms → Bool → Result Raised E) × (contract : List ℕ)
          × (pinned : Bool) × (e : E) × (env.verify_counterparty_funded ≡ some verify)
          × (verify contract w.current.terms pinned ≡ ok e)
          × (l ≡ eth_locator e))

  -- Why an event may advance the record.
  abbrev pub Allows : World B E → SwapEvent → Type 0
  Allows w taker_funds_btc =
      (t : NegotiatedTerms) × Called w (call_fund t)
      × (env.fund t ≡ ok w.current.counterchain_locator)
      × (is_locator w.current.counterchain_locator ≡ true)
      × (env.locked_amount w.current.counterchain_locator ≡ ok t.value_amount)
  Allows w maker_locks_asset =
      IsExpected w.current
      × (is_btc w.current.terms ≡ false → (now : Option ℕ) × IsVerified w.current now)
  Allows w maker_claims_btc_reveals_p =
      (p : List ℕ) × Called w (call_claim w.current.counterchain_locator p)
      × (env.claim w.current.counterchain_locator p ≡ ok tt)
  Allows w taker_scrapes_p_claims_asset =
      (p : List ℕ) × Called w (call_claim_asset w.current p) × (env.claim_asset w.current p ≡ ok tt)
  Allows w taker_offline_or_pinned =
      (claim : List ℕ) × (now : ℕ) × (lock : ℕ) × (finality_of env w.current claim now lock
        ≡ ok squeezed)
  Allows w taker_refunds_btc =
      env.refund w.current.counterchain_locator w.current.terms.t_btc ≡ ok tt
  Allows w maker_never_locks_btc_timeout =
      env.refund w.current.counterchain_locator w.current.terms.t_btc ≡ ok tt
  Allows w both_timeouts_elapse =
      (env.refund w.current.counterchain_locator w.current.terms.t_btc ≡ ok tt)
      × (env.refund_asset w.current ≡ ok tt)
  Allows w maker_locks_wrong_params = IsUnexpected w.current
  Allows w maker_stall_detected = IsStalled w.current × (env.refund_asset w.current ≡ ok tt)
  Allows w taker_refunds_asset_proactively =
      (r : SwapRecord B E) × Called w (call_refund_asset r)
      × IsStalled r
      × (env.refund_asset r ≡ ok tt)
      × (w.current ≡ record r { state = w.current.state })
  Allows w taker_never_funds = ⊥
  Allows w maker_refunds_asset_csv = ⊥

  pub data Move : World B E → World B E → Type 0 where
    persisted : (w : World B E) → Move w (record w { durable = w.current ∷ w.durable })
    -- A hashlock is reserved and the leg is called, after the gate.
    funded :
        (w : World B E) (t : NegotiatedTerms) (now : Option ℕ)
        → w.current.state ≡ negotiated
        → pre_btc_lock_check env w.seen t now ≡ ok tt
        → has w.seen t.hashlock ≡ false
        → Move w (record w { seen = t.hashlock ∷ w.seen; calls = call_fund t ∷ w.calls })
    -- A locator that the leg funded or verified.
    located :
        (w : World B E) (l : Locator B E) (r : SwapRecord B E)
        → with_counter_lock l w.current ≡ ok r
        → is_locator l ≡ true
        → Returned w l
        → Move w (record w { current = r })
    observed :
        (w : World B E) (outpoint spk : List ℕ) (r : SwapRecord B E)
        → w.current.state ≡ btc_locked
        → with_radiant_lock outpoint spk w.current ≡ ok r
        → Move w (record w { current = r })
    called :
        (w : World B E) (c : Call B E)
        → Permits w.current c
        → Move w (record w { calls = c ∷ w.calls })
    advanced :
        (w : World B E) (e : SwapEvent) (s : SwapState) (r : SwapRecord B E)
        → advance w.current.state e ≡ ok s
        → with_state s w.current ≡ ok r
        → Allows w e
        → Move w (record w { current = r })

  pub data Moves (w : World B E) : World B E → Type 0 where
    stay : Moves w w
    next : {v u : World B E} → Moves w v → Move v u → Moves w u

  pub Moves-trans : {u v w : World B E} → Moves u v → Moves v w → Moves u w
  Moves-trans m stay = m
  Moves-trans m (next n s) = next (Moves-trans m n) s
