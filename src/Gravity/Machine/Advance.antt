-- ===== src/Gravity/Machine/Advance.antt =====
-- `advance` and the table's queries against the transition diagram, written as a relation.
use pyrxd.Common.{
  ◌≡◌, refl, ◌↔◌, true, List, [], ◌∷◌, ok, err, arith, Bool-cases, inl, inr, ap, ◌||◌,
}
use pyrxd.Gravity.Machine.{
  SwapState, negotiated, btc_locked, both_locked, secret_revealed, completed, mutual_refund,
  params_mismatch, maker_stalls, asset_vulnerable, one_sided_loss_taker, aborted,
  asset_refunded_taker_acts,
}
use pyrxd.Gravity.Machine.{
  SwapEvent, taker_funds_btc, taker_never_funds, maker_locks_asset, maker_locks_wrong_params,
  maker_never_locks_btc_timeout, taker_refunds_btc, maker_claims_btc_reveals_p,
  maker_stall_detected, taker_refunds_asset_proactively, both_timeouts_elapse,
  taker_scrapes_p_claims_asset, taker_offline_or_pinned, maker_refunds_asset_csv,
}
use pyrxd.Gravity.Machine.{
  state_eq, TableRow, transition_table, is_terminal, can_transition_in, can_transition,
  allowed_targets_in, allowed_targets, advance, contains, terminal_state,
}

-- The diagram of the module's design notes, edge by edge.
pub data Step : SwapState → SwapEvent → SwapState → Type 0 where
  fund : Step negotiated taker_funds_btc btc_locked
  walk_away : Step negotiated taker_never_funds aborted
  lock : Step btc_locked maker_locks_asset both_locked
  give_up : Step btc_locked maker_never_locks_btc_timeout aborted
  mismatch : Step btc_locked maker_locks_wrong_params params_mismatch
  recover : Step params_mismatch taker_refunds_btc aborted
  reveal : Step both_locked maker_claims_btc_reveals_p secret_revealed
  stall : Step both_locked maker_stall_detected maker_stalls
  unwind : Step both_locked both_timeouts_elapse mutual_refund
  reclaim : Step maker_stalls taker_refunds_asset_proactively asset_refunded_taker_acts
  claim : Step secret_revealed taker_scrapes_p_claims_asset completed
  miss : Step secret_revealed taker_offline_or_pinned asset_vulnerable
  lose : Step asset_vulnerable maker_refunds_asset_csv one_sided_loss_taker
  win_race : Step asset_vulnerable taker_scrapes_p_claims_asset completed

ruleset edges = (
  fund, walk_away, lock, give_up, mismatch, recover, reveal, stall, unwind, reclaim, claim, miss,
  lose, win_race,
)

advance_complete : {s t : SwapState} {e : SwapEvent} → Step s e t → advance s e ≡ ok t
unfolding advance
advance_complete fund = refl
advance_complete _ = refl

advance-sound : (s : SwapState) (e : SwapEvent) (t : SwapState) → advance s e ≡ ok t → Step s e t
unfolding advance
advance-sound s e t h = grind (arith, edges)

-- `advance` returns a state exactly when the diagram has that edge; so the next state is unique.
pub advance_iff :
    (s : SwapState) (e : SwapEvent) (t : SwapState) → (advance s e ≡ ok t) ↔ Step s e t
advance_iff s e t = (advance-sound s e t, advance_complete)

can_transition_complete : {s t : SwapState} {e : SwapEvent} → Step s e t → can_transition s t ≡ true
unfolding can_transition
can_transition_complete fund = refl
can_transition_complete _ = refl

can_transition-sound : (s t : SwapState) → can_transition s t ≡ true → (e : SwapEvent) × Step s e t
unfolding can_transition
can_transition-sound negotiated btc_locked h = (taker_funds_btc, fund)
can_transition-sound negotiated aborted h = (taker_never_funds, walk_away)
can_transition-sound btc_locked both_locked h = (maker_locks_asset, lock)
can_transition-sound btc_locked aborted h = (maker_never_locks_btc_timeout, give_up)
can_transition-sound btc_locked params_mismatch h = (maker_locks_wrong_params, mismatch)
can_transition-sound params_mismatch aborted h = (taker_refunds_btc, recover)
can_transition-sound both_locked secret_revealed h = (maker_claims_btc_reveals_p, reveal)
can_transition-sound both_locked maker_stalls h = (maker_stall_detected, stall)
can_transition-sound both_locked mutual_refund h = (both_timeouts_elapse, unwind)
can_transition-sound maker_stalls asset_refunded_taker_acts h =
    (taker_refunds_asset_proactively, reclaim)
can_transition-sound secret_revealed completed h = (taker_scrapes_p_claims_asset, claim)
can_transition-sound secret_revealed asset_vulnerable h = (taker_offline_or_pinned, miss)
can_transition-sound asset_vulnerable one_sided_loss_taker h = (maker_refunds_asset_csv, lose)
can_transition-sound asset_vulnerable completed h = (taker_scrapes_p_claims_asset, win_race)
can_transition-sound _ _ h = cc

-- `can_transition` answers True exactly when some event takes `advance` from the one state to the
-- other.
pub can_transition_iff :
    (s t : SwapState) → (can_transition s t ≡ true) ↔ ((e : SwapEvent) × (advance s e ≡ ok t))
can_transition_iff s t = (
  λ h. let (e, step) = can_transition-sound s t h in (e, advance_complete step),
  λ h. can_transition_complete (advance-sound s h.0 t h.1),
)

contains-allowed_targets_in :
    (table : List TableRow) (s t : SwapState)
    → contains (allowed_targets_in table s) t ≡ can_transition_in table s t
unfolding allowed_targets_in can_transition_in
contains-allowed_targets_in [] s t = refl
contains-allowed_targets_in ((u, e, v) ∷ rest) s t = elim (Bool-cases (state_eq u s)) [
  | inl same ↦ rw same (ap (λ b. state_eq v t || b) (contains-allowed_targets_in rest s t))
  | inr other ↦ rw other (contains-allowed_targets_in rest s t)
]

-- `allowed_targets` lists exactly the states that `can_transition` allows.
pub contains-allowed_targets :
    (s t : SwapState) → contains (allowed_targets s) t ≡ can_transition s t
unfolding allowed_targets can_transition
contains-allowed_targets = contains-allowed_targets_in transition_table

-- `is_terminal` holds exactly of the states that no edge leaves, and there `advance` refuses every
-- event as terminal; a state that is not terminal has an exit.
pub is_terminal_iff :
    (s : SwapState)
    → ((is_terminal s ≡ true) ↔ (allowed_targets s ≡ []))
      × (is_terminal s ≡ true → (e : SwapEvent) → advance s e ≡ err (terminal_state s e))
unfolding is_terminal allowed_targets advance
is_terminal_iff s = (ground arith, λ h e. rw h)
