-- ===== src/Gravity/Machine.antt =====
-- src/pyrxd/gravity/swap_state.py: the states, the events, the transition table and its queries.
pub mod Advance
pub mod Traces
use pyrxd.Common.{
  ℕ, ◌≡◌, refl, Bool, true, false, ◌&&◌, ◌||◌, List, [], ◌∷◌, ◌==◌, if◌then◌else◌, Result, ok, err,
}

-- `SwapState`.
pub data SwapState : Type 0 where
  negotiated btc_locked both_locked secret_revealed completed mutual_refund : SwapState
  params_mismatch maker_stalls asset_vulnerable one_sided_loss_taker aborted : SwapState
  asset_refunded_taker_acts : SwapState

-- `SwapEvent`.
pub data SwapEvent : Type 0 where
  taker_funds_btc taker_never_funds maker_locks_asset maker_locks_wrong_params : SwapEvent
  maker_never_locks_btc_timeout taker_refunds_btc maker_claims_btc_reveals_p : SwapEvent
  maker_stall_detected taker_refunds_asset_proactively both_timeouts_elapse : SwapEvent
  taker_scrapes_p_claims_asset taker_offline_or_pinned maker_refunds_asset_csv : SwapEvent

-- An enum member is told from the others by its place in the class.
abbrev state_code : SwapState → ℕ
state_code negotiated = 0
state_code btc_locked = 1
state_code both_locked = 2
state_code secret_revealed = 3
state_code completed = 4
state_code mutual_refund = 5
state_code params_mismatch = 6
state_code maker_stalls = 7
state_code asset_vulnerable = 8
state_code one_sided_loss_taker = 9
state_code aborted = 10
state_code asset_refunded_taker_acts = 11

abbrev event_code : SwapEvent → ℕ
event_code taker_funds_btc = 0
event_code taker_never_funds = 1
event_code maker_locks_asset = 2
event_code maker_locks_wrong_params = 3
event_code maker_never_locks_btc_timeout = 4
event_code taker_refunds_btc = 5
event_code maker_claims_btc_reveals_p = 6
event_code maker_stall_detected = 7
event_code taker_refunds_asset_proactively = 8
event_code both_timeouts_elapse = 9
event_code taker_scrapes_p_claims_asset = 10
event_code taker_offline_or_pinned = 11
event_code maker_refunds_asset_csv = 12

abbrev pub state_eq : SwapState → SwapState → Bool
state_eq s t = state_code s == state_code t

abbrev pub event_eq : SwapEvent → SwapEvent → Bool
event_eq d e = event_code d == event_code e

abbrev pub contains : List SwapState → SwapState → Bool
contains [] s = false
contains (t ∷ ts) s = state_eq t s || contains ts s

-- `TERMINAL_STATES`.
abbrev pub terminal_states : List SwapState
terminal_states =
    completed ∷ mutual_refund ∷ aborted ∷ asset_refunded_taker_acts ∷ one_sided_loss_taker ∷ []

abbrev pub TableRow : Type 0
TableRow = SwapState × SwapEvent × SwapState

-- `_TRANSITION_TABLE`.
abbrev pub transition_table : List TableRow
transition_table =
    (negotiated, taker_funds_btc, btc_locked)
    ∷ (negotiated, taker_never_funds, aborted)
    ∷ (btc_locked, maker_locks_asset, both_locked)
    ∷ (btc_locked, maker_never_locks_btc_timeout, aborted)
    ∷ (btc_locked, maker_locks_wrong_params, params_mismatch)
    ∷ (params_mismatch, taker_refunds_btc, aborted)
    ∷ (both_locked, maker_claims_btc_reveals_p, secret_revealed)
    ∷ (both_locked, maker_stall_detected, maker_stalls)
    ∷ (both_locked, both_timeouts_elapse, mutual_refund)
    ∷ (maker_stalls, taker_refunds_asset_proactively, asset_refunded_taker_acts)
    ∷ (secret_revealed, taker_scrapes_p_claims_asset, completed)
    ∷ (secret_revealed, taker_offline_or_pinned, asset_vulnerable)
    ∷ (asset_vulnerable, maker_refunds_asset_csv, one_sided_loss_taker)
    ∷ (asset_vulnerable, taker_scrapes_p_claims_asset, completed)
    ∷ []

pub data MachineError : Type 0 where
  terminal_state : SwapState → SwapEvent → MachineError
  no_transition : SwapState → SwapEvent → MachineError

-- `is_terminal`.
unfoldable pub is_terminal : SwapState → Bool
is_terminal s = contains terminal_states s

-- `can_transition`: an edge of the table joins the two states, whatever its event.
pub can_transition_in : List TableRow → SwapState → SwapState → Bool
can_transition_in [] src dst = false
can_transition_in ((s, _, t) ∷ rest) src dst =
    state_eq s src && state_eq t dst || can_transition_in rest src dst

pub can_transition : SwapState → SwapState → Bool
unfolding can_transition_in
can_transition src dst = can_transition_in transition_table src dst

-- `allowed_targets`; the frozenset is a list in the table's order.
pub allowed_targets_in : List TableRow → SwapState → List SwapState
allowed_targets_in [] src = []
allowed_targets_in ((s, _, t) ∷ rest) src =
    let later = allowed_targets_in rest src in if state_eq s src then t ∷ later else later

pub allowed_targets : SwapState → List SwapState
unfolding allowed_targets_in
allowed_targets src = allowed_targets_in transition_table src

-- The `for` loop of `advance`.
pub find_edge : List TableRow → SwapState → SwapEvent → Result MachineError SwapState
find_edge [] state event = err (no_transition state event)
find_edge ((src, ev, dst) ∷ rest) state event =
    let later = find_edge rest state event in
    if state_eq src state && event_eq ev event then ok dst else later

-- `advance`.
unfoldable pub advance : SwapState → SwapEvent → Result MachineError SwapState
unfolding is_terminal find_edge
advance state event =
    if is_terminal state
    then err (terminal_state state event)
    else find_edge transition_table state event
