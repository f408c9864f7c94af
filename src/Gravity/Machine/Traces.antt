-- ===== src/Gravity/Machine/Traces.antt =====
-- What holds of every sequence of events that `advance` accepts.
use pyrxd.Common.{
  ℕ, ◌+◌, ◌≤◌, ◌<◌, ◌≡◌, refl, ◌↔◌, ap, Bool, true, false, List, [], ◌∷◌, ok, arith, ◌||◌, ◌∙◌, sym,
  Result, ◌>>=◌, >>=-eq-ok, length,
}
use pyrxd.Gravity.Machine.{
  SwapState, negotiated, btc_locked, both_locked, secret_revealed, completed, mutual_refund,
  params_mismatch, maker_stalls, asset_vulnerable, one_sided_loss_taker, aborted,
  asset_refunded_taker_acts,
}
use pyrxd.Gravity.Machine.{
  SwapEvent, taker_funds_btc, taker_never_funds, maker_locks_asset, maker_never_locks_btc_timeout,
  taker_refunds_btc, maker_claims_btc_reveals_p, taker_refunds_asset_proactively,
  both_timeouts_elapse, taker_scrapes_p_claims_asset, taker_offline_or_pinned,
  maker_refunds_asset_csv,
}
use pyrxd.Gravity.Machine.{MachineError, event_eq, is_terminal, advance}
use pyrxd.Gravity.Machine.Advance.{
  Step, fund, lock, recover, reveal, reclaim, miss, lose, advance_iff,
}

-- One `advance` after another, from the state `s`.
unfoldable pub run : SwapState → List SwapEvent → Result MachineError SwapState
run s [] = ok s
run s (e ∷ es) = advance s e >>= λ t. run t es

run-cons :
    (s : SwapState) (e : SwapEvent) (es : List SwapEvent) {t : SwapState}
    → run s (e ∷ es) ≡ ok t
    → (u : SwapState) × Step s e u × (run u es ≡ ok t)
unfolding run
run-cons s e es h =
    let (u, first, later) = >>=-eq-ok (advance s e) (λ u. run u es) h in
    (u, (advance_iff s e u).0 first, later)

-- How many steps a state can still make.
abbrev pub rank : SwapState → ℕ
rank negotiated = 5
rank btc_locked = 4
rank both_locked = 3
rank secret_revealed = 2
rank params_mismatch = 1
rank maker_stalls = 1
rank asset_vulnerable = 1
rank _ = 0

rank-Step : {s t : SwapState} {e : SwapEvent} → Step s e t → rank t < rank s
rank-Step fund = omega arith
rank-Step _ = omega arith

-- The machine stops: a run of accepted events from `s` to `t` has at most `rank s - rank t` events.
-- So no swap makes more than five steps, and no state is visited twice.
pub length-run :
    (s : SwapState) (es : List SwapEvent) (t : SwapState)
    → run s es ≡ ok t
    → length es + rank t ≤ rank s
length-run s [] t h = unfold run in ground arith
length-run s (e ∷ es) t h =
    let (u, step, later) = run-cons s e es h in
    omega (arith, rank-Step step, length-run u es t later)

-- A way out of each state.
abbrev way_out : SwapState → List SwapEvent
way_out negotiated = taker_never_funds ∷ []
way_out btc_locked = maker_never_locks_btc_timeout ∷ []
way_out both_locked = both_timeouts_elapse ∷ []
way_out secret_revealed = taker_scrapes_p_claims_asset ∷ []
way_out params_mismatch = taker_refunds_btc ∷ []
way_out maker_stalls = taker_refunds_asset_proactively ∷ []
way_out asset_vulnerable = taker_scrapes_p_claims_asset ∷ []
way_out _ = []

-- No state strands a swap: from every state some accepted events lead to a terminal state.
pub run-is_terminal :
    (s : SwapState)
    → (es : List SwapEvent) × (t : SwapState) × (run s es ≡ ok t) × (is_terminal t ≡ true)
unfolding run advance is_terminal
run-is_terminal negotiated = (way_out negotiated, aborted, refl, refl)
run-is_terminal btc_locked = (way_out btc_locked, aborted, refl, refl)
run-is_terminal both_locked = (way_out both_locked, mutual_refund, refl, refl)
run-is_terminal secret_revealed = (way_out secret_revealed, completed, refl, refl)
run-is_terminal params_mismatch = (way_out params_mismatch, aborted, refl, refl)
run-is_terminal maker_stalls = (way_out maker_stalls, asset_refunded_taker_acts, refl, refl)
run-is_terminal asset_vulnerable = (way_out asset_vulnerable, completed, refl, refl)
run-is_terminal s = ([], s, refl, refl)

stuck_run :
    (s : SwapState) (es : List SwapEvent) (t : SwapState) → rank s ≡ 0 → run s es ≡ ok t → s ≡ t
stuck_run s [] t z h = unfold run in ground arith
stuck_run s (e ∷ es) t z h = absurd (omega (arith, length-run s (e ∷ es) t h))

-- The steps towards the taker's one-sided loss, last one first.
abbrev loss_from_vulnerable : List SwapEvent
loss_from_vulnerable = maker_refunds_asset_csv ∷ []

abbrev loss_from_revealed : List SwapEvent
loss_from_revealed = taker_offline_or_pinned ∷ loss_from_vulnerable

abbrev loss_from_locked : List SwapEvent
loss_from_locked = maker_claims_btc_reveals_p ∷ loss_from_revealed

abbrev pub loss_path : List SwapEvent
loss_path = taker_funds_btc ∷ maker_locks_asset ∷ loss_from_locked

abbrev Loses : SwapState → List SwapEvent → Type 0
Loses s es = run s es ≡ ok one_sided_loss_taker

-- The states from which that loss can still happen.
abbrev on_path : SwapState → Bool
on_path negotiated = true
on_path btc_locked = true
on_path both_locked = true
on_path secret_revealed = true
on_path asset_vulnerable = true
on_path one_sided_loss_taker = true
on_path _ = false

on_path-Step : {s t : SwapState} {e : SwapEvent} → Step s e t → on_path t ≡ true → on_path s ≡ true
on_path-Step recover h = cc
on_path-Step reclaim h = cc
on_path-Step _ h = refl

Loses-on_path : (s : SwapState) (es : List SwapEvent) → Loses s es → on_path s ≡ true
Loses-on_path s [] l = unfold run in ground arith
Loses-on_path s (e ∷ es) l =
    let (u, step, later) = run-cons s e es l in on_path-Step step (Loses-on_path u es later)

loss_path_from : SwapState → List SwapEvent
loss_path_from negotiated = loss_path
loss_path_from btc_locked = maker_locks_asset ∷ loss_from_locked
loss_path_from both_locked = loss_from_locked
loss_path_from secret_revealed = loss_from_revealed
loss_path_from asset_vulnerable = loss_from_vulnerable
loss_path_from _ = []

-- One step along the way that leads to the loss.
loss_path_from-Step :
    {s t : SwapState} {e : SwapEvent}
    → Step s e t
    → on_path t ≡ true
    → loss_path_from s ≡ e ∷ loss_path_from t
unfolding loss_path_from
loss_path_from-Step fund h = refl
loss_path_from-Step lock h = refl
loss_path_from-Step reveal h = refl
loss_path_from-Step miss h = refl
loss_path_from-Step lose h = refl
loss_path_from-Step _ h = cc

only_path : (s : SwapState) (es : List SwapEvent) → Loses s es → es ≡ loss_path_from s
only_path s [] l = unfold run loss_path_from in ground arith
only_path s (e ∷ es) l =
    let (u, step, later) = run-cons s e es l in
    ap (λ fs. e ∷ fs) (only_path u es later)
    ∙ sym (loss_path_from-Step step (Loses-on_path u es later))

-- From the start, the taker's one-sided loss is reached by one sequence of events only: both legs
-- are locked, the maker claims and reveals the secret, the taker is offline or pinned, and the maker
-- refunds the asset.
pub run-loss_iff :
    (es : List SwapEvent) → (run negotiated es ≡ ok one_sided_loss_taker) ↔ (es ≡ loss_path)
run-loss_iff es = (
  λ l. unfold loss_path_from in only_path negotiated es l,
  λ e. rw e (unfold run advance in refl),
)

-- What a state shows of the past: the secret is public, or it is not.
abbrev pub revealed : SwapState → Bool
revealed secret_revealed = true
revealed asset_vulnerable = true
revealed completed = true
revealed one_sided_loss_taker = true
revealed _ = false

abbrev pub happens : SwapEvent → List SwapEvent → Bool
happens e [] = false
happens e (f ∷ fs) = event_eq e f || happens e fs

revealed-Step :
    {s t : SwapState} {e : SwapEvent}
    → Step s e t
    → revealed t ≡ (event_eq maker_claims_btc_reveals_p e || revealed s)
revealed-Step fund = refl
revealed-Step _ = refl

-- Along every accepted run, the states in which the secret counts as public are those reached by
-- the maker's claim: the secret is public at the end exactly if it was at the start or the run holds
-- a `maker_claims_btc_reveals_p`.
pub revealed-run :
    (s : SwapState) (es : List SwapEvent) (t : SwapState)
    → run s es ≡ ok t
    → revealed t ≡ (revealed s || happens maker_claims_btc_reveals_p es)
revealed-run s [] t h = unfold run in ground arith
revealed-run s (e ∷ es) t h =
    let (u, step, later) = run-cons s e es h in
    ground (arith, revealed-Step step, revealed-run u es t later)
