-- ===== src/Gravity/Watch/Decide.antt =====
-- src/pyrxd/gravity/watch/decide.py: what the watchtower concludes for one swap. A reason and an
-- action stand for the texts of the source, one for each.
pub mod Sound
pub mod Safety
pub mod Faithful
pub mod Branches
pub mod Total
use pyrxd.Common.{
  ℕ, ◌+◌, ◌≤◌, ◌<◌, ◌≡◌, Bool, true, false, ◌&&◌, ◌||◌, not, ltb, leb, ◌==◌, if◌then◌else◌, Option,
  none, some, Result, ok, err, ◌>>=◌, ◌>>◌, refuse,
}
use pyrxd.Gravity.Machine.{
  SwapState, negotiated, btc_locked, both_locked, secret_revealed, completed, mutual_refund,
  params_mismatch, maker_stalls, asset_vulnerable, one_sided_loss_taker, aborted,
  asset_refunded_taker_acts, is_terminal, state_eq,
}
use pyrxd.Gravity.Timelock.{TimeUnit, blocks, seconds, Timelock}
use pyrxd.Gravity.Finality.{CounterClaimState, CounterClaimFinality, from_btc_depth, without_depth}
use pyrxd.Gravity.Margin.{
  MarginPolicy, MarginError, blocks_of, ClaimFinality, safe, wait, squeezed, assess_claim_finality,
  taker_refund_window_open,
}
use pyrxd.Gravity.Terms.{NegotiatedTerms}
use pyrxd.Gravity.Record.{SwapRecord}
use text.Mathlib.Text.{◌==◌ as str_eq}

-- `Intent`.
pub data Intent : Type 0 where
  watch page_claim page_refund page_squeezed retire noop : Intent

-- `Observations`.
pub record Observations : Type 0 where
  pub maker_has_claimed_btc : Bool
  pub now_rxd_height : ℕ
  pub asset_locked_at_height : Option ℕ
  pub btc_claim_confirmations : Option ℕ
  pub btc_funding_confirmations : Option ℕ
  pub eth_claim_detected : Bool
  pub eth_claim_finality : Option CounterClaimState
  pub low_corroboration : Bool

pub data Reason : Type 0 where
  terminal unsupported unassessable claim_safe awaiting_burial window_closing : Reason
  vulnerable mismatch unexpected_stall lock_not_observed predicate_unevaluable : Reason
  stall_due refund_not_near asset_locked_despite never_locked awaiting_maturity nothing_due : Reason
  gate_error : MarginError → Reason
  records_unreadable single_flight : Reason
  reconcile_error : Option MarginError → Reason

pub data Action : Type 0 where
  verify_and_claim claim_asset claim_from_vulnerable refund_btc mutual_refund_both : Action
  investigate check_records : Action

-- `Decision`.
pub record Decision : Type 0 where
  pub intent : Intent
  pub reason : Reason
  pub recommended_action : Option Action
  pub deadline_rxd_height : Option ℕ
  pub low_corroboration : Bool
  pub autonomous_btc_refund : Bool
  pub autonomous_asset_claim : Bool

-- `Decision(intent, reason, …)` with the defaults of the two autonomy flags.
abbrev pub page : Intent → Reason → Option Action → Option ℕ → Bool → Decision
page intent reason action deadline corr = record {
  intent = intent;
  reason = reason;
  recommended_action = action;
  deadline_rxd_height = deadline;
  low_corroboration = corr;
  autonomous_btc_refund = false;
  autonomous_asset_claim = false;
}

abbrev is_page_refund : Intent → Bool
is_page_refund page_refund = true
is_page_refund _ = false

abbrev is_page_claim : Intent → Bool
is_page_claim page_claim = true
is_page_claim _ = false

pub data DecisionError : Type 0 where
  both_flags refund_flag_misplaced claim_flag_misplaced : DecisionError

-- `Decision.__post_init__`; the checks of types hold by the types.
unfoldable pub make_decision : Decision → Result DecisionError Decision
make_decision d = do
  refuse (d.autonomous_btc_refund && d.autonomous_asset_claim) both_flags
  refuse (d.autonomous_btc_refund && not (is_page_refund d.intent)) refund_flag_misplaced
  refuse (d.autonomous_asset_claim && not (is_page_claim d.intent)) claim_flag_misplaced
  ok d

-- `_value_at_risk_photons`.
unfoldable pub value_at_risk_photons : NegotiatedTerms → Option ℕ
value_at_risk_photons t = if str_eq t.asset_variant "rxd" then some t.radiant_amount else none

-- `_required_btc_depth_blocks`.
unfoldable pub required_btc_depth_blocks : MarginPolicy → Result MarginError ℕ
required_btc_depth_blocks p = blocks_of p p.btc_claim_reorg_depth

-- `_refund_opens_at`.
unfoldable pub refund_opens_at : MarginPolicy → NegotiatedTerms → ℕ → Result MarginError ℕ
refund_opens_at p t lock = do rxd ← blocks_of p t.t_rxd; ok (lock + rxd)

at_least : Option ℕ → ℕ → Bool
at_least none n = false
at_least (some c) n = leb n c

abbrev is_blocks : TimeUnit → Bool
is_blocks blocks = true
is_blocks seconds = false

-- `_btc_refund_matured`.
unfoldable pub btc_refund_matured : NegotiatedTerms → Observations → Bool
unfolding at_least
btc_refund_matured t o =
    is_blocks t.t_btc.unit && at_least o.btc_funding_confirmations t.t_btc.value

-- The page for each answer of the finality gate, where `arm` is the BTC branch's autonomy flag.
unfoldable pub claim_page : Bool → Result MarginError ClaimFinality → ℕ → Bool → Decision
claim_page arm (err e) deadline corr =
    page page_squeezed (gate_error e) (some verify_and_claim) (some deadline) corr
claim_page arm (ok safe) deadline corr =
    record (page page_claim claim_safe (some claim_asset) (some deadline) corr) {
      autonomous_asset_claim = arm;
    }
claim_page arm (ok wait) deadline corr = page watch awaiting_burial none (some deadline) corr
claim_page arm (ok squeezed) deadline corr =
    page page_squeezed window_closing (some claim_from_vulnerable) (some deadline) corr

abbrev pub unassessed : Bool → Decision
unassessed corr = page page_squeezed unassessable (some verify_and_claim) none corr

-- The claim race of the BTC branch.
unfoldable pub btc_claim_race :
    NegotiatedTerms
    → Observations
    → MarginPolicy
    → Option ℕ
    → Option ℕ
    → Result MarginError Decision
btc_claim_race t o p none lock = ok (unassessed o.low_corroboration)
btc_claim_race t o p (some confs) none = ok (unassessed o.low_corroboration)
btc_claim_race t o p (some confs) (some lock) = do
  depth ← required_btc_depth_blocks p
  deadline ← refund_opens_at p t lock
  let answer =
      assess_claim_finality (from_btc_depth confs depth) o.now_rxd_height lock t.t_rxd p
        (value_at_risk_photons t)
  ok (claim_page true answer deadline o.low_corroboration)

-- The claim race of the ETH branch: a verdict without depth.
unfoldable pub eth_claim_race :
    NegotiatedTerms
    → Observations
    → MarginPolicy
    → Option CounterClaimState
    → Option ℕ
    → Result MarginError Decision
eth_claim_race t o p none lock = ok (unassessed o.low_corroboration)
eth_claim_race t o p (some s) none = ok (unassessed o.low_corroboration)
eth_claim_race t o p (some s) (some lock) = do
  deadline ← refund_opens_at p t lock
  let answer =
      assess_claim_finality (without_depth s) o.now_rxd_height lock t.t_rxd p
        (value_at_risk_photons t)
  ok (claim_page false answer deadline o.low_corroboration)

unfoldable pub stall_page : Result MarginError Bool → ℕ → Bool → Decision
stall_page (err e) deadline corr =
    page page_refund predicate_unevaluable (some mutual_refund_both) (some deadline) corr
stall_page (ok true) deadline corr =
    page page_refund stall_due (some mutual_refund_both) (some deadline) corr
stall_page (ok false) deadline corr = page watch refund_not_near none (some deadline) corr

-- The state BOTH_LOCKED of either branch, while the maker is silent.
unfoldable pub both_locked_page :
    NegotiatedTerms → Observations → MarginPolicy → ℕ → Option ℕ → Result MarginError Decision
unfolding stall_page
both_locked_page t o p window none = ok (page watch lock_not_observed none none o.low_corroboration)
both_locked_page t o p window (some lock) = do
  deadline ← refund_opens_at p t lock
  let due = taker_refund_window_open o.now_rxd_height lock t.t_rxd window false p.block_interval_s
  ok (stall_page due deadline o.low_corroboration)

-- The state BTC_LOCKED of the BTC branch.
unfoldable pub btc_locked_page : NegotiatedTerms → Observations → Option ℕ → Decision
btc_locked_page t o (some lock) = page watch asset_locked_despite none none o.low_corroboration
btc_locked_page t o none =
    if btc_refund_matured t o
    then record (page page_refund never_locked (some refund_btc) none o.low_corroboration) {
      autonomous_btc_refund = true;
    }
    else page watch awaiting_maturity none none o.low_corroboration

-- What either branch does by the state while the maker has not revealed the secret.
unfoldable pub btc_silent :
    NegotiatedTerms → Observations → MarginPolicy → ℕ → SwapState → Result MarginError Decision
btc_silent t o p window asset_vulnerable =
    ok (page page_squeezed vulnerable (some claim_from_vulnerable) none o.low_corroboration)
btc_silent t o p window params_mismatch =
    ok (record (page page_refund mismatch (some refund_btc) none o.low_corroboration) {
      autonomous_btc_refund = btc_refund_matured t o;
    })
btc_silent t o p window maker_stalls =
    ok (page page_squeezed unexpected_stall (some investigate) none o.low_corroboration)
btc_silent t o p window both_locked = both_locked_page t o p window o.asset_locked_at_height
btc_silent t o p window btc_locked = ok (btc_locked_page t o o.asset_locked_at_height)
btc_silent t o p window _ = ok (page watch nothing_due none none o.low_corroboration)

unfoldable pub eth_silent :
    NegotiatedTerms → Observations → MarginPolicy → ℕ → SwapState → Result MarginError Decision
eth_silent t o p window asset_vulnerable =
    ok (page page_squeezed vulnerable (some claim_from_vulnerable) none o.low_corroboration)
eth_silent t o p window params_mismatch =
    ok (page page_refund mismatch (some refund_btc) none o.low_corroboration)
eth_silent t o p window maker_stalls =
    ok (page page_squeezed unexpected_stall (some investigate) none o.low_corroboration)
eth_silent t o p window both_locked = both_locked_page t o p window o.asset_locked_at_height
eth_silent t o p window _ = ok (page watch nothing_due none none o.low_corroboration)

-- `_decide_eth`.
unfoldable pub decide_eth :
    SwapState → NegotiatedTerms → Observations → MarginPolicy → ℕ → Result MarginError Decision
decide_eth s t o p window =
    if o.eth_claim_detected || state_eq s secret_revealed
    then eth_claim_race t o p o.eth_claim_finality o.asset_locked_at_height
    else eth_silent t o p window s

-- `decide`, from the test of the counter chain on, for a BTC swap.
unfoldable pub decide_btc :
    SwapState → NegotiatedTerms → Observations → MarginPolicy → ℕ → Result MarginError Decision
decide_btc s t o p window =
    if o.maker_has_claimed_btc || state_eq s secret_revealed
    then btc_claim_race t o p o.btc_claim_confirmations o.asset_locked_at_height
    else btc_silent t o p window s

-- `decide`.
unfoldable pub decide_at :
    SwapState → NegotiatedTerms → Observations → MarginPolicy → ℕ → Result MarginError Decision
decide_at s t o p window =
    if is_terminal s
    then ok (page retire terminal none none o.low_corroboration)
    else if str_eq t.counter_chain "eth"
    then decide_eth s t o p window
    else if not (str_eq t.counter_chain "btc")
    then ok (page noop unsupported none none o.low_corroboration)
    else decide_btc s t o p window

unfoldable pub decide :
    {B E : Type 0} → SwapRecord B E → Observations → MarginPolicy → ℕ → Result MarginError Decision
decide r o p window = decide_at r.state r.terms o p window
