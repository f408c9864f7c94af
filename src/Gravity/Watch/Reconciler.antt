-- ===== src/Gravity/Watch/Reconciler.antt =====
-- src/pyrxd/gravity/watch/reconciler.py: a tick of the watchtower. What the ports answer comes with each
-- swap of the tick; the error of a result is the reason of its page.
pub mod Ticks
pub mod Pages
use pyrxd.Common.{
  ℕ, Bool, true, false, not, ◌==◌, if◌then◌else◌, List, [], ◌∷◌, ◌++◌, Option, none, some, Result,
  ok, err, map_err,
}
use pyrxd.Gravity.Margin.{MarginPolicy, MarginError}
use pyrxd.Gravity.Record.{SwapRecord}
use pyrxd.Gravity.Watch.Decide.{
  Intent, watch, page_claim, page_refund, page_squeezed, retire, noop, Reason, records_unreadable,
  single_flight, reconcile_error, investigate, check_records, Decision, page, Observations, decide,
}
use pyrxd.Gravity.Watch.Alerts.{DedupAlerter, Outcome, was_handled, handle}

-- `ExecOutcome` of `executor.py`.
pub data ExecOutcome : Type 0 where
  broadcast declined failed : ExecOutcome

pub record ReconcileResult : Type 0 where
  pub swap_id : ℕ
  pub decision : Decision
  pub error : Option (Option MarginError)
  pub alert_delivered : Option Bool
  pub executed : Option ExecOutcome

-- A swap that `list_active` returns, and what `observe`, `execute` and the channel answer for it in this
-- tick; `none` of the first two is a raise.
pub record Active (B E : Type 0) : Type 0 where
  pub swap_id : ℕ
  pub swap : SwapRecord B E
  pub observed : Option Observations
  pub executes : Option (Option ExecOutcome)
  pub channel : Bool

-- `Reconciler`; `heard` is what came of the calls of its alerter.
pub record Reconciler : Type 0 where
  pub alerter : DedupAlerter
  pub heard : List (ℕ × Outcome)
  pub policy : MarginPolicy
  pub safety : ℕ
  pub inflight : List ℕ

-- `_ROUTED_INTENTS`.
abbrev pub is_routed : Intent → Bool
is_routed watch = false
is_routed noop = false
is_routed _ = true

abbrev pub executed_of : Option (Option ExecOutcome) → Option ExecOutcome
executed_of none = some failed
executed_of (some outcome) = outcome

abbrev pub safe_execute : Option (Option ExecOutcome) → Intent → Option ExecOutcome
safe_execute answer page_refund = executed_of answer
safe_execute answer page_claim = executed_of answer
safe_execute answer _ = none

unfoldable pub safe_handle : Bool → ℕ → Decision → Reconciler → Bool × Reconciler
safe_handle channel swap_id d t =
    let (out, alerter) = handle channel swap_id d t.alerter in
    (was_handled out, record t { alerter = alerter; heard = t.heard ++ ((swap_id, out) ∷ []) })

-- What `observe` and `decide` come to.
unfoldable pub assess :
    {B E : Type 0} → Active B E → Reconciler → Result (Option MarginError) Decision
assess a t = from_observed a.observed
  where
    from_observed : Option Observations → Result (Option MarginError) Decision
    from_observed none = err none
    from_observed (some o) = map_err some (decide a.swap o t.policy t.safety)

abbrev pub reconcile_page : Option MarginError → Decision
reconcile_page e = page page_squeezed (reconcile_error e) (some investigate) none false

-- A page and the result that tells of it.
unfoldable pub alert_about :
    {B E : Type 0}
    → Active B E
    → Decision
    → Option (Option MarginError)
    → Option ExecOutcome
    → Reconciler
    → ReconcileResult × Reconciler
unfolding safe_handle
alert_about a d error executed t =
    let (delivered, t') = safe_handle a.channel a.swap_id d t in
    (
      record {
        swap_id = a.swap_id;
        decision = d;
        error = error;
        alert_delivered = some delivered;
        executed = executed;
      },
      t',
    )

unfoldable pub route :
    {B E : Type 0}
    → Active B E
    → Result (Option MarginError) Decision
    → Reconciler
    → ReconcileResult × Reconciler
unfolding alert_about
route a (err e) t = alert_about a (reconcile_page e) (some e) none t
route a (ok d) t =
    if is_routed d.intent then alert_about a d none (safe_execute a.executes d.intent) t else (
      record {
        swap_id = a.swap_id;
        decision = d;
        error = none;
        alert_delivered = none;
        executed = none;
      },
      t,
    )

-- `swap_id in self._inflight`, and `discard`.
unfoldable pub is_inflight : ℕ → List ℕ → Bool
is_inflight k [] = false
is_inflight k (j ∷ l) = if k == j then true else is_inflight k l

unfoldable pub discard : ℕ → List ℕ → List ℕ
discard k [] = []
discard k (j ∷ l) = let rest = discard k l in if k == j then rest else j ∷ rest

abbrev pub skipped : ℕ → ReconcileResult
skipped swap_id = record {
  swap_id = swap_id;
  decision = page watch single_flight none none false;
  error = none;
  alert_delivered = none;
  executed = none;
}

-- `_reconcile_one`.
unfoldable pub reconcile_one :
    {B E : Type 0} → Active B E → Reconciler → ReconcileResult × Reconciler
unfolding assess route
reconcile_one a t =
    if is_inflight a.swap_id t.inflight
    then (skipped a.swap_id, t)
    else let t' : Reconciler = record t { inflight = a.swap_id ∷ t.inflight } in
      let (result, t'') = route a (assess a t') t' in
      (result, record t'' { inflight = discard a.swap_id t''.inflight })

unfoldable pub reconcile_all :
    {B E : Type 0} → List (Active B E) → Reconciler → List ReconcileResult × Reconciler
unfolding reconcile_one
reconcile_all [] t = ([], t)
reconcile_all (a ∷ active) t =
    let (result, t') = reconcile_one a t in
    let (results, t'') = reconcile_all active t' in (result ∷ results, t'')

abbrev pub store_page : Decision
store_page = page page_squeezed records_unreadable (some check_records) none false

-- `tick`: where `list_active` raises, the page goes out under the name of the store.
unfoldable pub tick :
    {B E : Type 0}
    → ℕ
    → Bool
    → Option (List (Active B E))
    → Reconciler
    → List ReconcileResult × Reconciler
unfolding safe_handle reconcile_all
tick store channel none t =
    let (delivered, t') = safe_handle channel store store_page t in
    (
      record {
        swap_id = store;
        decision = store_page;
        error = some none;
        alert_delivered = some delivered;
        executed = none;
      }
          ∷ [],
      t',
    )
tick store channel (some active) t = reconcile_all active t
