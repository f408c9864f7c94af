-- ===== src/Gravity/Watch/Reconciler/Ticks.antt =====
-- What a tick of the watchtower reports, and whom it calls.
use pyrxd.Common.{
  ℕ, ◌≡◌, refl, sym, ap, ◌∙◌, Bool, true, false, ◌==◌, ==_iff, if◌then◌else◌, List, [], ◌∷◌, ◌++◌,
  Option, none, some, Result, ok, err, Bool-cases, inl, inr,
}
use pyrxd.Common.Bytes.{append_nil, append_assoc}
use pyrxd.Gravity.Margin.{MarginError}
use pyrxd.Gravity.Watch.Decide.{Decision}
use pyrxd.Gravity.Watch.Alerts.{Outcome, was_handled, handle}
use pyrxd.Gravity.Watch.Reconciler.{
  ReconcileResult, ExecOutcome, Active, Reconciler, is_routed, safe_handle, safe_execute, assess,
  reconcile_page, alert_about, route, is_inflight, discard, reconcile_one, reconcile_all, tick,
}

orelse-eq-false : (b c : Bool) → (if b then true else c) ≡ false → (b ≡ false) × (c ≡ false)
orelse-eq-false true c h = cc h
orelse-eq-false false c h = (refl, h)

-- Nothing to take out.
discard-is_inflight : (k : ℕ) (l : List ℕ) → is_inflight k l ≡ false → discard k l ≡ l
unfolding is_inflight discard
discard-is_inflight k [] h = refl
discard-is_inflight k (j ∷ l) h =
    let (other, rest) = orelse-eq-false (k == j) (is_inflight k l) h in
    rw other (ap (λ m. j ∷ m) (discard-is_inflight k l rest))

discard_self : (k : ℕ) (l : List ℕ) → is_inflight k l ≡ false → discard k (k ∷ l) ≡ l
unfolding discard
discard_self k l h = rw ((==_iff k k).1 refl) (discard-is_inflight k l h)

abbrev pub told_of : ℕ → Option Bool → List (ℕ × Bool)
told_of swap_id none = []
told_of swap_id (some b) = (swap_id, b) ∷ []

-- The calls of the alerter that a result tells of: the swap, and whether the call came back.
abbrev pub told : ReconcileResult → List (ℕ × Bool)
told r = told_of r.swap_id r.alert_delivered

abbrev pub all_told : List ReconcileResult → List (ℕ × Bool)
all_told [] = []
all_told (r ∷ rs) = told r ++ all_told rs

abbrev pub calls : List (ℕ × Outcome) → List (ℕ × Bool)
calls [] = []
calls ((swap_id, out) ∷ heard) = (swap_id, was_handled out) ∷ calls heard

calls-append : (xs ys : List (ℕ × Outcome)) → calls (xs ++ ys) ≡ calls xs ++ calls ys
calls-append [] ys = refl
calls-append (p ∷ xs) ys = ap (λ m. (p.0, was_handled p.1) ∷ m) (calls-append xs ys)

-- One result.
record IsReported {B E : Type 0} (a : Active B E) (t : Reconciler) (r : ReconcileResult)
    (t' : Reconciler) : Type 0 where
  pub id : r.swap_id ≡ a.swap_id
  pub inflight : t'.inflight ≡ t.inflight
  pub heard : calls t'.heard ≡ calls t.heard ++ told r

module _ {B E : Type 0} (a : Active B E) where
  alert_about-IsReported :
      (d : Decision) (error : Option (Option MarginError)) (executed : Option ExecOutcome)
      (t : Reconciler)
      → IsReported a t (alert_about a d error executed t).0 (alert_about a d error executed t).1
  unfolding alert_about safe_handle
  alert_about-IsReported d error executed t = record {
    id = refl;
    inflight = refl;
    heard = calls-append t.heard ((a.swap_id, (handle a.channel a.swap_id d t.alerter).0) ∷ []);
  }

  route-IsReported :
      (x : Result (Option MarginError) Decision) (t : Reconciler)
      → IsReported a t (route a x t).0 (route a x t).1
  unfolding route
  route-IsReported (err e) t = alert_about-IsReported (reconcile_page e) (some e) none t
  route-IsReported (ok d) t = elim (Bool-cases (is_routed d.intent)) [
    | inl routed ↦ rw routed (alert_about-IsReported d none (safe_execute a.executes d.intent) t)
    | inr silent ↦
        rw silent (record { id = refl; inflight = refl; heard = sym (append_nil (calls t.heard)) })
  ]

  reconcile_one-IsReported :
      (t : Reconciler) → IsReported a t (reconcile_one a t).0 (reconcile_one a t).1
  unfolding reconcile_one
  reconcile_one-IsReported t = elim (Bool-cases (is_inflight a.swap_id t.inflight)) [
    | inl busy ↦
        rw busy (record { id = refl; inflight = refl; heard = sym (append_nil (calls t.heard)) })
    | inr idle ↦
        let t' : Reconciler = record t { inflight = a.swap_id ∷ t.inflight } in
        let k = route-IsReported (assess a t') t' in
        rw idle (record {
          id = k.id;
          inflight = ap (discard a.swap_id) k.inflight ∙ discard_self a.swap_id t.inflight idle;
          heard = k.heard;
        })
  ]

abbrev pub ids : List ReconcileResult → List ℕ
ids [] = []
ids (r ∷ rs) = r.swap_id ∷ ids rs

abbrev pub active_ids : {B E : Type 0} → List (Active B E) → List ℕ
active_ids [] = []
active_ids (a ∷ active) = a.swap_id ∷ active_ids active

-- A tick in which the store is readable, whatever fails in it, gives one result for each active swap, in
-- their order; the swaps in flight are the same after it; and the alerter was called exactly for those swaps
-- whose result has an `alert_delivered`, in their order, which says whether that call came back.
pub tick-reports :
    {B E : Type 0} (store : ℕ) (channel : Bool) (active : List (Active B E)) (t : Reconciler)
    → (ids (tick store channel (some active) t).0 ≡ active_ids active)
      × ((tick store channel (some active) t).1.inflight ≡ t.inflight)
      × (calls (tick store channel (some active) t).1.heard
          ≡ calls t.heard ++ all_told (tick store channel (some active) t).0)
unfolding tick reconcile_all
tick-reports store channel [] t = (refl, refl, sym (append_nil (calls t.heard)))
tick-reports store channel (a ∷ active) t =
    let k = reconcile_one-IsReported a t in
    let r = (reconcile_one a t).0 in
    let (each, same, heard) = tick-reports store channel active (reconcile_one a t).1 in
    (
      rw (k.id) (ap (λ m. a.swap_id ∷ m) each),
      same ∙ k.inflight,
      heard
          ∙ ap (λ m. m ++ all_told (reconcile_all active (reconcile_one a t).1).0) k.heard
          ∙ append_assoc (calls t.heard) (told r)
              (all_told (reconcile_all active (reconcile_one a t).1).0),
    )
