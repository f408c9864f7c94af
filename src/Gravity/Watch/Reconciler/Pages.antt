-- ===== src/Gravity/Watch/Reconciler/Pages.antt =====
-- What the operator was last told about a swap, after a tick.
use pyrxd.Common.{
  ℕ, ◌≡◌, ◌≢◌, refl, sym, ap, ◌∙◌, Bool, true, false, ltb, [], ◌∷◌, Option, none, some, ok, err,
  Bool-cases, Option-cases, inl, inr,
}
use pyrxd.Gravity.Margin.{MarginError, make_policy}
use pyrxd.Gravity.Terms.Valid.{IsValid}
use pyrxd.Gravity.Watch.Decide.{
  Intent, watch, page_claim, page_refund, page_squeezed, retire, noop, Decision, Observations,
  decide,
}
use pyrxd.Gravity.Watch.Decide.Total.{decide_total}
use pyrxd.Gravity.Watch.Alerts.{
  Severity, Page, severity_of, lookup, put, intent_eq, is_intent, is_critical, DedupAlerter,
  page_of, send_page, count_tick, repeat_page, forget, alert, handle,
}
use pyrxd.Gravity.Watch.Alerts.Delivered.{
  tell, last_told, last_told-append, handle-tells, is_intent-eq,
}
use pyrxd.Gravity.Watch.Alerts.Paging.{lookup-put_self}
use pyrxd.Gravity.Watch.Reconciler.{
  ReconcileResult, ExecOutcome, Active, Reconciler, is_routed, safe_handle, safe_execute, assess,
  reconcile_page, alert_about, route, is_inflight, reconcile_one,
}

intent_eq_self : (i : Intent) → intent_eq i i ≡ true
intent_eq_self watch = refl
intent_eq_self page_claim = refl
intent_eq_self page_refund = refl
intent_eq_self page_squeezed = refl
intent_eq_self retire = refl
intent_eq_self noop = refl

-- The alerter's last page for a swap is about this intent.
abbrev is_last : ℕ → Intent → DedupAlerter → Bool
is_last swap_id i s = is_intent (lookup swap_id s.last) i

send_page-is_last :
    (swap_id : ℕ) (p : Page) (s : DedupAlerter)
    → is_last swap_id p.intent (send_page true swap_id p s).1 ≡ true
unfolding send_page
send_page-is_last swap_id p s =
    ap (λ j. is_intent j p.intent) (lookup-put_self swap_id p.intent s.last)
    ∙ intent_eq_self p.intent

count_tick-is_last :
    (swap_id : ℕ) (p : Page) (n : ℕ) (s : DedupAlerter)
    → is_last swap_id p.intent s ≡ true
    → is_last swap_id p.intent (count_tick true swap_id p n s).1 ≡ true
unfolding count_tick
count_tick-is_last swap_id p n s same = elim (Bool-cases (ltb n s.repage_every)) [
  | inl early ↦ rw early same
  | inr late ↦
      rw late
        (send_page-is_last swap_id p (record s { critical_ticks = put swap_id n s.critical_ticks }))
]

repeat_page-is_last :
    (swap_id : ℕ) (p : Page) (severity : Severity) (s : DedupAlerter)
    → is_last swap_id p.intent s ≡ true
    → is_last swap_id p.intent (repeat_page true swap_id p severity s).1 ≡ true
unfolding repeat_page
repeat_page-is_last swap_id p severity s same = elim (Bool-cases (is_critical (some severity))) [
  | inr once ↦ rw once same
  | inl critical ↦ elim (Bool-cases (is_intent (lookup swap_id s.acked) p.intent)) [
    | inl acked ↦ rw (critical, acked) same
    | inr unacked ↦ rw (critical, unacked) (count_tick-is_last swap_id p _ s same)
  ]
]

alert-is_last :
    (swap_id : ℕ) (d : Decision) (severity : Severity) (s : DedupAlerter)
    → is_last swap_id d.intent (alert true swap_id d (some severity) s).1 ≡ true
unfolding alert
alert-is_last swap_id d severity s =
    elim (Bool-cases (is_last swap_id d.intent (forget swap_id d.intent s))) [
      | inl same ↦
          rw same (repeat_page-is_last swap_id (page_of swap_id d severity) severity _ same)
      | inr other ↦
          rw other
            (send_page-is_last swap_id (page_of swap_id d severity) (forget swap_id d.intent s))
    ]

handle-is_last :
    (swap_id : ℕ) (d : Decision) (s : DedupAlerter)
    → is_routed d.intent ≡ true
    → is_last swap_id d.intent (handle true swap_id d s).1 ≡ true
unfolding handle
handle-is_last swap_id d s routed =
    let (severity, is) = severe d.intent routed in rw is (alert-is_last swap_id d severity s)
  where
    severe :
        (i : Intent) → is_routed i ≡ true → (severity : Severity) × (severity_of i ≡ some severity)
    severe watch h = cc h
    severe noop h = cc h
    severe page_claim h = (_, refl)
    severe page_refund h = (_, refl)
    severe page_squeezed h = (_, refl)
    severe retire h = (_, refl)

-- What the alerter keeps for each swap is the intent of the page that was delivered last for it.
pub record IsTruthful (t : Reconciler) : Type 0 where
  pub told : (i : ℕ) → lookup i t.alerter.last ≡ last_told i none t.heard

safe_handle-IsTruthful :
    (channel : Bool) (swap_id : ℕ) (d : Decision) (t : Reconciler)
    → IsTruthful t
    → IsTruthful (safe_handle channel swap_id d t).1
unfolding safe_handle
safe_handle-IsTruthful channel swap_id d t k =
    let out = (handle channel swap_id d t.alerter).0 in
    record {
      told = λ i.
          handle-tells i channel swap_id d t.alerter
          ∙ ap (λ before. tell i before swap_id out) (k.told i)
          ∙ sym (last_told-append i none t.heard ((swap_id, out) ∷ []));
    }

routed-of : (i : Intent) → i ≢ watch → i ≢ noop → is_routed i ≡ true
routed-of watch h k = absurd (h refl)
routed-of noop h k = absurd (k refl)
routed-of page_claim h k = refl
routed-of page_refund h k = refl
routed-of page_squeezed h k = refl
routed-of retire h k = refl

-- What a result says of a swap that was observed or not, and what the operator knows then.
pub record IsCurrent {B E : Type 0} (a : Active B E) (t : Reconciler) (r : ReconcileResult)
    (t' : Reconciler) : Type 0 where
  pub unobserved : a.observed ≡ none → r.decision.intent ≡ page_squeezed
  pub observed :
      (o : Observations) → a.observed ≡ some o → decide a.swap o t.policy t.safety ≡ ok r.decision
  pub is_current :
      r.decision.intent ≢ watch
      → r.decision.intent ≢ noop
      → last_told a.swap_id none t'.heard ≡ some r.decision.intent
  pub truthful : IsTruthful t'

module _ {B E : Type 0} (a : Active B E) (t : Reconciler) (channel : a.channel ≡ true)
    (truthful : IsTruthful t) where
  alert_about-IsTruthful :
      (d : Decision) (error : Option (Option MarginError)) (executed : Option ExecOutcome)
      → IsTruthful (alert_about a d error executed t).1
  unfolding alert_about
  alert_about-IsTruthful d error executed = safe_handle-IsTruthful a.channel a.swap_id d t truthful

  alert_about-is_last :
      (d : Decision) (error : Option (Option MarginError)) (executed : Option ExecOutcome)
      → is_routed d.intent ≡ true
      → is_last a.swap_id d.intent (alert_about a d error executed t).1.alerter ≡ true
  unfolding alert_about safe_handle
  alert_about-is_last d error executed routed =
      rw channel (handle-is_last a.swap_id d t.alerter routed)

  alert_about-told :
      (d : Decision) (error : Option (Option MarginError)) (executed : Option ExecOutcome)
      → is_routed d.intent ≡ true
      → last_told a.swap_id none (alert_about a d error executed t).1.heard ≡ some d.intent
  alert_about-told d error executed routed =
      sym ((alert_about-IsTruthful d error executed).told a.swap_id)
      ∙ is_intent-eq _ d.intent (alert_about-is_last d error executed routed)

  route_err-IsCurrent :
      a.observed ≡ none
      → (e : Option MarginError) → IsCurrent a t (route a (err e) t).0 (route a (err e) t).1
  unfolding route alert_about
  route_err-IsCurrent none_seen e = record {
    unobserved = λ h. refl;
    observed = λ o h. cc (h, none_seen);
    is_current = λ h k. alert_about-told (reconcile_page e) (some e) none refl;
    truthful = alert_about-IsTruthful (reconcile_page e) (some e) none;
  }

  route_ok-IsCurrent :
      (o : Observations)
      → a.observed ≡ some o
      → (d : Decision) → decide a.swap o t.policy t.safety ≡ ok d
      → IsCurrent a t (route a (ok d) t).0 (route a (ok d) t).1
  unfolding route alert_about
  route_ok-IsCurrent o seen d decided = elim (Bool-cases (is_routed d.intent)) [
    | inl routed ↦ rw routed (record {
      unobserved = λ h. cc (h, seen);
      observed = λ o' h. cc (h, seen, decided);
      is_current = λ h k. alert_about-told d none (safe_execute a.executes d.intent) routed;
      truthful = alert_about-IsTruthful d none (safe_execute a.executes d.intent);
    })
    | inr silent ↦ rw silent (record {
      unobserved = λ h. cc (h, seen);
      observed = λ o' h. cc (h, seen, decided);
      is_current = λ h k. cc (routed-of d.intent h k, silent);
      truthful = truthful;
    })
  ]

assess-unobserved :
    {B E : Type 0} (a : Active B E) (t : Reconciler) → a.observed ≡ none → assess a t ≡ err none
unfolding assess
assess-unobserved a t h = rw h refl

assess-observed :
    {B E : Type 0} (a : Active B E) (t : Reconciler) (o : Observations) (d : Decision)
    → a.observed ≡ some o
    → decide a.swap o t.policy t.safety ≡ ok d
    → assess a t ≡ ok d
unfolding assess
assess-observed a t o d h decided = rw (h, decided) refl

-- With a policy that was constructed, for an active swap on valid terms that no other call is on, where the
-- channel delivers, and where what the alerter keeps is what was delivered: if the observer raised, the
-- result is to page SQUEEZED; if not, the decision is what `decide` concludes from the observations; if it is
-- neither WATCH nor NOOP, the page that the channel delivered last for this swap, in this tick or before, has
-- the intent of the decision; and what the alerter keeps is still what was delivered, for every swap.
pub reconcile_one-IsCurrent :
    {B E : Type 0} (a : Active B E) (t : Reconciler)
    → make_policy t.policy ≡ ok t.policy
    → IsValid a.swap.terms
    → is_inflight a.swap_id t.inflight ≡ false
    → a.channel ≡ true
    → IsTruthful t
    → IsCurrent a t (reconcile_one a t).0 (reconcile_one a t).1
unfolding reconcile_one
reconcile_one-IsCurrent a t made valid idle channel truthful =
    let t' : Reconciler = record t { inflight = a.swap_id ∷ t.inflight } in
    let truthful' : IsTruthful t' = record { told = truthful.told } in
    elim (Option-cases a.observed) [
      | inl none_seen ↦
          let k = route_err-IsCurrent a t' channel truthful' none_seen none in
          rw (idle, assess-unobserved a t' none_seen)
            (record {
              unobserved = k.unobserved;
              observed = k.observed;
              is_current = k.is_current;
              truthful = record { told = k.truthful.told };
            })
      | inr (o, seen) ↦
          let (d, decided) = decide_total a.swap o t.policy t.safety made valid in
          let k = route_ok-IsCurrent a t' channel truthful' o seen d decided in
          rw (idle, assess-observed a t' o d seen decided)
            (record {
              unobserved = k.unobserved;
              observed = k.observed;
              is_current = k.is_current;
              truthful = record { told = k.truthful.told };
            })
    ]
