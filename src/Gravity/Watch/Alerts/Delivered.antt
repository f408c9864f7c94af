-- ===== src/Gravity/Watch/Alerts/Delivered.antt =====
-- What the alerter keeps as the last page of a swap is what the channel delivered last.
use pyrxd.Common.{
  ℕ, ◌≡◌, refl, ap, ◌∙◌, arith, Bool, true, false, ltb, ◌==◌, ==_iff, if◌then◌else◌, List, [], ◌∷◌,
  ◌++◌, Option, none, some, Bool-cases, inl, inr,
}
use pyrxd.Gravity.Watch.Decide.{
  Intent, watch, page_claim, page_refund, page_squeezed, retire, noop, Decision,
}
use pyrxd.Gravity.Watch.Alerts.{
  Severity, Page, severity_of, Dict, lookup, put, intent_eq, is_intent, is_critical, DedupAlerter,
  Outcome, delivered, page_of, send_page, count_tick, repeat_page, forget, alert, handle,
}

-- The intent of the page that was delivered last for a swap, of an outcome and of a list in order.
abbrev pub tell : ℕ → Option Intent → ℕ → Outcome → Option Intent
tell swap_id before k (delivered p) = if swap_id == k then some p.intent else before
tell swap_id before k _ = before

abbrev pub last_told : ℕ → Option Intent → List (ℕ × Outcome) → Option Intent
last_told swap_id before [] = before
last_told swap_id before ((k, out) ∷ heard) = last_told swap_id (tell swap_id before k out) heard

pub last_told-append :
    (swap_id : ℕ) (before : Option Intent) (xs ys : List (ℕ × Outcome))
    → last_told swap_id before (xs ++ ys) ≡ last_told swap_id (last_told swap_id before xs) ys
last_told-append swap_id before [] ys = refl
last_told-append swap_id before ((k, out) ∷ xs) ys =
    last_told-append swap_id (tell swap_id before k out) xs ys

lookup-put :
    {A : Type 0} (i k : ℕ) (v : A) (d : Dict A)
    → lookup i (put k v d) ≡ (if i == k then some v else lookup i d)
unfolding lookup put
lookup-put i k v [] = refl
lookup-put i k v ((j, u) ∷ d) = elim (Bool-cases (k == j)) [
  | inl same ↦
      let is : k ≡ j = (==_iff k j).0 same in
      elim (Bool-cases (i == j)) [
        | inl here ↦ rw (same, ap (λ m. i == m) is, here) refl
        | inr there ↦ rw (same, ap (λ m. i == m) is, there) refl
      ]
  | inr other ↦ elim (Bool-cases (i == j)) [
    | inl here ↦
        let apart : i == k ≡ false = ground (arith, here, other) in rw (other, here, apart) refl
    | inr there ↦ rw (other, there) (lookup-put i k v d)
  ]
]

pub forget-last : (swap_id : ℕ) (i : Intent) (s : DedupAlerter) → (forget swap_id i s).last ≡ s.last
unfolding forget
forget-last swap_id watch s = refl
forget-last swap_id page_claim s = refl
forget-last swap_id page_refund s = refl
forget-last swap_id page_squeezed s = refl
forget-last swap_id retire s = refl
forget-last swap_id noop s = refl

module _ (i : ℕ) (channel : Bool) (swap_id : ℕ) where
  -- What the alerter keeps for the swap `i` follows what came of the call.
  abbrev Tells : DedupAlerter → Outcome × DedupAlerter → Type 0
  Tells s a = lookup i a.1.last ≡ tell i (lookup i s.last) swap_id a.0

  send_page-Tells : (p : Page) (s : DedupAlerter) → Tells s (send_page channel swap_id p s)
  unfolding send_page
  send_page-Tells p s = elim (Bool-cases channel) [
    | inl up ↦ rw up (lookup-put i swap_id p.intent s.last)
    | inr down ↦ rw down refl
  ]

  count_tick-Tells :
      (p : Page) (n : ℕ) (s : DedupAlerter) → Tells s (count_tick channel swap_id p n s)
  unfolding count_tick
  count_tick-Tells p n s = elim (Bool-cases (ltb n s.repage_every)) [
    | inl early ↦ rw early refl
    | inr late ↦
        rw late (send_page-Tells p (record s { critical_ticks = put swap_id n s.critical_ticks }))
  ]

  repeat_page-Tells :
      (p : Page) (severity : Severity) (s : DedupAlerter)
      → Tells s (repeat_page channel swap_id p severity s)
  unfolding repeat_page
  repeat_page-Tells p severity s = elim (Bool-cases (is_critical (some severity))) [
    | inr once ↦ rw once refl
    | inl critical ↦ elim (Bool-cases (is_intent (lookup swap_id s.acked) p.intent)) [
      | inl acked ↦ rw (critical, acked) refl
      | inr unacked ↦ rw (critical, unacked) (count_tick-Tells p _ s)
    ]
  ]

  alert-Tells :
      (d : Decision) (severity : Option Severity) (s : DedupAlerter)
      → Tells s (alert channel swap_id d severity s)
  unfolding alert
  alert-Tells d none s = refl
  alert-Tells d (some severity) s =
      let s' = forget swap_id d.intent s in
      let same : lookup i s'.last ≡ lookup i s.last =
        ap (lookup i) (forget-last swap_id d.intent s) in
      elim (Bool-cases (is_intent (lookup swap_id s'.last) d.intent)) [
        | inl old ↦ rw old (
            repeat_page-Tells (page_of swap_id d severity) severity s'
            ∙ ap
                (λ b.
                  tell i b swap_id
                    (repeat_page channel swap_id (page_of swap_id d severity) severity s').0)
                same)
        | inr new ↦ rw new (
            send_page-Tells (page_of swap_id d severity) s'
            ∙ ap
                (λ b.
                  tell i b swap_id (send_page channel swap_id (page_of swap_id d severity) s').0)
                same)
      ]

  pub handle-tells :
      (d : Decision) (s : DedupAlerter)
      → lookup i (handle channel swap_id d s).1.last
        ≡ tell i (lookup i s.last) swap_id (handle channel swap_id d s).0
  unfolding handle
  handle-tells d s = alert-Tells d (severity_of d.intent) s

pub is_intent-eq : (o : Option Intent) (i : Intent) → is_intent o i ≡ true → o ≡ some i
is_intent-eq none i h = cc h
is_intent-eq (some j) i h = ap some (sound j i h)
  where
    sound : (j i : Intent) → intent_eq j i ≡ true → j ≡ i
    sound j i h = ground arith
