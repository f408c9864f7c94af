-- ===== src/Gravity/Watch/Alerts/Paging.antt =====
-- When `handle` sends a page, and that a critical one gets through.
use pyrxd.Common.{
  ℕ, suc, ◌+◌, ◌≤◌, ◌<◌, ◌≡◌, refl, ap, arith, Bool, true, false, ◌||◌, ltb, ◌==◌, ==_iff, length,
  List, [], ◌∷◌, ◌++◌, some, Bool-cases, inl, inr,
}
use pyrxd.Gravity.Watch.Decide.{
  Intent, watch, page_claim, page_refund, page_squeezed, retire, noop, Decision,
}
use pyrxd.Gravity.Watch.Alerts.{
  critical, severity_of, Dict, lookup, put, is_intent, DedupAlerter, Outcome, quiet, delivered,
  or_zero, page_of, send_page, count_tick, repeat_page, forget, alert, handle, run,
}

pub lookup-put_self : {A : Type 0} (k : ℕ) (v : A) (d : Dict A) → lookup k (put k v d) ≡ some v
unfolding lookup put
lookup-put_self k v [] = rw ((==_iff k k).1 refl) refl
lookup-put_self k v ((j, u) ∷ d) = elim (Bool-cases (k == j)) [
  | inl same ↦ rw (same, same) refl
  | inr other ↦ rw (other, other) (lookup-put_self k v d)
]

forget-critical :
    (swap_id : ℕ) (i : Intent) (s : DedupAlerter)
    → severity_of i ≡ some critical
    → forget swap_id i s ≡ s
unfolding forget
forget-critical swap_id page_claim s h = refl
forget-critical swap_id page_squeezed s h = refl
forget-critical swap_id page_refund s h = cc h
forget-critical swap_id retire s h = cc h
forget-critical swap_id watch s h = cc h
forget-critical swap_id noop s h = cc h

-- The ticks counted, and the alerter that counted one more.
abbrev pub ticks_of : ℕ → DedupAlerter → ℕ
ticks_of swap_id s = or_zero (lookup swap_id s.critical_ticks)

abbrev counted : ℕ → DedupAlerter → DedupAlerter
counted swap_id s = record s {
  critical_ticks = put swap_id (ticks_of swap_id s + 1) s.critical_ticks;
}

counted_once :
    (swap_id : ℕ) (s : DedupAlerter) → ticks_of swap_id (counted swap_id s) ≡ ticks_of swap_id s + 1
counted_once swap_id s =
    ap or_zero (lookup-put_self swap_id (ticks_of swap_id s + 1) s.critical_ticks)

module _ (swap_id : ℕ) (d : Decision) (is : severity_of d.intent ≡ some critical) where
  -- What a tick does in a critical situation that nobody acknowledged.
  data Ticks (channel : Bool) (s : DedupAlerter) : Outcome × DedupAlerter → Type 0 where
    fresh :
        is_intent (lookup swap_id s.last) d.intent ≡ false
        → Ticks channel s (send_page channel swap_id (page_of swap_id d critical) s)
    waits :
        is_intent (lookup swap_id s.last) d.intent ≡ true
        → ticks_of swap_id s + 1 < s.repage_every
        → Ticks channel s (quiet, counted swap_id s)
    due :
        is_intent (lookup swap_id s.last) d.intent ≡ true
        → s.repage_every ≤ ticks_of swap_id s + 1
        → Ticks channel s
            (send_page channel swap_id (page_of swap_id d critical) (counted swap_id s))

  handle-Ticks :
      (channel : Bool) (s : DedupAlerter)
      → is_intent (lookup swap_id s.acked) d.intent ≡ false
      → Ticks channel s (handle channel swap_id d s)
  unfolding handle alert repeat_page count_tick
  handle-Ticks channel s unacked = elim (Bool-cases (is_intent (lookup swap_id s.last) d.intent)) [
    | inr other ↦ rw (is, forget-critical swap_id d.intent s is, other) (fresh other)
    | inl same ↦ elim (Bool-cases (ltb (ticks_of swap_id s + 1) s.repage_every)) [
      | inl early ↦
          rw (is, forget-critical swap_id d.intent s is, same, unacked, early)
            (waits same (ground arith))
      | inr late ↦
          rw (is, forget-critical swap_id d.intent s is, same, unacked, late)
            (due same (ground arith))
    ]
  ]

-- A page went out, and got through.
abbrev pub is_delivered : Outcome → Bool
is_delivered (delivered p) = true
is_delivered _ = false

abbrev pub any_delivered : List Outcome → Bool
any_delivered [] = false
any_delivered (o ∷ os) = is_delivered o || any_delivered os

module _ (swap_id : ℕ) (d : Decision) (is : severity_of d.intent ≡ some critical) where
  -- The ticks that are left before a page is sent.
  abbrev Enough : List Bool → DedupAlerter → Type 0
  Enough answers s =
      is_intent (lookup swap_id s.last) d.intent ≡ true
      → s.repage_every ≤ length answers + 1 + ticks_of swap_id s

  pages_next :
      (channel : Bool) (answers : List Bool) (s : DedupAlerter) (a : Outcome × DedupAlerter)
      → ((t : DedupAlerter)
          → is_intent (lookup swap_id t.acked) d.intent ≡ false
          → Enough answers t
          → any_delivered (run (answers ++ (true ∷ [])) swap_id d t).0 ≡ true)
      → is_intent (lookup swap_id s.acked) d.intent ≡ false
      → (is_intent (lookup swap_id s.last) d.intent ≡ true
          → s.repage_every ≤ suc (length answers) + 1 + ticks_of swap_id s)
      → Ticks swap_id d is channel s a
      → (is_delivered a.0 || any_delivered (run (answers ++ (true ∷ [])) swap_id d a.1).0) ≡ true
  unfolding send_page
  pages_next true answers s _ ih unacked enough (fresh other) = refl
  pages_next false answers s _ ih unacked enough (fresh other) =
      ih s unacked (λ same. cc (other, same))
  pages_next channel answers s _ ih unacked enough (waits same early) =
      ih (counted swap_id s) unacked (λ k. omega (arith, enough same, counted_once swap_id s))
  pages_next true answers s _ ih unacked enough (due same late) = refl
  pages_next false answers s _ ih unacked enough (due same late) =
      ih (counted swap_id s) unacked (λ k. omega (arith, late, counted_once swap_id s))

  pages_last :
      (s : DedupAlerter) (a : Outcome × DedupAlerter)
      → (is_intent (lookup swap_id s.last) d.intent ≡ true
          → s.repage_every ≤ 1 + ticks_of swap_id s)
      → Ticks swap_id d is true s a
      → (is_delivered a.0 || false) ≡ true
  unfolding send_page
  pages_last s _ enough (fresh other) = refl
  pages_last s _ enough (waits same early) = absurd (omega (arith, enough same))
  pages_last s _ enough (due same late) = refl

  run-pages :
      (answers : List Bool) (s : DedupAlerter)
      → is_intent (lookup swap_id s.acked) d.intent ≡ false
      → Enough answers s
      → any_delivered (run (answers ++ (true ∷ [])) swap_id d s).0 ≡ true
  unfolding run
  run-pages [] s unacked enough =
      pages_last s (handle true swap_id d s) (λ same. omega (arith, enough same))
        (handle-Ticks swap_id d is true s unacked)
  run-pages (answer ∷ answers) s unacked enough =
      pages_next answer answers s (handle answer swap_id d s) (run-pages answers) unacked enough
        (handle-Ticks swap_id d is answer s unacked)

-- In a critical situation that the operator did not acknowledge, whatever the channel did before and did on
-- all ticks but the last: where the ticks are at least `repage_critical_every_ticks` and the channel
-- delivers on the last of them, the operator gets a page within these ticks.
pub run-delivers :
    (swap_id : ℕ) (d : Decision) (s : DedupAlerter) (answers : List Bool)
    → severity_of d.intent ≡ some critical
    → is_intent (lookup swap_id s.acked) d.intent ≡ false
    → s.repage_every ≤ length answers + 1
    → any_delivered (run (answers ++ (true ∷ [])) swap_id d s).0 ≡ true
run-delivers swap_id d s answers is unacked enough =
    run-pages swap_id d is answers s unacked (λ same. omega (arith, enough))
