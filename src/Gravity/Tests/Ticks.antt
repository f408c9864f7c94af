-- ===== src/Gravity/Tests/Ticks.antt =====
-- Ticks of the watchtower: a swap that is watched and one whose observer raised.
use pyrxd.Common.{ℕ, ◌≡◌, refl, true, false, [], ◌∷◌, ◌++◌, none, some}
use pyrxd.Gravity.Machine.{both_locked}
use pyrxd.Gravity.Tests.Swaps.{btc_terms-IsValid}
use pyrxd.Gravity.Tests.Gates.{policy, policy_made}
use pyrxd.Gravity.Tests.Towers.{swap, seen}
use pyrxd.Gravity.Tests.Alerts.{alerter}
use pyrxd.Gravity.Watch.Alerts.{lookup}
use pyrxd.Gravity.Watch.Alerts.Delivered.{last_told}
use pyrxd.Gravity.Watch.Reconciler.{Active, Reconciler, is_inflight, reconcile_one, tick}
use pyrxd.Gravity.Watch.Reconciler.Ticks.{calls, ids, active_ids, all_told, tick-reports}
use pyrxd.Gravity.Watch.Reconciler.Pages.{IsTruthful, IsCurrent, reconcile_one-IsCurrent}

abbrev watched : Active ℕ ℕ
watched = record {
  swap_id = 1;
  swap = swap both_locked;
  observed = some seen;
  executes = some none;
  channel = true;
}

abbrev unreadable : Active ℕ ℕ
unreadable = record watched { swap_id = 2; observed = none; channel = false }

abbrev tower : Reconciler
tower = record { alerter = alerter; heard = []; policy = policy; safety = 12; inflight = [] }

idle : is_inflight 1 tower.inflight ≡ false
unfolding is_inflight
idle = refl

tick-reports_example :
    (ids (tick 0 true (some (watched ∷ unreadable ∷ [])) tower).0
      ≡ active_ids (watched ∷ unreadable ∷ []))
    × ((tick 0 true (some (watched ∷ unreadable ∷ [])) tower).1.inflight ≡ tower.inflight)
    × (calls (tick 0 true (some (watched ∷ unreadable ∷ [])) tower).1.heard
        ≡ calls tower.heard ++ all_told (tick 0 true (some (watched ∷ unreadable ∷ [])) tower).0)
tick-reports_example = tick-reports 0 true (watched ∷ unreadable ∷ []) tower

nothing_told : (i : ℕ) → lookup i tower.alerter.last ≡ last_told i none tower.heard
unfolding lookup
nothing_told i = refl

tower-IsTruthful : IsTruthful tower
tower-IsTruthful = record { told = nothing_told }

reconcile_one-IsCurrent_example :
    IsCurrent watched tower (reconcile_one watched tower).0 (reconcile_one watched tower).1
reconcile_one-IsCurrent_example =
    reconcile_one-IsCurrent watched tower policy_made btc_terms-IsValid idle refl tower-IsTruthful
