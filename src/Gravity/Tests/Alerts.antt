-- ===== src/Gravity/Tests/Alerts.antt =====
-- Runs of the watchtower's alerter.
use pyrxd.Common.{◌≡◌, refl, arith, true, false, ◌++◌, ◌∷◌, [], ok, err, some}
use pyrxd.Gravity.Watch.Decide.{page, page_claim, claim_safe, claim_asset, Decision}
use pyrxd.Gravity.Watch.Alerts.{
  DedupAlerter, make_alerter, repage_not_positive, lookup, put, is_intent, ack,
  unacked_critical_count, count_unacked, handle, run,
}
use pyrxd.Gravity.Watch.Alerts.Paging.{any_delivered, run-delivers}

abbrev decision : Decision
decision = page page_claim claim_safe (some claim_asset) (some 1072) false

abbrev pub alerter : DedupAlerter
alerter = record { last = []; critical_ticks = []; acked = []; repage_every = 3 }

made : make_alerter 3 ≡ ok alerter
unfolding make_alerter
made = refl

zero_refused : make_alerter 0 ≡ err repage_not_positive
unfolding make_alerter
zero_refused = refl

-- After a page that got through there is one situation to acknowledge, and after its acknowledgement none.
abbrev paged : DedupAlerter
paged = record alerter { last = (1, page_claim) ∷ []; critical_ticks = (1, 0) ∷ [] }

paged_once : (handle true 1 decision alerter).1 ≡ paged
unfolding handle lookup put
paged_once = refl

waiting : unacked_critical_count paged ≡ 1
unfolding unacked_critical_count count_unacked lookup
waiting = refl

nothing_waiting : unacked_critical_count (ack 1 paged).1 ≡ 0
unfolding unacked_critical_count count_unacked ack lookup put
nothing_waiting = refl

unacked : is_intent (lookup 1 alerter.acked) page_claim ≡ false
unfolding lookup
unacked = refl

run-delivers_example :
    any_delivered (run ((false ∷ true ∷ []) ++ (true ∷ [])) 1 decision alerter).0 ≡ true
run-delivers_example =
    run-delivers 1 decision alerter (false ∷ true ∷ []) refl unacked (omega arith)
