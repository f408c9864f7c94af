-- ===== src/Gravity/Watch/Alerts.antt =====
-- src/pyrxd/gravity/watch/alerts.py: `DedupAlerter`. A swap's identifier is a number here, since it is only
-- compared; a dict is an association list in the order of insertion; the channel answers whether it
-- delivered. The text of a page is put together from its other fields and from the reason.
pub mod Paging
pub mod Delivered
use pyrxd.Common.{
  ℕ, suc, ◌+◌, Bool, true, false, not, ◌&&◌, ltb, ◌==◌, if◌then◌else◌, List, [], ◌∷◌, Option, none,
  some, Result, ok, err, ◌>>=◌, ◌>>◌, refuse,
}
use pyrxd.Gravity.Watch.Decide.{
  Intent, watch, page_claim, page_refund, page_squeezed, retire, noop, Reason, Action, Decision,
}

pub data Severity : Type 0 where
  info warn critical : Severity

-- `_SEVERITY`.
abbrev pub severity_of : Intent → Option Severity
severity_of page_claim = some critical
severity_of page_squeezed = some critical
severity_of page_refund = some warn
severity_of retire = some info
severity_of watch = none
severity_of noop = none

-- `Page`; a page of this class always has an intent.
pub record Page : Type 0 where
  pub swap_id : ℕ
  pub intent : Intent
  pub severity : Severity
  pub reason : Reason
  pub recommended_action : Option Action
  pub deadline_rxd_height : Option ℕ
  pub low_corroboration : Bool

-- A dict: `d.get(k)`, `d[k] = v` and `d.pop(k, None)`.
abbrev pub Dict : Type 0 → Type 0
Dict A = List (ℕ × A)

unfoldable pub lookup : {A : Type 0} → ℕ → Dict A → Option A
lookup k [] = none
lookup k ((j, v) ∷ d) = let rest = lookup k d in if k == j then some v else rest

unfoldable pub put : {A : Type 0} → ℕ → A → Dict A → Dict A
put k v [] = (k, v) ∷ []
put k v ((j, u) ∷ d) = let rest = put k v d in if k == j then (j, v) ∷ d else (j, u) ∷ rest

unfoldable pub pop : {A : Type 0} → ℕ → Dict A → Dict A
pop k [] = []
pop k ((j, u) ∷ d) = let rest = pop k d in if k == j then d else (j, u) ∷ rest

abbrev pub intent_eq : Intent → Intent → Bool
intent_eq watch watch = true
intent_eq page_claim page_claim = true
intent_eq page_refund page_refund = true
intent_eq page_squeezed page_squeezed = true
intent_eq retire retire = true
intent_eq noop noop = true
intent_eq _ _ = false

-- `d.get(k) is intent`.
abbrev pub is_intent : Option Intent → Intent → Bool
is_intent none i = false
is_intent (some j) i = intent_eq j i

abbrev pub is_critical : Option Severity → Bool
is_critical (some critical) = true
is_critical _ = false

-- `DedupAlerter`, without its channel.
pub record DedupAlerter : Type 0 where
  pub last : Dict Intent
  pub critical_ticks : Dict ℕ
  pub acked : Dict Intent
  pub repage_every : ℕ

pub data AlertError : Type 0 where
  repage_not_positive : AlertError

unfoldable pub make_alerter : ℕ → Result AlertError DedupAlerter
make_alerter repage_critical_every_ticks = do
  refuse (repage_critical_every_ticks == 0) repage_not_positive
  ok (record {
    last = [];
    critical_ticks = [];
    acked = [];
    repage_every = repage_critical_every_ticks;
  })

-- `ack`.
unfoldable pub ack_intent : ℕ → Option Intent → DedupAlerter → Bool × DedupAlerter
ack_intent swap_id none s = (false, s)
ack_intent swap_id (some intent) s =
    if is_critical (severity_of intent)
    then (true, record s { acked = put swap_id intent s.acked })
    else (false, s)

unfoldable pub ack : ℕ → DedupAlerter → Bool × DedupAlerter
unfolding ack_intent
ack swap_id s = ack_intent swap_id (lookup swap_id s.last) s

-- `unacked_critical_count`.
unfoldable pub count_unacked : Dict Intent → Dict Intent → ℕ
count_unacked acked [] = 0
count_unacked acked ((sid, intent) ∷ d) =
    (if is_critical (severity_of intent) && not (is_intent (lookup sid acked) intent) then 1 else 0)
    + count_unacked acked d

unfoldable pub unacked_critical_count : DedupAlerter → ℕ
unacked_critical_count s = count_unacked s.acked s.last

-- What came of a call of `handle`: nothing was sent, or a page was, and it was delivered or raised.
pub data Outcome : Type 0 where
  quiet : Outcome
  delivered failed : Page → Outcome

-- Whether a call came back without a raise.
abbrev pub was_handled : Outcome → Bool
was_handled (failed p) = false
was_handled _ = true

abbrev pub or_zero : Option ℕ → ℕ
or_zero none = 0
or_zero (some n) = n

abbrev pub page_of : ℕ → Decision → Severity → Page
page_of swap_id d severity = record {
  swap_id = swap_id;
  intent = d.intent;
  severity = severity;
  reason = d.reason;
  recommended_action = d.recommended_action;
  deadline_rxd_height = d.deadline_rxd_height;
  low_corroboration = d.low_corroboration;
}

-- The end of `handle`: send first, and note the page only where the channel delivered it.
unfoldable pub send_page : Bool → ℕ → Page → DedupAlerter → Outcome × DedupAlerter
send_page false swap_id page s = (failed page, s)
send_page true swap_id page s = (
  delivered page,
  record s {
    last = put swap_id page.intent s.last;
    critical_ticks = put swap_id 0 s.critical_ticks;
  },
)

-- The branch of a situation that is still live.
unfoldable pub count_tick : Bool → ℕ → Page → ℕ → DedupAlerter → Outcome × DedupAlerter
count_tick channel swap_id page ticks s =
    let s' : DedupAlerter = record s { critical_ticks = put swap_id ticks s.critical_ticks } in
    if ltb ticks s.repage_every then (quiet, s') else send_page channel swap_id page s'

unfoldable pub repeat_page : Bool → ℕ → Page → Severity → DedupAlerter → Outcome × DedupAlerter
unfolding count_tick
repeat_page channel swap_id page severity s =
    if not (is_critical (some severity))
    then (quiet, s)
    else if is_intent (lookup swap_id s.acked) page.intent
    then (quiet, s)
    else count_tick channel swap_id page (or_zero (lookup swap_id s.critical_ticks) + 1) s

-- A swap that is over: its counter and its acknowledgement go.
unfoldable pub forget : ℕ → Intent → DedupAlerter → DedupAlerter
forget swap_id retire s = record s {
  critical_ticks = pop swap_id s.critical_ticks;
  acked = pop swap_id s.acked;
}
forget swap_id _ s = s

unfoldable pub alert : Bool → ℕ → Decision → Option Severity → DedupAlerter → Outcome × DedupAlerter
unfolding send_page repeat_page forget
alert channel swap_id d none s = (quiet, s)
alert channel swap_id d (some severity) s =
    let s' = forget swap_id d.intent s in
    if is_intent (lookup swap_id s'.last) d.intent
    then repeat_page channel swap_id (page_of swap_id d severity) severity s'
    else send_page channel swap_id (page_of swap_id d severity) s'

-- `DedupAlerter.handle`, with a channel that delivers or raises.
unfoldable pub handle : Bool → ℕ → Decision → DedupAlerter → Outcome × DedupAlerter
unfolding alert
handle channel swap_id d s = alert channel swap_id d (severity_of d.intent) s

-- So many ticks in the same situation, with the channel's answers.
unfoldable pub run : List Bool → ℕ → Decision → DedupAlerter → List Outcome × DedupAlerter
run [] swap_id d s = ([], s)
run (answer ∷ answers) swap_id d s =
    let (out, s') = handle answer swap_id d s in
    let (outs, s'') = run answers swap_id d s' in (out ∷ outs, s'')
