-- ===== src/Recovery/Owner.antt =====
-- internal/recovery/planner.go: `Plan` beside a lease whose owner may be alive.
use partitur.Prelude.{◌≡◌, arith, Bool, true, false, none, some, is_some}
use partitur.Recovery.Names.{ActionKind}
use partitur.Recovery.Types.{Input}
use partitur.Recovery.Decision.{Decision}
use partitur.Recovery.Plan.{plan, plan_lease, is_current_driver, is_dead}

-- The actions that touch neither the owner's work nor the journal's events.
abbrev stands_back : ActionKind → Bool
stands_back ActionKind.repair_journal_tail = true
stands_back ActionKind.terminal_cleanup = true
stands_back ActionKind.remove_stale_lease = true
stands_back ActionKind.quarantine_orphan_lease = true
stands_back ActionKind.refuse_resume = true
stands_back _ = false

abbrev pub is_passive : Decision → Bool
is_passive d = elim d.action [ none ↦ is_some d.halt | some a ↦ stands_back a.kind ]

-- While a lease exists whose owner is neither dead nor this driver, `Plan` stands back: it repairs
-- the journal's tail, cleans up after a run that is over, removes a lease that is stale or an
-- orphan, refuses to resume, or halts.
pub plan-is_passive :
    (i : Input)
    → i.observations.lease.exists ≡ true
    → is_current_driver i.observations.lease.owner ≡ false
    → is_dead i.observations.lease.owner ≡ false
    → is_passive (plan i) ≡ true
unfolding plan plan_lease
plan-is_passive i held other alive = ground arith
