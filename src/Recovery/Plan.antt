-- ===== src/Recovery/Plan.antt =====
-- internal/recovery/planner.go: `Plan`, the table that is applied first. Its guards are grouped by
-- what they are about, and kept in their order.
use partitur.Prelude.{
  Bool, true, false, ◌&&◌, ◌||◌, not, Option, none, some, str_eq, is_some, ltb, ◌==◌, if◌then◌else◌,
}
use partitur.RunState.Types.{terminal, Authority, ExecutionInterval}
use partitur.Recovery.Names.{CaseId, HaltReason, ActionKind, Continuation}
use partitur.Recovery.Types.{
  OwnerState, LeaseObservation, PrepareObservation, RevisionRestart, Projection, Input,
}
use partitur.Recovery.Decision.{Decision, simple, decide, act, stop, proceed_scheduler}
use partitur.Recovery.Facts.{
  current_head_attempt, has_any_unresolved_blocking_decision, first_missing_question_request,
  first_blocked_proposal_route, first_missing_reference_reason,
}
use partitur.Recovery.Least.{
  first_missing_routed_request, first_revision_restart, first_composition_terminal,
}

abbrev pub is_current_driver : OwnerState → Bool
is_current_driver OwnerState.current_driver = true
is_current_driver _ = false

abbrev pub is_dead : OwnerState → Bool
is_dead OwnerState.dead = true
is_dead _ = false

-- `hasMissingDecisionRequest`
unfoldable pub has_missing_decision_request : Projection → Bool
has_missing_decision_request p =
    is_some (first_blocked_proposal_route p.blocked_proposal_routes)
    || (is_some (first_missing_routed_request p.state) || elim (current_head_attempt p) [
      | none ↦ false
      | some a ↦ is_some (first_missing_question_request a.question_requests)
    ])

-- The `switch` on the owner of a lease of the current epoch.
abbrev owner_decision : OwnerState → Option Decision
owner_decision OwnerState.live = some (act CaseId.live_owner ActionKind.refuse_resume false)
owner_decision OwnerState.current_driver = none
owner_decision OwnerState.dead = none
owner_decision OwnerState.unverifiable =
    some (stop CaseId.owner_unverifiable HaltReason.owner_unverifiable)

-- The guards on the lease; `none` goes on.
unfoldable pub plan_lease : Authority → LeaseObservation → Option Decision
plan_lease authority lease =
    if lease.exists && (lease.readable && ltb lease.epoch authority.epoch)
    then some (act CaseId.stale_lease ActionKind.remove_stale_lease true)
    else if lease.exists
        && (not lease.readable
            || (ltb authority.epoch lease.epoch || not (is_some authority.owner)))
    then if not lease.readable
      then some (stop CaseId.owner_unverifiable HaltReason.owner_unverifiable)
      else some (act CaseId.orphan_lease ActionKind.quarantine_orphan_lease true)
    else if lease.exists && lease.epoch == authority.epoch
    then owner_decision lease.owner
    else none

unfoldable pub plan_prepare : PrepareObservation → Decision
plan_prepare o =
    if not o.plan_present
    then stop CaseId.pending_prepare HaltReason.missing_prepare_plan
    else if not o.snapshot_present
    then stop CaseId.pending_prepare HaltReason.missing_snapshot_file
    else act CaseId.pending_prepare ActionKind.complete_or_abandon_prepare false

-- An interval of the adapter is left to `PlanAttempt`, which sweeps its session first.
abbrev pub open_outside_adapter : Option ExecutionInterval → Bool
open_outside_adapter none = false
open_outside_adapter (some x) = not (str_eq x.phase "adapter")

abbrev restart_from : RevisionRestart → Decision
restart_from r =
    decide CaseId.revision_restart (record (simple ActionKind.select_revision_restart false) {
      revision_restart = some r;
      pending_successor = some (record {
        movement_id = r.movement_id;
        attempt_id = r.attempt_id;
        performer = r.performer;
        reason = "revision_restart";
        causation_id = r.approval_event_id;
      });
      continuation = some Continuation.c4;
    })

abbrev proceed_attempt : Decision
proceed_attempt =
    decide CaseId.continue
      (record (simple ActionKind.proceed_attempt false) { continuation = some Continuation.c2 })

-- The guards from the composition terminals on.
unfoldable pub plan_continuation : Projection → Decision
plan_continuation p = elim (first_composition_terminal p.composition_terminals) [
  | some t ↦
      decide CaseId.composition_terminal
        (record (simple ActionKind.append_composition_terminal true) {
          composition_terminal = some t;
        })
  | none ↦
      if p.finalization_eligible
      then act CaseId.finalization_rebuild ActionKind.rebuild_finalization true
      else elim (current_head_attempt p) [ some _ ↦ proceed_attempt | none ↦ proceed_scheduler ]
]

-- The guards on the requests that are not yet durable, and on the restarts of a revision.
unfoldable pub plan_requests : Projection → Decision
plan_requests p = elim (first_blocked_proposal_route p.blocked_proposal_routes) [
  | some r ↦
      decide CaseId.blocked_proposal_route
        (record (simple ActionKind.append_blocked_proposal_route true) {
          blocked_proposal_route = some r;
        })
  | none ↦ elim (first_missing_routed_request p.state) [
    | some id ↦
        decide CaseId.routed_amendment
          (record (simple ActionKind.append_routed_request true) { routed_proposal_id = id })
    | none ↦ elim (first_revision_restart p.revision_restarts) [
      | some r ↦ restart_from r
      | none ↦ plan_continuation p
    ]
  ]
]

-- The guards on the open interval and on what the journal refers to.
unfoldable pub plan_evidence : Input → Decision
plan_evidence i =
    if open_outside_adapter i.projection.state.open_execution
    then act CaseId.open_execution ActionKind.close_open_execution_interval true
    else if i.observations.root_snapshot_divergence
    then stop CaseId.root_snapshot_divergence HaltReason.root_snapshot_divergence
    else elim (first_missing_reference_reason i.observations.references) [
      | some reason ↦ stop CaseId.missing_reference reason
      | none ↦ plan_requests i.projection
    ]

abbrev pub waits_for_human : Input → Bool
waits_for_human i =
    (not i.observations.lease.exists || is_current_driver i.observations.lease.owner)
    && (has_any_unresolved_blocking_decision i.projection.state
        && not (has_missing_decision_request i.projection))

-- The guards on a cancellation, a prepare, what a human has to decide, and the authority.
unfoldable pub plan_authority : Input → Decision
plan_authority i =
    if i.projection.state.cancel_requested
    then act CaseId.cancellation ActionKind.execute_cancellation false
    else if is_some i.projection.state.pending_prepare
    then plan_prepare i.observations.prepare
    else if waits_for_human i
    then act CaseId.human_gate_waiting ActionKind.return_waiting_human false
    else if ltb 0 i.projection.state.authority.epoch
        && (not i.observations.lease.exists || is_dead i.observations.lease.owner)
    then act CaseId.reclaim_authority ActionKind.reclaim_authority false
    else plan_evidence i

-- `Plan`
unfoldable pub plan : Input → Decision
plan i =
    if i.projection.tail_repair_required
    then act CaseId.tail_repair ActionKind.repair_journal_tail true
    else if terminal i.projection.state.run
    then act CaseId.terminal ActionKind.terminal_cleanup false
    else elim (plan_lease i.projection.state.authority i.observations.lease) [
      | some d ↦ d
      | none ↦ plan_authority i
    ]
