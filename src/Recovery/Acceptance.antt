-- ===== src/Recovery/Acceptance.antt =====
-- internal/recovery/planner.go: `PlanAcceptance`, the table for an acceptance that has started.
use partitur.Prelude.{
  String, Bool, true, false, ◌&&◌, not, Option, none, some, [], ◌∷◌, if◌then◌else◌,
}
use partitur.Dict.{lookup}
use partitur.RunState.Types.{Acceptance}
use partitur.Recovery.Names.{CaseId, HaltReason, ActionKind, ActionStep, Continuation}
use partitur.Recovery.Types.{
  SweepState, SubjectVerification, UnjournaledLaunchState, GateRecovery, AcceptanceRecovery,
  AttemptRecovery, Observations, Input,
}
use partitur.Recovery.Decision.{
  Decision, simple, decide, act, stop, acceptance_failure, verify_acceptance_subject,
  proceed_scheduler,
}
use partitur.Recovery.Facts.{
  current_head_attempt, first_failed_criterion, first_in_flight_criterion, all_criteria_passed,
  has_completed_criteria, next_unstarted_criterion,
}
use partitur.Recovery.Attempt.{realize_recorded_disposition, is_unverifiable}

-- The `switch` on the observed subject, with what a subject that matches leads to.
unfoldable pub by_subject : CaseId → SubjectVerification → String → Decision → Decision
by_subject c SubjectVerification.mismatched attempt_id matched =
    acceptance_failure c attempt_id "" "recovery_subject_mismatch"
by_subject c SubjectVerification.matched attempt_id matched = matched
by_subject c SubjectVerification.unverified attempt_id matched =
    verify_acceptance_subject c ActionKind.verify_acceptance_subject attempt_id []

abbrev no_gate : GateRecovery
no_gate = record {
  required = false;
  requested = false;
  resolved = false;
  approved = false;
  decision_id = "";
  gate_id = "";
  review_outcome = "";
  blocking_findings = [];
}

abbrev pub gate_of : Option AcceptanceRecovery → GateRecovery
gate_of none = no_gate
gate_of (some r) = r.gate

abbrev request_gate : GateRecovery → AttemptRecovery → Acceptance → Decision
request_gate g a acceptance =
    decide CaseId.request_human_gate (record (simple ActionKind.append_human_gate_request true) {
      attempt_id = a.attempt_id;
      question_decision_id = g.decision_id;
      subject_tree = acceptance.subject_tree;
      review_outcome = g.review_outcome;
      blocking_findings = g.blocking_findings;
    })

abbrev refuse_gate : GateRecovery → AttemptRecovery → Acceptance → Decision
refuse_gate g a acceptance =
    decide CaseId.human_gate_rejected
      (record (simple ActionKind.append_gate_rejected_failure true) {
        attempt_id = a.attempt_id;
        movement_id = a.movement_id;
        question_decision_id = g.decision_id;
        subject_tree = acceptance.subject_tree;
      })

abbrev accept : CaseId → AttemptRecovery → Acceptance → Decision
accept c a acceptance = decide c (record (simple ActionKind.append_acceptance_success true) {
  attempt_id = a.attempt_id;
  movement_id = a.movement_id;
  subject_tree = acceptance.subject_tree;
  steps = ActionStep.append_attempt_completed ∷ ActionStep.append_movement_succeeded ∷ [];
})

abbrev completion_case : GateRecovery → CaseId
completion_case g = if g.required then CaseId.human_gate_approved else CaseId.gate_free_completion

-- `planEvaluatedAcceptance`
unfoldable pub plan_evaluated_acceptance :
    SubjectVerification → AttemptRecovery → Acceptance → GateRecovery → Decision
plan_evaluated_acceptance subject a acceptance g =
    if g.required && not g.requested
    then request_gate g a acceptance
    else if g.required && (g.requested && not g.resolved)
    then act CaseId.human_gate_waiting ActionKind.return_waiting_human false
    else if g.required && (g.resolved && not g.approved)
    then refuse_gate g a acceptance
    else by_subject (completion_case g) subject a.attempt_id
        (accept (completion_case g) a acceptance)

abbrev remove_launch : String → Decision
remove_launch attempt_id =
    decide CaseId.unjournaled_launch (record (simple ActionKind.remove_unjournaled_launch true) {
      attempt_id = attempt_id;
      continuation = some Continuation.c3;
    })

abbrev stabilize_launch : String → Decision
stabilize_launch attempt_id =
    decide CaseId.unjournaled_launch
      (record (simple ActionKind.stabilize_unjournaled_launch true) { attempt_id = attempt_id })

-- `planUnjournaledLaunch`, and `none` where there is no launch.
unfoldable pub plan_unjournaled_launch : UnjournaledLaunchState → String → Option Decision
plan_unjournaled_launch UnjournaledLaunchState.absent attempt_id = none
plan_unjournaled_launch UnjournaledLaunchState.handoff_unverifiable attempt_id =
    some (stop CaseId.unjournaled_launch HaltReason.spawn_handoff_unverifiable)
plan_unjournaled_launch UnjournaledLaunchState.sweep_unverifiable attempt_id =
    some (stop CaseId.unjournaled_launch HaltReason.sweep_unverifiable)
plan_unjournaled_launch UnjournaledLaunchState.marker_free attempt_id =
    some (remove_launch attempt_id)
plan_unjournaled_launch UnjournaledLaunchState.session_empty attempt_id =
    some (remove_launch attempt_id)
plan_unjournaled_launch UnjournaledLaunchState.unstabilized attempt_id =
    some (stabilize_launch attempt_id)

abbrev resume_criterion : CaseId → AttemptRecovery → Acceptance → Decision
resume_criterion c a acceptance = elim (next_unstarted_criterion acceptance) [
  | some id ↦ decide c (record (simple ActionKind.resume_criterion true) {
    attempt_id = a.attempt_id;
    criterion_id = id;
    subject_tree = acceptance.subject_tree;
  })
  | none ↦ proceed_scheduler
]

abbrev criterion_case : Acceptance → CaseId
criterion_case acceptance =
    if has_completed_criteria acceptance then CaseId.next_criterion else CaseId.first_criterion

-- No criterion is in flight, none has failed, and they are not all evaluated.
unfoldable pub plan_criteria : Observations → AttemptRecovery → Acceptance → Decision
plan_criteria o a acceptance =
    if all_criteria_passed acceptance
    then by_subject CaseId.criteria_passed o.acceptance_subject a.attempt_id (
        decide CaseId.criteria_passed (record (simple ActionKind.append_evaluation_completed true) {
          attempt_id = a.attempt_id;
          subject_tree = acceptance.subject_tree;
        }))
    else elim (plan_unjournaled_launch o.unjournaled_launch a.attempt_id) [
      | some d ↦ d
      | none ↦
          by_subject (criterion_case acceptance) o.acceptance_subject a.attempt_id
            (resume_criterion (criterion_case acceptance) a acceptance)
    ]

-- A criterion that is in flight is swept before its subject is looked at.
abbrev recover_criterion : SweepState → AttemptRecovery → String → Decision
recover_criterion sweep a id =
    if is_unverifiable sweep
    then stop CaseId.incomplete_criterion HaltReason.sweep_unverifiable
    else decide CaseId.incomplete_criterion
        (record (simple ActionKind.recover_incomplete_criterion true) {
          attempt_id = a.attempt_id;
          steps = ActionStep.sweep_criterion_session ∷ ActionStep.verify_acceptance_subject ∷ [];
          criterion_id = id;
        })

abbrev has_failed : Option AcceptanceRecovery → Bool
has_failed none = false
has_failed (some r) = r.failed

unfoldable pub plan_of_acceptance : Input → AttemptRecovery → Acceptance → Decision
plan_of_acceptance i a acceptance =
    if has_failed i.projection.acceptance
    then realize_recorded_disposition CaseId.acceptance_failed a i.projection.scheduler
    else elim (first_failed_criterion acceptance) [
      | some (id, reason) ↦ acceptance_failure CaseId.criterion_failed a.attempt_id id reason
      | none ↦ elim (first_in_flight_criterion acceptance) [
        | some id ↦ recover_criterion i.observations.criterion_sweep a id
        | none ↦
            if acceptance.evaluation_completed
            then plan_evaluated_acceptance i.observations.acceptance_subject a acceptance
                (gate_of i.projection.acceptance)
            else plan_criteria i.observations a acceptance
      ]
    ]

-- `PlanAcceptance`
unfoldable pub plan_acceptance : Input → Decision
plan_acceptance i = elim (current_head_attempt i.projection) [
  | none ↦ proceed_scheduler
  | some a ↦ elim (lookup a.attempt_id i.projection.state.acceptances) [
    | none ↦ proceed_scheduler
    | some acceptance ↦
        if not acceptance.started then proceed_scheduler else plan_of_acceptance i a acceptance
  ]
]
