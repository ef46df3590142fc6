-- ===== src/Recovery/Attempt.antt =====
-- internal/recovery/planner.go: `PlanAttempt`, the table for the attempt of the current head.
use partitur.Prelude.{
  String, Bool, true, false, ◌&&◌, ◌||◌, not, Option, none, some, List, [], ◌∷◌, str_eq,
  if◌then◌else◌,
}
use partitur.Dict.{lookup}
use partitur.RunState.Types.{AttemptState, Disposition, terminal}
use partitur.RunState.State.{State}
use partitur.RunState.Guards.{is_starting, is_attempt_running, is_verifying, is_completed}
use partitur.RunState.Handlers.Acceptance.{acceptance_or_zero}
use partitur.Recovery.Names.{CaseId, HaltReason, ActionKind, ActionStep, Continuation}
use partitur.Recovery.Types.{
  HandoffState, SweepState, WorktreeState, PendingSuccessor, Scheduler, AttemptRecovery,
  AcceptanceRecovery, Projection, Input,
}
use partitur.Recovery.Decision.{
  Action, Decision, simple, decide, act, stop, recovery_failure, proceed_scheduler,
}
use partitur.Recovery.Facts.{
  current_head_attempt, first_missing_question_request, has_unresolved_blocking_decision,
  has_adapter_probe, movement_has_repo_write, has_verification_passed,
}

abbrev is_blocked : AttemptState → Bool
is_blocked AttemptState.blocked = true
is_blocked _ = false

abbrev is_failed : AttemptState → Bool
is_failed AttemptState.failed = true
is_failed _ = false

abbrev pub is_unverifiable : SweepState → Bool
is_unverifiable SweepState.unverifiable = true
is_unverifiable _ = false

abbrev is_lost : WorktreeState → Bool
is_lost WorktreeState.missing = true
is_lost _ = false

abbrev own_successor : String → Option PendingSuccessor → Option PendingSuccessor
own_successor attempt_id none = none
own_successor attempt_id (some x) = if str_eq x.attempt_id attempt_id then some x else none

abbrev retries : Disposition → Bool
retries d = str_eq d.charged "quality_retry" || str_eq d.charged "fallback"

abbrev realize : AttemptRecovery → Action
realize a = record (simple ActionKind.realize_recorded_disposition true) {
  attempt_id = a.attempt_id;
}

-- `realizeRecordedDisposition`
unfoldable pub realize_recorded_disposition : CaseId → AttemptRecovery → Scheduler → Decision
realize_recorded_disposition c a scheduler = elim a.recorded_disposition [
  | none ↦ decide c (realize a)
  | some d ↦
      if not (retries d)
      then decide c (record (realize a) { recorded_disposition = some d })
      else elim (own_successor a.attempt_id scheduler.pending_successor) [
        | none ↦ decide c (record (realize a) { recorded_disposition = some d })
        | some x ↦ decide c (record (realize a) {
          recorded_disposition = some d;
          pending_successor = some x;
          continuation = some Continuation.c4;
          replan = false;
        })
      ]
]

abbrev on_attempt : CaseId → ActionKind → String → Decision
on_attempt c kind attempt_id = decide c (record (simple kind true) { attempt_id = attempt_id })

abbrev resume_decision : AttemptRecovery → Decision
resume_decision a =
    decide CaseId.decision_resume (record (simple ActionKind.select_decision_resume false) {
      attempt_id = a.attempt_id;
      pending_successor = some (record {
        movement_id = a.movement_id;
        attempt_id = a.attempt_id;
        performer = a.failure_classification.current_performer;
        reason = "decision_resume";
        causation_id = "";
      });
      continuation = some Continuation.c4;
    })

-- The branch of an attempt that is blocked.
unfoldable pub plan_blocked : State → AttemptRecovery → Decision
plan_blocked s a = elim (first_missing_question_request a.question_requests) [
  | some r ↦
      decide CaseId.append_question_request
        (record (simple ActionKind.append_question_request true) {
          attempt_id = a.attempt_id;
          question_decision_id = r.decision_id;
        })
  | none ↦
      if has_unresolved_blocking_decision s a.attempt_id
      then act CaseId.waiting_human ActionKind.return_waiting_human false
      else resume_decision a
]

-- The sweep of a session comes before its interval is closed, and that before the failure.
abbrev swept_failure : List ActionStep
swept_failure =
    ActionStep.sweep_recorded_session ∷ ActionStep.close_adapter_interval
    ∷ ActionStep.classify_and_append_failure ∷ []

-- The branch of an attempt that is starting.
unfoldable pub plan_starting : HandoffState → AttemptRecovery → Decision
plan_starting HandoffState.unverifiable a =
    stop CaseId.unstarted_attempt HaltReason.spawn_handoff_unverifiable
plan_starting HandoffState.sweep_failed a =
    stop CaseId.unstarted_attempt HaltReason.sweep_unverifiable
plan_starting HandoffState.safe a =
    recovery_failure CaseId.unstarted_attempt ActionKind.recover_unstarted_attempt a.attempt_id
      "task_failed" "attempt_never_started"
      (ActionStep.stabilize_handoff ∷ ActionStep.close_adapter_interval
        ∷ ActionStep.classify_and_append_failure ∷ [])

-- The two branches of an attempt that is running.
unfoldable pub plan_running : SweepState → Bool → AttemptRecovery → Decision
plan_running sweep false a =
    if is_unverifiable sweep
    then stop CaseId.unprobed_attempt HaltReason.sweep_unverifiable
    else recovery_failure CaseId.unprobed_attempt ActionKind.recover_unprobed_attempt a.attempt_id
        "adapter_unavailable" "probe_terminated_incomplete" swept_failure
plan_running sweep true a =
    if is_unverifiable sweep
    then stop CaseId.incomplete_attempt HaltReason.sweep_unverifiable
    else recovery_failure CaseId.incomplete_attempt ActionKind.recover_incomplete_attempt
        a.attempt_id "task_failed" "attempt_terminated_incomplete" swept_failure

abbrev worktree_lost : CaseId → AttemptRecovery → Decision
worktree_lost c a =
    recovery_failure c ActionKind.fail_worktree_lost a.attempt_id "task_failed" "worktree_lost"
      (ActionStep.classify_and_append_failure ∷ [])

abbrev start_acceptance : AttemptRecovery → Decision
start_acceptance a =
    decide CaseId.start_acceptance (record (simple ActionKind.append_acceptance_started false) {
      attempt_id = a.attempt_id;
      continuation = some Continuation.c3;
    })

-- The branches of an attempt that is verifying; `none` goes on.
unfoldable pub plan_verifying : Input → AttemptRecovery → Option Decision
plan_verifying i a =
    let s = i.projection.state in
    let writes = movement_has_repo_write s a.movement_id in
    let passed = has_verification_passed s a.attempt_id in
    let lost = is_lost i.observations.worktree in
    if writes && not a.change_set_recorded
    then if lost
      then some (worktree_lost CaseId.capture_change_set a)
      else some (on_attempt CaseId.capture_change_set ActionKind.capture_change_set a.attempt_id)
    else if not passed
    then if lost
      then some (worktree_lost CaseId.post_hoc_verification a)
      else some (
          on_attempt CaseId.post_hoc_verification ActionKind.rerun_post_hoc_verification
            a.attempt_id)
    else if writes && ((a.change_set_recorded || passed) && (not a.acceptance_started && lost))
    then some (worktree_lost CaseId.start_acceptance a)
    else if (a.change_set_recorded || passed) && not a.acceptance_started
    then some (start_acceptance a)
    else none

abbrev subject_of : State → AttemptRecovery → String
subject_of s a = (acceptance_or_zero (lookup a.attempt_id s.acceptances)).subject_tree

abbrev final_gate_failure : State → AttemptRecovery → Option AcceptanceRecovery → Decision
final_gate_failure s a none =
    on_attempt CaseId.final_gate_rejected ActionKind.append_final_gate_failure a.attempt_id
final_gate_failure s a (some r) =
    decide CaseId.final_gate_rejected (record (simple ActionKind.append_final_gate_failure true) {
      attempt_id = a.attempt_id;
      question_decision_id = r.gate.decision_id;
      subject_tree = subject_of s a;
    })

-- The branches from a completed attempt on.
unfoldable pub plan_ended : Projection → AttemptRecovery → Decision
plan_ended p a =
    if is_completed a.state && not a.movement_succeeded
    then on_attempt CaseId.movement_succeeded ActionKind.append_movement_succeeded a.attempt_id
    else if is_completed a.state && a.movement_succeeded
    then proceed_scheduler
    else if a.movement_failed && not (terminal p.state.run)
    then on_attempt CaseId.run_failed ActionKind.append_run_failed a.attempt_id
    else if a.final_gate_rejected && not a.movement_failed
    then final_gate_failure p.state a p.acceptance
    else if a.acceptance_started
    then decide CaseId.continue (record (simple ActionKind.proceed_acceptance false) {
      attempt_id = a.attempt_id;
      continuation = some Continuation.c3;
    })
    else proceed_scheduler

abbrev verifying_decision : Input → AttemptRecovery → Option Decision
verifying_decision i a = if is_verifying a.state then plan_verifying i a else none

-- A draft's interview that raised nothing that blocks.
abbrev draft_without_output : Projection → AttemptRecovery → Bool
draft_without_output p a =
    is_verifying a.state
    && (str_eq p.scheduler.status "draft"
        && (str_eq a.movement_id p.scheduler.draft_interview_movement && not a.acceptance_started))

unfoldable pub plan_of_attempt : Input → AttemptRecovery → Decision
plan_of_attempt i a =
    if draft_without_output i.projection a
    then recovery_failure CaseId.draft_no_blocking_output
        ActionKind.append_draft_no_blocking_failure a.attempt_id "task_failed"
        "draft_no_blocking_output" []
    else if is_failed a.state && not a.failure_disposition_realized
    then realize_recorded_disposition CaseId.realize_disposition a i.projection.scheduler
    else if is_blocked a.state
    then plan_blocked i.projection.state a
    else if is_starting a.state
    then plan_starting i.observations.handoff a
    else if is_attempt_running a.state
    then plan_running i.observations.adapter_sweep
        (has_adapter_probe i.projection.state a.attempt_id) a
    else elim (verifying_decision i a) [ some d ↦ d | none ↦ plan_ended i.projection a ]

-- `PlanAttempt`
unfoldable pub plan_attempt : Input → Decision
plan_attempt i = elim (current_head_attempt i.projection) [
  | none ↦ proceed_scheduler
  | some a ↦ plan_of_attempt i a
]
