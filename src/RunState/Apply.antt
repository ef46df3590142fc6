-- ===== src/RunState/Apply.antt =====
-- internal/runstate/apply.go: `Apply`, the projection of one event.
pub mod Accepted
use partitur.Prelude.{Bool, true, false, ◌&&◌, ◌||◌, not, str_eq, is_some, leb, ◌==◌, if◌then◌else◌}
use partitur.Dict.{lookup, insert}
use partitur.Json.{Fields}
use partitur.RunState.Types.{terminal}
use partitur.RunState.Event.{
  Event, EventType, is_derived_event, is_observational_event, prepare_pending_mutation, run_started,
  run_succeeded, run_failed, run_cancelled, movement_ready, movement_started, movement_succeeded,
  movement_failed, performer_selected, attempt_started, adapter_probed, performer_completed,
  attempt_completed, attempt_blocked, attempt_failed, artifact_recorded, change_set_recorded,
  verification_passed, application_candidate_recorded, acceptance_started, criterion_started,
  criterion_completed, acceptance_failed, acceptance_evaluation_completed, decision_requested,
  decision_resolved, amendment_rejected, execution_started, execution_stopped,
  execution_elapsed_checkpointed, amendment_approval_prepared, amendment_quiesce_observed,
  amendment_approval_abandoned, amendment_routed_human, amendment_approved,
  amendment_human_rejected, authority_granted, cancel_requested, journal_tail_truncated,
  apply_started, apply_completed, apply_failed, apply_recovery_required, apply_recovery_resolved,
  score_promotion_started, score_promoted, score_promotion_recovery_required,
  composition_conflicted, composition_failed, log, progress,
}
use partitur.RunState.State.{State, AppliedEvent}
use partitur.RunState.Action.{
  Action, pure, raise, gets, lift, ◌>>=◌, ◌>>◌, modify, raise_if, raise_unless, when, some_or,
  invalid, transition,
}
use partitur.RunState.Payload.Validate.{validate_payload, unknown_type}
use partitur.RunState.Handlers.Acceptance.{
  on_acceptance_started, on_criterion_started, on_criterion_completed, on_acceptance_failed,
  on_acceptance_evaluation_completed,
}
use partitur.RunState.Handlers.Amendment.{
  on_amendment_rejected, on_amendment_routed_human, on_amendment_human_rejected,
}
use partitur.RunState.Handlers.Application.{
  on_apply_started, on_apply_completed, on_apply_failed, on_apply_recovery_required,
  on_apply_recovery_resolved, on_score_promotion_started, on_score_promoted,
  on_score_promotion_recovery_required,
}
use partitur.RunState.Handlers.Attempt.{
  on_performer_selected, on_attempt_started, on_adapter_probed, on_performer_completed,
  on_attempt_completed, on_attempt_failed, on_artifact_recorded, on_change_set_recorded,
  on_verification_passed,
}
use partitur.RunState.Handlers.Decision.{
  on_attempt_blocked, on_decision_requested, on_decision_resolved,
}
use partitur.RunState.Handlers.Execution.{
  on_execution_started, on_execution_elapsed_checkpointed, on_execution_stopped,
  on_authority_granted, on_journal_tail_truncated,
}
use partitur.RunState.Handlers.Movement.{
  on_movement_ready, on_movement_started, on_movement_failed, on_movement_succeeded,
  require_composition_source,
}
use partitur.RunState.Handlers.Prepare.{
  on_amendment_approval_prepared, on_amendment_quiesce_observed, on_amendment_approval_abandoned,
  on_amendment_approved,
}
use partitur.RunState.Handlers.Run.{
  on_run_started, on_run_succeeded, on_run_failed, on_run_cancelled,
  on_application_candidate_recorded, on_cancel_requested,
}

-- The `switch` of `Apply`. The last clause is its default: the registry's derived events, which
-- the projection does not support, and what is not in the registry.
unfoldable pub dispatch : EventType → Event → Fields → Action (Unit {0})
unfolding on_run_started on_run_succeeded on_run_failed on_run_cancelled on_movement_ready
    on_movement_started on_movement_succeeded on_movement_failed on_performer_selected
    on_attempt_started on_adapter_probed on_performer_completed on_attempt_completed
    on_attempt_blocked on_attempt_failed on_artifact_recorded on_change_set_recorded
    on_verification_passed on_application_candidate_recorded on_acceptance_started
    on_criterion_started on_criterion_completed on_acceptance_failed
    on_acceptance_evaluation_completed on_decision_requested on_decision_resolved
    on_amendment_rejected on_execution_started on_execution_stopped
    on_execution_elapsed_checkpointed on_amendment_approval_prepared on_amendment_quiesce_observed
    on_amendment_approval_abandoned on_amendment_routed_human on_amendment_approved
    on_amendment_human_rejected on_authority_granted on_cancel_requested on_journal_tail_truncated
    on_apply_started on_apply_completed on_apply_failed on_apply_recovery_required
    on_apply_recovery_resolved on_score_promotion_started on_score_promoted
    on_score_promotion_recovery_required require_composition_source
dispatch run_started e p = on_run_started e p
dispatch run_succeeded e p = on_run_succeeded e p
dispatch run_failed e p = on_run_failed e p
dispatch run_cancelled e p = on_run_cancelled e p
dispatch movement_ready e p = on_movement_ready e p
dispatch movement_started e p = on_movement_started e p
dispatch movement_succeeded e p = on_movement_succeeded e p
dispatch movement_failed e p = on_movement_failed e p
dispatch performer_selected e p = on_performer_selected e p
dispatch attempt_started e p = on_attempt_started e p
dispatch adapter_probed e p = on_adapter_probed e p
dispatch performer_completed e p = on_performer_completed e p
dispatch attempt_completed e p = on_attempt_completed e p
dispatch attempt_blocked e p = on_attempt_blocked e p
dispatch attempt_failed e p = on_attempt_failed e p
dispatch artifact_recorded e p = on_artifact_recorded e p
dispatch change_set_recorded e p = on_change_set_recorded e p
dispatch verification_passed e p = on_verification_passed e p
dispatch application_candidate_recorded e p = on_application_candidate_recorded e p
dispatch acceptance_started e p = on_acceptance_started e p
dispatch criterion_started e p = on_criterion_started e p
dispatch criterion_completed e p = on_criterion_completed e p
dispatch acceptance_failed e p = on_acceptance_failed e p
dispatch acceptance_evaluation_completed e p = on_acceptance_evaluation_completed e p
dispatch decision_requested e p = on_decision_requested e p
dispatch decision_resolved e p = on_decision_resolved e p
dispatch amendment_rejected e p = on_amendment_rejected e p
dispatch execution_started e p = on_execution_started e p
dispatch execution_stopped e p = on_execution_stopped e p
dispatch execution_elapsed_checkpointed e p = on_execution_elapsed_checkpointed e p
dispatch amendment_approval_prepared e p = on_amendment_approval_prepared e p
dispatch amendment_quiesce_observed e p = on_amendment_quiesce_observed e p
dispatch amendment_approval_abandoned e p = on_amendment_approval_abandoned e p
dispatch amendment_routed_human e p = on_amendment_routed_human e p
dispatch amendment_approved e p = on_amendment_approved e p
dispatch amendment_human_rejected e p = on_amendment_human_rejected e p
dispatch authority_granted e p = on_authority_granted e p
dispatch cancel_requested e p = on_cancel_requested e p
dispatch journal_tail_truncated e p = on_journal_tail_truncated e p
dispatch apply_started e p = on_apply_started e p
dispatch apply_completed e p = on_apply_completed e p
dispatch apply_failed e p = on_apply_failed e p
dispatch apply_recovery_required e p = on_apply_recovery_required e p
dispatch apply_recovery_resolved e p = on_apply_recovery_resolved e p
dispatch score_promotion_started e p = on_score_promotion_started e p
dispatch score_promoted e p = on_score_promoted e p
dispatch score_promotion_recovery_required e p = on_score_promotion_recovery_required e p
dispatch composition_conflicted e p = require_composition_source e p
dispatch composition_failed e p = require_composition_source e p
dispatch log e p = pure tt
dispatch progress e p = pure tt
dispatch _ e p = raise (unknown_type e)

abbrev pub is_run_cancelled : EventType → Bool
is_run_cancelled run_cancelled = true
is_run_cancelled _ = false

abbrev pub is_amendment_approved : EventType → Bool
is_amendment_approved amendment_approved = true
is_amendment_approved _ = false

-- The `switch` of `validateDerivedCausation`: what may cause a derived event.
abbrev pub causes : EventType → AppliedEvent → Bool
causes EventType.movement_cancelled source = is_run_cancelled source.type
causes EventType.attempt_cancelled source = is_run_cancelled source.type
causes EventType.attempt_superseded source = is_amendment_approved source.type
causes EventType.decision_obsoleted source =
    is_amendment_approved source.type || source.terminalizes_run
causes _ source = true

abbrev check_source : Event → Action (Unit {0})
check_source e = do
  raise_if (str_eq e.causation_id "") (invalid e "causation_id is required for derived events")
  found ← gets (λ s. lookup e.causation_id s.applied_events)
  source ← some_or found (invalid e "causation_id does not reference an already applied event")
  raise_if (not (e.seq == 0) && leb e.seq source.sequence)
      (invalid e "causation_id must reference an earlier event")
  raise_unless (causes e.type source) (invalid e "causation_id")

-- `validateDerivedCausation`
unfoldable pub require_causation : Event → Action (Unit {0})
require_causation e = when (is_derived_event e.type) (check_source e)

-- The end of `Apply`: the event is kept for the events that it may cause.
unfoldable pub note_applied : Event → Bool → State → State
note_applied e was_terminal s =
    if not (str_eq e.event_id "") && not (is_observational_event e.type)
    then record s {
      applied_events =
          insert e.event_id
            (record {
              type = e.type;
              sequence = e.seq;
              terminalizes_run = not was_terminal && terminal s.run;
            })
            s.applied_events;
    }
    else s

-- `Apply` after the validation of the payload.
unfoldable pub project : Event → Fields → Action (Unit {0})
project e p = do
  require_causation e
  was_terminal ← gets (λ s. terminal s.run)
  prepared ← gets (λ s. is_some s.pending_prepare)
  raise_if (prepared && not (prepare_pending_mutation e.type)) (transition e "prepare_pending")
  dispatch e.type e p
  modify (note_applied e was_terminal)

-- `Apply`: the state comes back beside an error too.
unfoldable pub apply : Event → Action (Unit {0})
apply e = do p ← lift (validate_payload e); project e p
