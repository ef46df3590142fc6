-- ===== src/RunState/Footprint/Dispatch.antt =====
-- The footprints over the switch of `Apply`.
use partitur.Prelude.{refl}
use partitur.Json.{Fields}
use partitur.RunState.Event.{
  Event, EventType, composition_conflicted, composition_failed, run_started, run_succeeded,
  run_failed, run_cancelled, movement_ready, movement_started, movement_succeeded, movement_failed,
  performer_selected, attempt_started, adapter_probed, performer_completed, attempt_completed,
  attempt_blocked, attempt_failed, artifact_recorded, change_set_recorded, verification_passed,
  application_candidate_recorded, acceptance_started, criterion_started, criterion_completed,
  acceptance_failed, acceptance_evaluation_completed, decision_requested, decision_resolved,
  amendment_rejected, execution_started, execution_stopped, execution_elapsed_checkpointed,
  amendment_approval_prepared, amendment_quiesce_observed, amendment_approval_abandoned,
  amendment_routed_human, amendment_approved, amendment_human_rejected, authority_granted,
  cancel_requested, journal_tail_truncated, apply_started, apply_completed, apply_failed,
  apply_recovery_required, apply_recovery_resolved, score_promotion_started, score_promoted,
  score_promotion_recovery_required,
}
use partitur.RunState.State.{State}
use partitur.RunState.Apply.{dispatch}
use partitur.RunState.Footprint.{Within}
use partitur.RunState.Frame.{state-require_composition_source}
use partitur.RunState.Footprint.Events.{
  run_started-Within, run_succeeded-Within, run_failed-Within, run_cancelled-Within,
  movement_ready-Within, movement_started-Within, movement_succeeded-Within, movement_failed-Within,
  performer_selected-Within, attempt_started-Within, adapter_probed-Within,
  performer_completed-Within, attempt_completed-Within, attempt_blocked-Within,
  attempt_failed-Within, artifact_recorded-Within, change_set_recorded-Within,
  verification_passed-Within, application_candidate_recorded-Within, acceptance_started-Within,
  criterion_started-Within, criterion_completed-Within, acceptance_failed-Within,
  acceptance_evaluation_completed-Within, decision_requested-Within, decision_resolved-Within,
  amendment_rejected-Within, execution_started-Within, execution_stopped-Within,
  execution_elapsed_checkpointed-Within, amendment_approval_prepared-Within,
  amendment_quiesce_observed-Within, amendment_approval_abandoned-Within,
  amendment_routed_human-Within, amendment_approved-Within, amendment_human_rejected-Within,
  authority_granted-Within, cancel_requested-Within, journal_tail_truncated-Within,
  apply_started-Within, apply_completed-Within, apply_failed-Within, apply_recovery_required-Within,
  apply_recovery_resolved-Within, score_promotion_started-Within, score_promoted-Within,
  score_promotion_recovery_required-Within,
}

-- The event that a handler is called for decides which fields of the state it may change: it
-- writes no field outside the event's footprint, whether it accepts the event or refuses it.
pub dispatch-Within :
    (t : EventType) (e : Event) (p : Fields) (s : State) → Within t s (dispatch t e p s).1
unfolding dispatch
dispatch-Within run_started e p s = run_started-Within e p s
dispatch-Within run_succeeded e p s = run_succeeded-Within e p s
dispatch-Within run_failed e p s = run_failed-Within e p s
dispatch-Within run_cancelled e p s = run_cancelled-Within e p s
dispatch-Within movement_ready e p s = movement_ready-Within e p s
dispatch-Within movement_started e p s = movement_started-Within e p s
dispatch-Within movement_succeeded e p s = movement_succeeded-Within e p s
dispatch-Within movement_failed e p s = movement_failed-Within e p s
dispatch-Within performer_selected e p s = performer_selected-Within e p s
dispatch-Within attempt_started e p s = attempt_started-Within e p s
dispatch-Within adapter_probed e p s = adapter_probed-Within e p s
dispatch-Within performer_completed e p s = performer_completed-Within e p s
dispatch-Within attempt_completed e p s = attempt_completed-Within e p s
dispatch-Within attempt_blocked e p s = attempt_blocked-Within e p s
dispatch-Within attempt_failed e p s = attempt_failed-Within e p s
dispatch-Within artifact_recorded e p s = artifact_recorded-Within e p s
dispatch-Within change_set_recorded e p s = change_set_recorded-Within e p s
dispatch-Within verification_passed e p s = verification_passed-Within e p s
dispatch-Within application_candidate_recorded e p s = application_candidate_recorded-Within e p s
dispatch-Within acceptance_started e p s = acceptance_started-Within e p s
dispatch-Within criterion_started e p s = criterion_started-Within e p s
dispatch-Within criterion_completed e p s = criterion_completed-Within e p s
dispatch-Within acceptance_failed e p s = acceptance_failed-Within e p s
dispatch-Within acceptance_evaluation_completed e p s = acceptance_evaluation_completed-Within e p s
dispatch-Within decision_requested e p s = decision_requested-Within e p s
dispatch-Within decision_resolved e p s = decision_resolved-Within e p s
dispatch-Within amendment_rejected e p s = amendment_rejected-Within e p s
dispatch-Within execution_started e p s = execution_started-Within e p s
dispatch-Within execution_stopped e p s = execution_stopped-Within e p s
dispatch-Within execution_elapsed_checkpointed e p s = execution_elapsed_checkpointed-Within e p s
dispatch-Within amendment_approval_prepared e p s = amendment_approval_prepared-Within e p s
dispatch-Within amendment_quiesce_observed e p s = amendment_quiesce_observed-Within e p s
dispatch-Within amendment_approval_abandoned e p s = amendment_approval_abandoned-Within e p s
dispatch-Within amendment_routed_human e p s = amendment_routed_human-Within e p s
dispatch-Within amendment_approved e p s = amendment_approved-Within e p s
dispatch-Within amendment_human_rejected e p s = amendment_human_rejected-Within e p s
dispatch-Within authority_granted e p s = authority_granted-Within e p s
dispatch-Within cancel_requested e p s = cancel_requested-Within e p s
dispatch-Within journal_tail_truncated e p s = journal_tail_truncated-Within e p s
dispatch-Within apply_started e p s = apply_started-Within e p s
dispatch-Within apply_completed e p s = apply_completed-Within e p s
dispatch-Within apply_failed e p s = apply_failed-Within e p s
dispatch-Within apply_recovery_required e p s = apply_recovery_required-Within e p s
dispatch-Within apply_recovery_resolved e p s = apply_recovery_resolved-Within e p s
dispatch-Within score_promotion_started e p s = score_promotion_started-Within e p s
dispatch-Within score_promoted e p s = score_promoted-Within e p s
dispatch-Within score_promotion_recovery_required e p s =
    score_promotion_recovery_required-Within e p s
dispatch-Within composition_conflicted e p s = state-require_composition_source e p s
dispatch-Within composition_failed e p s = state-require_composition_source e p s
dispatch-Within _ e p s = refl
