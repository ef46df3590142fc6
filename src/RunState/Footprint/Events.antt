-- ===== src/RunState/Footprint/Events.antt =====
-- The handlers of internal/runstate/apply.go against the footprints of their events.
use partitur.Prelude.{◌≡◌, arith, refl}
use partitur.Json.{Fields}
use partitur.RunState.Event.{Event, EventType}
use partitur.RunState.State.{State}
use partitur.RunState.Apply.{dispatch}
use partitur.RunState.Footprint.{Within}
use partitur.RunState.Types.{PendingPrepare}
use partitur.RunState.Action.{ok, ◌>>=◌}
use partitur.RunState.Handlers.Movement.{reject_gate}
use partitur.RunState.Handlers.Prepare.{require_prepared, require_head, commit_approval}
use partitur.RunState.Frame.{
  state-require_selection, state-require_artifact, state-require_change_set, state-require_request,
  state-require_routable, state-require_preparable, state-require_composition_source, bind-keeps,
  state-require_prepared, state-require_head, require_head_lem, take_head_lem, supersede_lem,
  close_approval_lem, state-require_succeeded, state-require_cancellation,
  close_all_pending_decisions_lem, refresh_waiting_human_lem, record_blocked_decision_sources_lem,
}

pub run_started-Within :
    (e : Event) (p : Fields) (s : State)
    → Within EventType.run_started s (dispatch EventType.run_started e p s).1
unfolding dispatch
run_started-Within e p s = ground arith

pub run_succeeded-Within :
    (e : Event) (p : Fields) (s : State)
    → Within EventType.run_succeeded s (dispatch EventType.run_succeeded e p s).1
unfolding dispatch
run_succeeded-Within e p s = grind (arith, close_all_pending_decisions_lem)

pub run_failed-Within :
    (e : Event) (p : Fields) (s : State)
    → Within EventType.run_failed s (dispatch EventType.run_failed e p s).1
unfolding dispatch
run_failed-Within e p s = grind (arith, close_all_pending_decisions_lem)

pub run_cancelled-Within :
    (e : Event) (p : Fields) (s : State)
    → Within EventType.run_cancelled s (dispatch EventType.run_cancelled e p s).1
unfolding dispatch
run_cancelled-Within e p s =
    grind (arith, state-require_cancellation, close_all_pending_decisions_lem)

commit_approval-Within :
    (e : Event) (p : Fields) (x : PendingPrepare) (s new t : State)
    → (require_head e p x s).0 ≡ ok new
    → Within EventType.amendment_approved s (commit_approval e p new t).1
unfolding commit_approval
commit_approval-Within e p x s new t h =
    grind (arith, require_head_lem e p x s new h, take_head_lem, supersede_lem, close_approval_lem)

pub amendment_approved-Within :
    (e : Event) (p : Fields) (s : State)
    → Within EventType.amendment_approved s (dispatch EventType.amendment_approved e p s).1
unfolding dispatch
amendment_approved-Within e p s =
    bind-keeps (require_prepared e p) (λ x. require_head e p x >>= commit_approval e p) s
      (Within EventType.amendment_approved s) (state-require_prepared e p s) refl
      (λ x _.
        bind-keeps (require_head e p x) (commit_approval e p) s
          (Within EventType.amendment_approved s) (state-require_head e p s x) refl
          (λ new h. commit_approval-Within e p x s new s h))

reject_gate_lem :
    (e : Event) (p : Fields) (s : State) → Within EventType.movement_failed s (reject_gate e p s).1
unfolding reject_gate
reject_gate_lem e p s = grind (arith, close_all_pending_decisions_lem)

pub movement_failed-Within :
    (e : Event) (p : Fields) (s : State)
    → Within EventType.movement_failed s (dispatch EventType.movement_failed e p s).1
unfolding dispatch
movement_failed-Within e p s = ground (arith, reject_gate_lem e p s)

pub movement_ready-Within :
    (e : Event) (p : Fields) (s : State)
    → Within EventType.movement_ready s (dispatch EventType.movement_ready e p s).1
unfolding dispatch
movement_ready-Within e p s = ground arith

pub movement_started-Within :
    (e : Event) (p : Fields) (s : State)
    → Within EventType.movement_started s (dispatch EventType.movement_started e p s).1
unfolding dispatch
movement_started-Within e p s = ground arith

pub movement_succeeded-Within :
    (e : Event) (p : Fields) (s : State)
    → Within EventType.movement_succeeded s (dispatch EventType.movement_succeeded e p s).1
unfolding dispatch
movement_succeeded-Within e p s = grind (
  arith, state-require_composition_source, bind-keeps, state-require_prepared, state-require_head,
  require_head_lem, take_head_lem, supersede_lem, close_approval_lem, state-require_succeeded,
  close_all_pending_decisions_lem,
)

pub performer_selected-Within :
    (e : Event) (p : Fields) (s : State)
    → Within EventType.performer_selected s (dispatch EventType.performer_selected e p s).1
unfolding dispatch
performer_selected-Within e p s = grind (arith, state-require_selection)

pub attempt_started-Within :
    (e : Event) (p : Fields) (s : State)
    → Within EventType.attempt_started s (dispatch EventType.attempt_started e p s).1
unfolding dispatch
attempt_started-Within e p s = ground arith

pub adapter_probed-Within :
    (e : Event) (p : Fields) (s : State)
    → Within EventType.adapter_probed s (dispatch EventType.adapter_probed e p s).1
unfolding dispatch
adapter_probed-Within e p s = ground arith

pub performer_completed-Within :
    (e : Event) (p : Fields) (s : State)
    → Within EventType.performer_completed s (dispatch EventType.performer_completed e p s).1
unfolding dispatch
performer_completed-Within e p s = ground arith

pub attempt_completed-Within :
    (e : Event) (p : Fields) (s : State)
    → Within EventType.attempt_completed s (dispatch EventType.attempt_completed e p s).1
unfolding dispatch
attempt_completed-Within e p s = ground arith

pub attempt_blocked-Within :
    (e : Event) (p : Fields) (s : State)
    → Within EventType.attempt_blocked s (dispatch EventType.attempt_blocked e p s).1
unfolding dispatch
attempt_blocked-Within e p s = grind (arith, record_blocked_decision_sources_lem)

pub attempt_failed-Within :
    (e : Event) (p : Fields) (s : State)
    → Within EventType.attempt_failed s (dispatch EventType.attempt_failed e p s).1
unfolding dispatch
attempt_failed-Within e p s = ground arith

pub artifact_recorded-Within :
    (e : Event) (p : Fields) (s : State)
    → Within EventType.artifact_recorded s (dispatch EventType.artifact_recorded e p s).1
unfolding dispatch
artifact_recorded-Within e p s = grind (arith, state-require_artifact)

pub change_set_recorded-Within :
    (e : Event) (p : Fields) (s : State)
    → Within EventType.change_set_recorded s (dispatch EventType.change_set_recorded e p s).1
unfolding dispatch
change_set_recorded-Within e p s = grind (arith, state-require_change_set)

pub verification_passed-Within :
    (e : Event) (p : Fields) (s : State)
    → Within EventType.verification_passed s (dispatch EventType.verification_passed e p s).1
unfolding dispatch
verification_passed-Within e p s = ground arith

pub application_candidate_recorded-Within :
    (e : Event) (p : Fields) (s : State)
    → Within EventType.application_candidate_recorded s
        (dispatch EventType.application_candidate_recorded e p s).1
unfolding dispatch
application_candidate_recorded-Within e p s = ground arith

pub acceptance_started-Within :
    (e : Event) (p : Fields) (s : State)
    → Within EventType.acceptance_started s (dispatch EventType.acceptance_started e p s).1
unfolding dispatch
acceptance_started-Within e p s = ground arith

pub criterion_started-Within :
    (e : Event) (p : Fields) (s : State)
    → Within EventType.criterion_started s (dispatch EventType.criterion_started e p s).1
unfolding dispatch
criterion_started-Within e p s = ground arith

pub criterion_completed-Within :
    (e : Event) (p : Fields) (s : State)
    → Within EventType.criterion_completed s (dispatch EventType.criterion_completed e p s).1
unfolding dispatch
criterion_completed-Within e p s = ground arith

pub acceptance_failed-Within :
    (e : Event) (p : Fields) (s : State)
    → Within EventType.acceptance_failed s (dispatch EventType.acceptance_failed e p s).1
unfolding dispatch
acceptance_failed-Within e p s = ground arith

pub acceptance_evaluation_completed-Within :
    (e : Event) (p : Fields) (s : State)
    → Within EventType.acceptance_evaluation_completed s
        (dispatch EventType.acceptance_evaluation_completed e p s).1
unfolding dispatch
acceptance_evaluation_completed-Within e p s = ground arith

pub decision_requested-Within :
    (e : Event) (p : Fields) (s : State)
    → Within EventType.decision_requested s (dispatch EventType.decision_requested e p s).1
unfolding dispatch
decision_requested-Within e p s = grind (arith, state-require_request, refresh_waiting_human_lem)

pub decision_resolved-Within :
    (e : Event) (p : Fields) (s : State)
    → Within EventType.decision_resolved s (dispatch EventType.decision_resolved e p s).1
unfolding dispatch
decision_resolved-Within e p s = grind (arith, refresh_waiting_human_lem)

pub amendment_rejected-Within :
    (e : Event) (p : Fields) (s : State)
    → Within EventType.amendment_rejected s (dispatch EventType.amendment_rejected e p s).1
unfolding dispatch
amendment_rejected-Within e p s = grind (arith, refresh_waiting_human_lem)

pub execution_started-Within :
    (e : Event) (p : Fields) (s : State)
    → Within EventType.execution_started s (dispatch EventType.execution_started e p s).1
unfolding dispatch
execution_started-Within e p s = ground arith

pub execution_stopped-Within :
    (e : Event) (p : Fields) (s : State)
    → Within EventType.execution_stopped s (dispatch EventType.execution_stopped e p s).1
unfolding dispatch
execution_stopped-Within e p s = ground arith

pub execution_elapsed_checkpointed-Within :
    (e : Event) (p : Fields) (s : State)
    → Within EventType.execution_elapsed_checkpointed s
        (dispatch EventType.execution_elapsed_checkpointed e p s).1
unfolding dispatch
execution_elapsed_checkpointed-Within e p s = ground arith

pub amendment_approval_prepared-Within :
    (e : Event) (p : Fields) (s : State)
    → Within EventType.amendment_approval_prepared s
        (dispatch EventType.amendment_approval_prepared e p s).1
unfolding dispatch
amendment_approval_prepared-Within e p s = grind (arith, state-require_preparable)

pub amendment_quiesce_observed-Within :
    (e : Event) (p : Fields) (s : State)
    → Within EventType.amendment_quiesce_observed s
        (dispatch EventType.amendment_quiesce_observed e p s).1
unfolding dispatch
amendment_quiesce_observed-Within e p s = ground arith

pub amendment_approval_abandoned-Within :
    (e : Event) (p : Fields) (s : State)
    → Within EventType.amendment_approval_abandoned s
        (dispatch EventType.amendment_approval_abandoned e p s).1
unfolding dispatch
amendment_approval_abandoned-Within e p s = ground arith

pub amendment_routed_human-Within :
    (e : Event) (p : Fields) (s : State)
    → Within EventType.amendment_routed_human s (dispatch EventType.amendment_routed_human e p s).1
unfolding dispatch
amendment_routed_human-Within e p s = grind (arith, state-require_routable)

pub amendment_human_rejected-Within :
    (e : Event) (p : Fields) (s : State)
    → Within EventType.amendment_human_rejected s
        (dispatch EventType.amendment_human_rejected e p s).1
unfolding dispatch
amendment_human_rejected-Within e p s = grind (arith, refresh_waiting_human_lem)

pub authority_granted-Within :
    (e : Event) (p : Fields) (s : State)
    → Within EventType.authority_granted s (dispatch EventType.authority_granted e p s).1
unfolding dispatch
authority_granted-Within e p s = ground arith

pub cancel_requested-Within :
    (e : Event) (p : Fields) (s : State)
    → Within EventType.cancel_requested s (dispatch EventType.cancel_requested e p s).1
unfolding dispatch
cancel_requested-Within e p s = ground arith

pub journal_tail_truncated-Within :
    (e : Event) (p : Fields) (s : State)
    → Within EventType.journal_tail_truncated s (dispatch EventType.journal_tail_truncated e p s).1
unfolding dispatch
journal_tail_truncated-Within e p s = ground arith

pub apply_started-Within :
    (e : Event) (p : Fields) (s : State)
    → Within EventType.apply_started s (dispatch EventType.apply_started e p s).1
unfolding dispatch
apply_started-Within e p s = ground arith

pub apply_completed-Within :
    (e : Event) (p : Fields) (s : State)
    → Within EventType.apply_completed s (dispatch EventType.apply_completed e p s).1
unfolding dispatch
apply_completed-Within e p s = ground arith

pub apply_failed-Within :
    (e : Event) (p : Fields) (s : State)
    → Within EventType.apply_failed s (dispatch EventType.apply_failed e p s).1
unfolding dispatch
apply_failed-Within e p s = ground arith

pub apply_recovery_required-Within :
    (e : Event) (p : Fields) (s : State)
    → Within EventType.apply_recovery_required s
        (dispatch EventType.apply_recovery_required e p s).1
unfolding dispatch
apply_recovery_required-Within e p s = ground arith

pub apply_recovery_resolved-Within :
    (e : Event) (p : Fields) (s : State)
    → Within EventType.apply_recovery_resolved s
        (dispatch EventType.apply_recovery_resolved e p s).1
unfolding dispatch
apply_recovery_resolved-Within e p s = ground arith

pub score_promotion_started-Within :
    (e : Event) (p : Fields) (s : State)
    → Within EventType.score_promotion_started s
        (dispatch EventType.score_promotion_started e p s).1
unfolding dispatch
score_promotion_started-Within e p s = ground arith

pub score_promoted-Within :
    (e : Event) (p : Fields) (s : State)
    → Within EventType.score_promoted s (dispatch EventType.score_promoted e p s).1
unfolding dispatch
score_promoted-Within e p s = ground arith

pub score_promotion_recovery_required-Within :
    (e : Event) (p : Fields) (s : State)
    → Within EventType.score_promotion_recovery_required s
        (dispatch EventType.score_promotion_recovery_required e p s).1
unfolding dispatch
score_promotion_recovery_required-Within e p s = ground arith
