-- ===== src/RunState/Payload/Names.antt =====
-- internal/runstate/apply.go: `payloadFields`, the fields that the payload of each event must and
-- may have.
use partitur.Prelude.{String, Option, none, some, List, [], ◌∷◌}
use partitur.RunState.Event.{
  EventType, acceptance_evaluation_completed, acceptance_failed, acceptance_started, adapter_probed,
  amendment_approval_abandoned, amendment_approval_prepared, amendment_approved,
  amendment_human_rejected, amendment_quiesce_observed, amendment_rejected, amendment_routed_human,
  application_candidate_recorded, apply_completed, apply_failed, apply_recovery_required,
  apply_recovery_resolved, apply_started, artifact_recorded, attempt_blocked, attempt_cancelled,
  attempt_completed, attempt_failed, attempt_started, attempt_superseded, authority_granted,
  cancel_requested, change_set_recorded, composition_conflicted, composition_failed,
  criterion_completed, criterion_started, decision_obsoleted, decision_requested, decision_resolved,
  execution_elapsed_checkpointed, execution_started, execution_stopped, journal_tail_truncated, log,
  movement_cancelled, movement_failed, movement_ready, movement_started, movement_succeeded, other,
  performer_completed, performer_selected, progress, run_cancelled, run_failed, run_started,
  run_succeeded, score_promoted, score_promotion_recovery_required, score_promotion_started,
  verification_passed,
}

-- The required names and the optional ones; `none` is an event that is not known.
unfoldable pub payload_fields : EventType → Option (List String × List String)
payload_fields run_started = some (
  "base_commit" ∷ "base_tree" ∷ "score_hash" ∷ "score_file_hash" ∷ "resolved_cast_hash"
      ∷ "identity_versions" ∷ [],
  [],
)
payload_fields run_succeeded = some ("candidate" ∷ "waiver" ∷ "identity_versions" ∷ [], [])
payload_fields run_failed = some ("reason" ∷ [], [])
payload_fields run_cancelled = some (
  "cancelled_movement_ids" ∷ "cancelled_attempt_ids" ∷ "obsoleted_decision_ids" ∷ [],
  "fenced_epoch" ∷ [],
)
payload_fields movement_ready = some ([], [])
payload_fields movement_started = some ([], [])
payload_fields movement_failed =
    some ("reason" ∷ "run_failed" ∷ [], "decision_id" ∷ "subject_tree" ∷ [])
payload_fields movement_cancelled = some ([], [])
payload_fields movement_succeeded = some (
  "approved_artifact_instance_ids" ∷ "identity_versions" ∷ "run_succeeded" ∷ [],
  "approved_change_set_id" ∷ [],
)
payload_fields performer_selected =
    some ("reason" ∷ "performer_id" ∷ "adapter_id" ∷ "model" ∷ [], [])
payload_fields attempt_started = some (
  "attempt_number" ∷ "adapter_process" ∷ "granted_authority" ∷ "identity_versions" ∷ [],
  "base_composition_hash" ∷ "review_subject_input" ∷ [],
)
payload_fields adapter_probed = some (
  "adapter_version" ∷ "capabilities" ∷ "enforcement" ∷ "negotiated_features"
      ∷ "truncated_resolutions" ∷ "delivered_resolutions" ∷ "delivered_feedback"
      ∷ "advisory_dimensions" ∷ "execution_dependency_hash" ∷ "identity_versions" ∷ [],
  [],
)
payload_fields performer_completed = some ("session_hint_stored" ∷ [], [])
payload_fields attempt_completed = some ([], [])
payload_fields verification_passed = some ([], [])
payload_fields attempt_cancelled = some ([], [])
payload_fields attempt_superseded = some ([], [])
payload_fields attempt_blocked = some ("raised" ∷ "pending_decision_ids" ∷ [], [])
payload_fields attempt_failed = some ("kind" ∷ "disposition" ∷ [], "reason" ∷ "detail" ∷ [])
payload_fields artifact_recorded =
    some ("logical_output_id" ∷ "kind" ∷ "content_hash" ∷ "size_bytes" ∷ "source_path" ∷ [], [])
payload_fields change_set_recorded = some (
  "change_set_id" ∷ "base_tree" ∷ "result_tree" ∷ "commit" ∷ "ref" ∷ "identity_versions" ∷ [],
  [],
)
payload_fields application_candidate_recorded = some (
  "candidate_id" ∷ "base_tree" ∷ "result_tree" ∷ "ordered_change_sets" ∷ "contributors"
      ∷ "candidate_composition_dependency_hash" ∷ "identity_versions" ∷ [],
  "composition_environment_hash" ∷ [],
)
payload_fields acceptance_started = some (
  "subject_tree" ∷ "acceptance_spec_hash" ∷ "planned_criterion_ids" ∷ "identity_versions" ∷ [],
  [],
)
payload_fields criterion_started = some (
  "criterion_id" ∷ "criterion_spec_hash" ∷ "subject_tree" ∷ "identity_versions" ∷ [],
  "criterion_process" ∷ "spawn_failed" ∷ [],
)
payload_fields criterion_completed = some (
  "criterion_id" ∷ "criterion_spec_hash" ∷ "subject_tree" ∷ "outcome" ∷ "identity_versions" ∷ [],
  "exit_code" ∷ "duration_ms" ∷ "output_ref" ∷ "truncated_streams" ∷ "error_detail" ∷ [],
)
payload_fields acceptance_failed =
    some ("reason" ∷ "subject_tree" ∷ "disposition" ∷ [], "failed_criterion_id" ∷ [])
payload_fields acceptance_evaluation_completed = some (
  "subject_tree" ∷ "acceptance_spec_hash" ∷ "criterion_outcomes" ∷ "identity_versions" ∷ [],
  "review_outcome" ∷ "blocking_findings" ∷ [],
)
payload_fields decision_requested = some (
  "decision_id" ∷ "decision_type" ∷ [],
  "emitted_id" ∷ "question" ∷ "gate_id" ∷ "gate_mode" ∷ "subject_tree" ∷ "review_outcome"
      ∷ "blocking_findings" ∷ "proposal_id" ∷ "routed_reason" ∷ "blocking" ∷ [],
)
payload_fields decision_resolved = some (
  "decision_id" ∷ "decision_type" ∷ "disposition" ∷ [],
  "answer" ∷ "gate_id" ∷ "scope" ∷ "overridden_findings" ∷ "override_reason" ∷ "reason" ∷ [],
)
payload_fields decision_obsoleted = some ("decision_id" ∷ [], [])
payload_fields amendment_rejected = some (
  "proposal_id" ∷ "reason" ∷ "base_revision" ∷ "base_hash" ∷ "classifier_version"
      ∷ "identity_versions" ∷ [],
  "emitted_id" ∷ "condition" ∷ "typed_delta" ∷ "actual_impact" ∷ "patch_operations_hash"
      ∷ "patch_operations_hash_form" ∷ "error_location" ∷ "decision_id" ∷ [],
)
payload_fields execution_started =
    some ("interval_id" ∷ "phase" ∷ "wall_start" ∷ "remaining_at_start" ∷ [], [])
payload_fields execution_stopped = some (
  "interval_id" ∷ "reason" ∷ "charging" ∷ "charged_duration" ∷ [],
  "elapsed_checkpoint_event_id" ∷ "accounting_grace_ms" ∷ [],
)
payload_fields execution_elapsed_checkpointed =
    some ("interval_id" ∷ "cumulative_elapsed_ms" ∷ [], [])
payload_fields amendment_approval_prepared = some (
  "prepare_id" ∷ "proposal_id" ∷ "mode" ∷ "base_revision" ∷ "base_hash" ∷ "new_revision"
      ∷ "new_snapshot_hash" ∷ "new_snapshot_file_hash" ∷ "plan_record_hash" ∷ "target_attempt_ids"
      ∷ "observed_authority_epoch" ∷ "quiesce_silence_limit_ms" ∷ "classifier_version"
      ∷ "identity_versions" ∷ [],
  "decision_id" ∷ "envelope_class" ∷ [],
)
payload_fields amendment_quiesce_observed = some ("prepare_id" ∷ "sweep_round" ∷ [], [])
payload_fields amendment_approval_abandoned = some (
  "prepare_id" ∷ "proposal_id" ∷ "reason" ∷ "base_revision" ∷ "base_hash" ∷ "classifier_version"
      ∷ [],
  [],
)
payload_fields amendment_routed_human = some (
  "proposal_id" ∷ "reason" ∷ "decision_type" ∷ "blocking" ∷ "proposal_record_hash" ∷ "base_revision"
      ∷ "base_hash" ∷ "classifier_version" ∷ "decision_id" ∷ "typed_delta" ∷ "actual_impact"
      ∷ "identity_versions" ∷ [],
  "emitted_id" ∷ "envelope_evaluation" ∷ [],
)
payload_fields amendment_approved = some (
  "proposal_id" ∷ "mode" ∷ "base_revision" ∷ "base_hash" ∷ "classifier_version" ∷ "new_revision"
      ∷ "new_snapshot_hash" ∷ "new_snapshot_file_hash" ∷ "typed_delta" ∷ "actual_impact"
      ∷ "head_movements" ∷ "superseded_attempt_ids" ∷ "obsoleted_decision_ids" ∷ "finalization"
      ∷ "identity_versions" ∷ [],
  "emitted_id" ∷ "decision_id" ∷ "envelope_class" ∷ "candidate_id" ∷ "envelope_evaluation"
      ∷ "fenced_epoch" ∷ [],
)
payload_fields authority_granted =
    some
      ("authority_epoch" ∷ "owner_pid" ∷ "owner_start_identity" ∷ [], "reclaimed_from_epoch" ∷ [])
payload_fields cancel_requested = some ("requested_by" ∷ [], [])
payload_fields amendment_human_rejected = some (
  "proposal_id" ∷ "decision_id" ∷ "human_reason" ∷ "base_revision" ∷ "base_hash"
      ∷ "classifier_version" ∷ "identity_versions" ∷ [],
  [],
)
payload_fields composition_conflicted = some (
  "scope" ∷ "target_id" ∷ "composition_subject_hash" ∷ "contributors" ∷ "conflicted_paths"
      ∷ "composition_algorithm_version" ∷ "identity_versions" ∷ [],
  [],
)
payload_fields composition_failed = some (
  "scope" ∷ "target_id" ∷ "composition_subject_hash" ∷ "cause" ∷ "diagnostic" ∷ "contributors"
      ∷ "composition_algorithm_version" ∷ "identity_versions" ∷ [],
  "git_exit_code" ∷ [],
)
payload_fields apply_started = some (
  "txn_id" ∷ "candidate_id" ∷ "before_tree" ∷ "result_tree" ∷ "touched_paths" ∷ "recovery"
      ∷ "identity_versions" ∷ [],
  [],
)
payload_fields apply_completed =
    some ("txn_id" ∷ "candidate_id" ∷ "result_tree" ∷ "identity_versions" ∷ [], [])
payload_fields apply_failed = some (
  "txn_id" ∷ "candidate_id" ∷ "identity_versions" ∷ "failure_detail" ∷ "rollback_verified" ∷ [],
  [],
)
payload_fields apply_recovery_required =
    some (
      "txn_id" ∷ "candidate_id" ∷ "identity_versions" ∷ "failure_detail" ∷ [],
      "observed_tree" ∷ [],
    )
payload_fields apply_recovery_resolved =
    some ("txn_id" ∷ "candidate_id" ∷ "identity_versions" ∷ "outcome" ∷ [], [])
payload_fields score_promotion_started = some (
  "txn_id" ∷ "candidate_id" ∷ "identity_versions" ∷ "expected_root_file_hash"
      ∷ "target_snapshot_file_hash" ∷ "target_revision" ∷ [],
  [],
)
payload_fields score_promoted = some (
  "txn_id" ∷ "candidate_id" ∷ "identity_versions" ∷ "target_revision" ∷ "target_snapshot_file_hash"
      ∷ [],
  [],
)
payload_fields score_promotion_recovery_required = some (
  "txn_id" ∷ "candidate_id" ∷ "identity_versions" ∷ "failure_detail" ∷ [],
  "observed_root_file_hash" ∷ [],
)
payload_fields journal_tail_truncated = some ("truncated_seq" ∷ "discarded_bytes" ∷ [], [])
payload_fields log = some ("level" ∷ "message" ∷ [], [])
payload_fields progress = some ("message" ∷ [], [])
payload_fields (other _) = none
