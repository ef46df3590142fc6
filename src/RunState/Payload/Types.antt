-- ===== src/RunState/Payload/Types.antt =====
-- internal/runstate/apply.go: `validatePayloadTypes`, the types of the fields of each payload.
use partitur.Prelude.{
  String, Bool, true, ◌&&◌, ◌||◌, Option, none, some, List, [], ◌∷◌, ◌++◌, str_eq, is_some,
  contains,
}
use partitur.Json.{Value, Fields, get, as_string, as_object, must_string, must_array}
use partitur.RunState.Decode.{fields, named_types, all_cast, optional_names}
use partitur.RunState.Event.{
  EventType, acceptance_evaluation_completed, acceptance_failed, acceptance_started, adapter_probed,
  amendment_approval_abandoned, amendment_approval_prepared, amendment_approved,
  amendment_human_rejected, amendment_quiesce_observed, amendment_rejected, amendment_routed_human,
  application_candidate_recorded, apply_completed, apply_failed, apply_recovery_required,
  apply_recovery_resolved, apply_started, artifact_recorded, attempt_blocked, attempt_failed,
  attempt_started, authority_granted, cancel_requested, change_set_recorded, composition_conflicted,
  composition_failed, criterion_completed, criterion_started, decision_obsoleted,
  decision_requested, decision_resolved, execution_elapsed_checkpointed, execution_started,
  execution_stopped, journal_tail_truncated, log, movement_failed, movement_succeeded,
  performer_completed, performer_selected, progress, run_cancelled, run_failed, run_started,
  run_succeeded, score_promoted, score_promotion_recovery_required, score_promotion_started,
}

-- The five lists of names that the source's `switch` fills.
pub record TypedNames : Type 0 where
  pub strings : List String
  pub objects : List String
  pub arrays : List String
  pub bools : List String
  pub integers : List String

abbrev no_names : TypedNames
no_names = record { strings = []; objects = []; arrays = []; bools = []; integers = [] }

-- The `switch` of `validatePayloadTypes`.
unfoldable pub payload_types : EventType → Fields → TypedNames
payload_types run_started _ = record no_names {
  strings =
      "base_commit" ∷ "base_tree" ∷ "score_hash" ∷ "score_file_hash" ∷ "resolved_cast_hash" ∷ [];
  objects = "identity_versions" ∷ [];
}
payload_types run_succeeded _ = record no_names {
  objects = "candidate" ∷ "waiver" ∷ "identity_versions" ∷ [];
}
payload_types run_failed _ = record no_names { strings = "reason" ∷ [] }
payload_types run_cancelled p = record no_names {
  arrays = "cancelled_movement_ids" ∷ "cancelled_attempt_ids" ∷ "obsoleted_decision_ids" ∷ [];
  integers = optional_names p ("fenced_epoch" ∷ []);
}
payload_types movement_failed p = record no_names {
  strings = ("reason" ∷ []) ++ optional_names p ("decision_id" ∷ "subject_tree" ∷ []);
  bools = "run_failed" ∷ [];
}
payload_types movement_succeeded p = record no_names {
  strings = optional_names p ("approved_change_set_id" ∷ []);
  objects = "identity_versions" ∷ [];
  arrays = "approved_artifact_instance_ids" ∷ [];
  bools = "run_succeeded" ∷ [];
}
payload_types performer_selected _ = record no_names {
  strings = "reason" ∷ "performer_id" ∷ "adapter_id" ∷ "model" ∷ [];
}
payload_types adapter_probed p = record no_names {
  strings = "adapter_version" ∷ "execution_dependency_hash" ∷ [];
  objects = "capabilities" ∷ "enforcement" ∷ "identity_versions" ∷ [];
  arrays =
      ("negotiated_features" ∷ "truncated_resolutions" ∷ "advisory_dimensions" ∷ [])
      ++ optional_names p ("delivered_resolutions" ∷ "delivered_feedback" ∷ []);
}
payload_types attempt_started p = record no_names {
  strings = optional_names p ("base_composition_hash" ∷ []);
  objects =
      ("adapter_process" ∷ "granted_authority" ∷ "identity_versions" ∷ [])
      ++ optional_names p ("review_subject_input" ∷ []);
  integers = "attempt_number" ∷ [];
}
payload_types performer_completed _ = record no_names { bools = "session_hint_stored" ∷ [] }
payload_types attempt_blocked _ = record no_names {
  arrays = "raised" ∷ "pending_decision_ids" ∷ [];
}
payload_types attempt_failed p = record no_names {
  strings = ("kind" ∷ []) ++ optional_names p ("reason" ∷ "detail" ∷ []);
  objects = "disposition" ∷ [];
}
payload_types artifact_recorded _ = record no_names {
  strings = "logical_output_id" ∷ "kind" ∷ "content_hash" ∷ "source_path" ∷ [];
  integers = "size_bytes" ∷ [];
}
payload_types change_set_recorded _ = record no_names {
  strings = "change_set_id" ∷ "base_tree" ∷ "result_tree" ∷ "commit" ∷ "ref" ∷ [];
  objects = "identity_versions" ∷ [];
}
payload_types application_candidate_recorded p = record no_names {
  strings =
      ("candidate_id" ∷ "base_tree" ∷ "result_tree" ∷ "candidate_composition_dependency_hash" ∷ [])
      ++ optional_names p ("composition_environment_hash" ∷ []);
  objects = "identity_versions" ∷ [];
  arrays = "ordered_change_sets" ∷ "contributors" ∷ [];
}
payload_types acceptance_started _ = record no_names {
  strings = "subject_tree" ∷ "acceptance_spec_hash" ∷ [];
  objects = "identity_versions" ∷ [];
  arrays = "planned_criterion_ids" ∷ [];
}
payload_types criterion_started p = record no_names {
  strings = "criterion_id" ∷ "criterion_spec_hash" ∷ "subject_tree" ∷ [];
  objects = ("identity_versions" ∷ []) ++ optional_names p ("criterion_process" ∷ []);
  bools = optional_names p ("spawn_failed" ∷ []);
}
payload_types criterion_completed p = record no_names {
  strings =
      ("criterion_id" ∷ "criterion_spec_hash" ∷ "subject_tree" ∷ "outcome" ∷ [])
      ++ optional_names p ("output_ref" ∷ "error_detail" ∷ []);
  objects = "identity_versions" ∷ [];
  arrays = optional_names p ("truncated_streams" ∷ []);
  integers = optional_names p ("exit_code" ∷ "duration_ms" ∷ []);
}
payload_types acceptance_failed p = record no_names {
  strings = ("reason" ∷ "subject_tree" ∷ []) ++ optional_names p ("failed_criterion_id" ∷ []);
  objects = "disposition" ∷ [];
}
payload_types acceptance_evaluation_completed p = record no_names {
  strings =
      ("subject_tree" ∷ "acceptance_spec_hash" ∷ []) ++ optional_names p ("review_outcome" ∷ []);
  objects = "identity_versions" ∷ [];
  arrays = ("criterion_outcomes" ∷ []) ++ optional_names p ("blocking_findings" ∷ []);
}
payload_types decision_requested p = record no_names {
  strings =
      ("decision_id" ∷ "decision_type" ∷ [])
      ++ optional_names p (
          "emitted_id" ∷ "question" ∷ "gate_id" ∷ "gate_mode" ∷ "subject_tree" ∷ "review_outcome"
          ∷ "proposal_id" ∷ "routed_reason" ∷ []);
  arrays = optional_names p ("blocking_findings" ∷ []);
  bools = optional_names p ("blocking" ∷ []);
}
payload_types decision_resolved p = record no_names {
  strings =
      ("decision_id" ∷ "decision_type" ∷ "disposition" ∷ [])
      ++ optional_names p ("answer" ∷ "gate_id" ∷ "override_reason" ∷ "reason" ∷ []);
  objects = optional_names p ("scope" ∷ []);
  arrays = optional_names p ("overridden_findings" ∷ []);
}
payload_types decision_obsoleted _ = record no_names { strings = "decision_id" ∷ [] }
payload_types amendment_rejected p = record no_names {
  strings =
      ("proposal_id" ∷ "reason" ∷ "base_hash" ∷ [])
      ++ optional_names p (
          "emitted_id" ∷ "condition" ∷ "patch_operations_hash" ∷ "patch_operations_hash_form"
          ∷ "error_location" ∷ "decision_id" ∷ []);
  objects = ("identity_versions" ∷ []) ++ optional_names p ("actual_impact" ∷ []);
  arrays = optional_names p ("typed_delta" ∷ []);
  integers = "base_revision" ∷ "classifier_version" ∷ [];
}
payload_types execution_started _ = record no_names {
  strings = "interval_id" ∷ "phase" ∷ "wall_start" ∷ [];
  integers = "remaining_at_start" ∷ [];
}
payload_types execution_stopped p = record no_names {
  strings =
      ("interval_id" ∷ "reason" ∷ "charging" ∷ [])
      ++ optional_names p ("elapsed_checkpoint_event_id" ∷ []);
  integers = ("charged_duration" ∷ []) ++ optional_names p ("accounting_grace_ms" ∷ []);
}
payload_types execution_elapsed_checkpointed _ = record no_names {
  strings = "interval_id" ∷ [];
  integers = "cumulative_elapsed_ms" ∷ [];
}
payload_types amendment_approval_prepared p = record no_names {
  strings =
      ("prepare_id" ∷ "proposal_id" ∷ "mode" ∷ "base_hash" ∷ "new_snapshot_hash"
        ∷ "new_snapshot_file_hash" ∷ "plan_record_hash" ∷ [])
      ++ optional_names p ("decision_id" ∷ "envelope_class" ∷ []);
  objects = "identity_versions" ∷ [];
  arrays = "target_attempt_ids" ∷ [];
  integers =
      "base_revision" ∷ "new_revision" ∷ "observed_authority_epoch" ∷ "quiesce_silence_limit_ms"
      ∷ "classifier_version" ∷ [];
}
payload_types amendment_quiesce_observed _ = record no_names {
  strings = "prepare_id" ∷ [];
  integers = "sweep_round" ∷ [];
}
payload_types amendment_approval_abandoned _ = record no_names {
  strings = "prepare_id" ∷ "proposal_id" ∷ "reason" ∷ "base_hash" ∷ [];
  integers = "base_revision" ∷ "classifier_version" ∷ [];
}
payload_types amendment_routed_human p = record no_names {
  strings =
      ("proposal_id" ∷ "reason" ∷ "decision_type" ∷ "proposal_record_hash" ∷ "base_hash"
        ∷ "decision_id" ∷ [])
      ++ optional_names p ("emitted_id" ∷ []);
  objects =
      ("actual_impact" ∷ "identity_versions" ∷ []) ++ optional_names p ("envelope_evaluation" ∷ []);
  arrays = "typed_delta" ∷ [];
  bools = "blocking" ∷ [];
  integers = "base_revision" ∷ "classifier_version" ∷ [];
}
payload_types amendment_approved p = record no_names {
  strings =
      ("proposal_id" ∷ "mode" ∷ "base_hash" ∷ "new_snapshot_hash" ∷ "new_snapshot_file_hash" ∷ [])
      ++ optional_names p ("emitted_id" ∷ "decision_id" ∷ "envelope_class" ∷ "candidate_id" ∷ []);
  objects =
      ("actual_impact" ∷ "identity_versions" ∷ []) ++ optional_names p ("envelope_evaluation" ∷ []);
  arrays =
      "typed_delta" ∷ "head_movements" ∷ "superseded_attempt_ids" ∷ "obsoleted_decision_ids" ∷ [];
  bools = "finalization" ∷ [];
  integers =
      ("base_revision" ∷ "classifier_version" ∷ "new_revision" ∷ [])
      ++ optional_names p ("fenced_epoch" ∷ []);
}
payload_types authority_granted p = record no_names {
  objects = "owner_start_identity" ∷ [];
  integers =
      ("authority_epoch" ∷ "owner_pid" ∷ []) ++ optional_names p ("reclaimed_from_epoch" ∷ []);
}
payload_types cancel_requested _ = record no_names { strings = "requested_by" ∷ [] }
payload_types amendment_human_rejected _ = record no_names {
  strings = "proposal_id" ∷ "decision_id" ∷ "human_reason" ∷ "base_hash" ∷ [];
  objects = "identity_versions" ∷ [];
  integers = "base_revision" ∷ "classifier_version" ∷ [];
}
payload_types composition_conflicted _ = record no_names {
  strings =
      "scope" ∷ "target_id" ∷ "composition_subject_hash" ∷ "composition_algorithm_version" ∷ [];
  objects = "identity_versions" ∷ [];
  arrays = "contributors" ∷ "conflicted_paths" ∷ [];
}
payload_types composition_failed p = record no_names {
  strings =
      "scope" ∷ "target_id" ∷ "composition_subject_hash" ∷ "cause" ∷ "diagnostic"
      ∷ "composition_algorithm_version" ∷ [];
  objects = "identity_versions" ∷ [];
  arrays = "contributors" ∷ [];
  integers = optional_names p ("git_exit_code" ∷ []);
}
payload_types apply_started _ = record no_names {
  strings = "txn_id" ∷ "candidate_id" ∷ "before_tree" ∷ "result_tree" ∷ [];
  objects = "recovery" ∷ "identity_versions" ∷ [];
  arrays = "touched_paths" ∷ [];
}
payload_types apply_completed _ = record no_names {
  strings = "txn_id" ∷ "candidate_id" ∷ "result_tree" ∷ [];
  objects = "identity_versions" ∷ [];
}
payload_types apply_failed _ = record no_names {
  strings = "txn_id" ∷ "candidate_id" ∷ "failure_detail" ∷ [];
  objects = "identity_versions" ∷ [];
  bools = "rollback_verified" ∷ [];
}
payload_types apply_recovery_required p = record no_names {
  strings =
      ("txn_id" ∷ "candidate_id" ∷ "failure_detail" ∷ [])
      ++ optional_names p ("observed_tree" ∷ []);
  objects = "identity_versions" ∷ [];
}
payload_types apply_recovery_resolved _ = record no_names {
  strings = "txn_id" ∷ "candidate_id" ∷ "outcome" ∷ [];
  objects = "identity_versions" ∷ [];
}
payload_types score_promotion_started _ = record no_names {
  strings =
      "txn_id" ∷ "candidate_id" ∷ "expected_root_file_hash" ∷ "target_snapshot_file_hash" ∷ [];
  objects = "identity_versions" ∷ [];
  integers = "target_revision" ∷ [];
}
payload_types score_promoted _ = record no_names {
  strings = "txn_id" ∷ "candidate_id" ∷ "target_snapshot_file_hash" ∷ [];
  objects = "identity_versions" ∷ [];
  integers = "target_revision" ∷ [];
}
payload_types score_promotion_recovery_required p = record no_names {
  strings =
      ("txn_id" ∷ "candidate_id" ∷ "failure_detail" ∷ [])
      ++ optional_names p ("observed_root_file_hash" ∷ []);
  objects = "identity_versions" ∷ [];
}
payload_types journal_tail_truncated _ = record no_names {
  integers = "truncated_seq" ∷ "discarded_bytes" ∷ [];
}
payload_types log _ = record no_names { strings = "level" ∷ "message" ∷ [] }
payload_types progress _ = record no_names { strings = "message" ∷ [] }
payload_types _ _ = no_names

-- The arrays that hold objects.
abbrev object_arrays : List String
object_arrays =
    "typed_delta" ∷ "head_movements" ∷ "contributors" ∷ "criterion_outcomes" ∷ "raised"
    ∷ "blocking_findings" ∷ "overridden_findings" ∷ "delivered_resolutions" ∷ "delivered_feedback"
    ∷ []

abbrev all_strings : List Value → Bool
all_strings [] = true
all_strings (v ∷ vs) = is_some (as_string v) && all_strings vs

-- `stringArray`, for a field that is an array.
unfoldable pub string_array : Fields → String → Bool
string_array fs name = all_strings (must_array fs name)

unfoldable pub string_arrays : Fields → List String → Bool
unfolding string_array
string_arrays fs [] = true
string_arrays fs (n ∷ ns) = (contains object_arrays n || string_array fs n) && string_arrays fs ns

abbrev is_charge : String → Bool
is_charge c = str_eq c "quality_retry" || str_eq c "fallback" || str_eq c "none"

-- The checks of a disposition, if there is one.
unfoldable pub disposition_typed : Option Fields → Bool
disposition_typed none = true
disposition_typed (some d) =
    fields d ("charged" ∷ "movement_terminal" ∷ []) ("terminal_reason" ∷ [])
    && named_types d ("charged" ∷ []) [] [] ("movement_terminal" ∷ []) []
    && all_cast as_string d (optional_names d ("terminal_reason" ∷ []))
    && is_charge (must_string d "charged")

abbrev pub object_at : Fields → String → Option Fields
object_at fs name = elim (get fs name) [ none ↦ none | some v ↦ as_object v ]

-- `validatePayloadTypes`
unfoldable pub payload_typed : EventType → Fields → Bool
unfolding payload_types string_arrays disposition_typed
payload_typed t p =
    let n = payload_types t p in
    named_types p n.strings n.objects n.arrays n.bools n.integers
    && string_arrays p n.arrays
    && disposition_typed (object_at p "disposition")
