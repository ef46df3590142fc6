-- ===== src/RunState/Payload/Values.antt =====
-- internal/runstate/apply.go: `validatePayloadValues`, what the values of each payload must be.
use partitur.Prelude.{
  String, Bool, true, false, ◌&&◌, ◌||◌, not, Option, none, some, List, [], ◌∷◌, pos, leb, leb_ℤ,
  str_eq, str_leb, ◌==◌, is_empty, bool_ne, contains, equal, is_sorted, has_repeat, sort,
  if◌then◌else◌,
}
use Prim.Native.String.{len}
use partitur.Json.{
  Value, Fields, has_field, as_string, must_string, must_strings, must_array, must_object,
  must_bool, must_int, must_uint,
}
use partitur.RunState.Decode.{object_of}
use partitur.RunState.Event.{
  EventType, run_cancelled, movement_succeeded, movement_failed, attempt_blocked, run_succeeded,
  amendment_rejected, amendment_routed_human, amendment_human_rejected, composition_conflicted,
  composition_failed, application_candidate_recorded, performer_selected, adapter_probed,
  amendment_approval_prepared, amendment_approved, execution_started, execution_stopped,
  execution_elapsed_checkpointed, criterion_completed, cancel_requested, apply_failed,
  apply_recovery_resolved,
}

abbrev sorted_unique : List String → Bool
sorted_unique ids = is_sorted ids && not (has_repeat ids)

-- `sortedStringFields`
unfoldable pub sorted_string_fields : Fields → List String → Bool
sorted_string_fields p [] = true
sorted_string_fields p (n ∷ ns) = sorted_unique (must_strings p n) && sorted_string_fields p ns

abbrev movement_failure_reasons : List String
movement_failure_reasons =
    "retries_exhausted" ∷ "fallbacks_exhausted" ∷ "budget_exhausted" ∷ "human_gate_rejected"
    ∷ "grant_denied" ∷ "protocol_error" ∷ "composition_unresolvable" ∷ "composition_failed" ∷ []

abbrev amendment_rejection_reasons : List String
amendment_rejection_reasons =
    "run_terminal" ∷ "run_cancelling" ∷ "stale" ∷ "patch_error" ∷ "invalid_score" ∷ "reserved_field"
    ∷ "no_op" ∷ "claim_narrower" ∷ "executed_dependency_changed" ∷ "candidate_incompatible" ∷ []

abbrev candidate_incompatible_conditions : List String
candidate_incompatible_conditions =
    "composition_changed" ∷ "verification_episode_finished" ∷ "verification_mode_changed" ∷ []

abbrev pub amendment_route_reasons : List String
amendment_route_reasons =
    "draft_phase" ∷ "auto_disabled" ∷ "unclassified_change" ∷ "recognized_non_monotone"
    ∷ "runtime_scope_started" ∷ "requires_decision" ∷ []

abbrev composition_scopes : List String
composition_scopes = "movement" ∷ "candidate" ∷ []

abbrev composition_failure_causes : List String
composition_failure_causes =
    "repository_unusable" ∷ "inspection_failed" ∷ "driver_rejected" ∷ "spawn_failed" ∷ "git_exit"
    ∷ "git_signalled" ∷ "output_unusable" ∷ "status_unobtainable" ∷ []

abbrev performer_reasons : List String
performer_reasons =
    "initial" ∷ "quality_retry" ∷ "fallback" ∷ "revision_restart" ∷ "decision_resume" ∷ []

-- `validEnvelopeClass`
unfoldable pub valid_envelope_class : String → Bool
valid_envelope_class c =
    str_eq c "NARROW_PATHS" || str_eq c "NARROW_GRANTS" || str_eq c "BUDGET_DECREASE"

-- `case EventMovementFailed`
unfoldable pub movement_failure_valid : Fields → Bool
movement_failure_valid p =
    not (
      bool_ne (str_eq (must_string p "reason") "human_gate_rejected")
        (has_field p "decision_id" && has_field p "subject_tree"))
    && contains movement_failure_reasons (must_string p "reason")

unfoldable pub blocking_ids : List Value → List String
blocking_ids [] = []
blocking_ids (v ∷ vs) =
    let rest = blocking_ids vs in
    if must_bool (object_of v) "blocking"
    then must_string (object_of v) "decision_id" ∷ rest
    else rest

-- `validatePendingDecisionIDs`
unfoldable pub pending_ids_valid : Fields → Bool
unfolding blocking_ids sorted_string_fields
pending_ids_valid p =
    sorted_string_fields p ("pending_decision_ids" ∷ [])
    && equal (must_strings p "pending_decision_ids") (sort (blocking_ids (must_array p "raised")))

-- `validateCandidateCompositionEnvironment`
unfoldable pub composition_environment_valid : Fields → Bool
composition_environment_valid c =
    if is_empty (must_array c "contributors")
    then not (has_field c "composition_environment_hash")
    else has_field c "composition_environment_hash"
      && not (str_eq (must_string c "composition_environment_hash") "")

abbrev is_hash_form : String → Bool
is_hash_form f = str_eq f "partitur/patch-operations" || str_eq f "raw-byte-sha256"

-- `case EventAmendmentRejected`
unfoldable pub amendment_rejection_valid : Fields → Bool
amendment_rejection_valid p =
    let incompatible = str_eq (must_string p "reason") "candidate_incompatible" in
    let condition = has_field p "condition" in
    let typed_delta = has_field p "typed_delta" in
    let patch_hash = has_field p "patch_operations_hash" in
    contains amendment_rejection_reasons (must_string p "reason")
    && not (bool_ne incompatible condition)
    && (not condition || contains candidate_incompatible_conditions (must_string p "condition"))
    && not (bool_ne typed_delta (has_field p "actual_impact"))
    && not (bool_ne patch_hash (has_field p "error_location"))
    && bool_ne typed_delta patch_hash
    && not (bool_ne patch_hash (has_field p "patch_operations_hash_form"))
    && (not patch_hash || is_hash_form (must_string p "patch_operations_hash_form"))

abbrev is_routed_type : String → Bool
is_routed_type t = str_eq t "amendment" || str_eq t "finalization"

-- `case EventAmendmentRoutedHuman`
unfoldable pub amendment_route_valid : Fields → Bool
amendment_route_valid p =
    contains amendment_route_reasons (must_string p "reason")
    && is_routed_type (must_string p "decision_type")
    && (not (str_eq (must_string p "decision_type") "finalization")
        || must_bool p "blocking" && str_eq (must_string p "reason") "draft_phase")

-- `case EventCompositionFailed`
unfoldable pub composition_failure_valid : Fields → Bool
composition_failure_valid p =
    let cause = must_string p "cause" in
    contains composition_scopes (must_string p "scope")
    && contains composition_failure_causes cause
    && not (
        bool_ne (str_eq cause "git_exit" || str_eq cause "output_unusable")
          (has_field p "git_exit_code"))
    && leb (len (must_string p "diagnostic")) 4096

-- `case EventAmendmentApprovalPrepared`
unfoldable pub prepare_valid : Fields → Bool
unfolding valid_envelope_class sorted_string_fields
prepare_valid p =
    (if str_eq (must_string p "mode") "auto"
      then not (has_field p "decision_id") && valid_envelope_class (must_string p "envelope_class")
      else str_eq (must_string p "mode") "human"
        && not (has_field p "envelope_class")
        && not (str_eq (must_string p "decision_id") ""))
    && must_uint p "quiesce_silence_limit_ms" == 60_000
    && sorted_string_fields p ("target_attempt_ids" ∷ [])

-- `case EventAmendmentApproved`
unfoldable pub approval_valid : Fields → Bool
unfolding valid_envelope_class sorted_string_fields
approval_valid p =
    (if str_eq (must_string p "mode") "auto"
      then not (has_field p "decision_id")
        && not (has_field p "envelope_evaluation")
        && valid_envelope_class (must_string p "envelope_class")
      else str_eq (must_string p "mode") "human"
        && not (has_field p "envelope_class")
        && not (str_eq (must_string p "decision_id") "")
        && has_field p "envelope_evaluation")
    && (not (must_bool p "finalization") || str_eq (must_string p "mode") "human")
    && sorted_string_fields p ("superseded_attempt_ids" ∷ "obsoleted_decision_ids" ∷ [])

-- `case EventExecutionStopped`
unfoldable pub stop_valid : Fields → Bool
stop_valid p =
    let clamped = str_eq (must_string p "charging") "clamped" in
    leb_ℤ (pos 0) (must_int p "charged_duration")
    && not (bool_ne clamped (has_field p "accounting_grace_ms"))
    && not (has_field p "elapsed_checkpoint_event_id" && not clamped)

abbrev is_stream : String → Bool
is_stream t = str_eq t "stdout" || str_eq t "stderr"

abbrev stream_after : String → Option String → Bool
stream_after previous none = false
stream_after previous (some t) = is_stream t && not (str_leb t previous)

abbrev text_of : Option String → String
text_of none = ""
text_of (some t) = t

unfoldable pub streams_after : String → List Value → Bool
streams_after previous [] = true
streams_after previous (v ∷ vs) =
    stream_after previous (as_string v) && streams_after (text_of (as_string v)) vs

abbrev is_outcome : String → Bool
is_outcome t = str_eq t "PASS" || str_eq t "FAIL" || str_eq t "ERROR"

-- `case EventCriterionCompleted`
unfoldable pub criterion_valid : Fields → Bool
unfolding streams_after
criterion_valid p =
    let streams = must_array p "truncated_streams" in
    is_outcome (must_string p "outcome")
    && not (bool_ne (str_eq (must_string p "outcome") "ERROR") (has_field p "error_detail"))
    && (not (has_field p "truncated_streams") || not (is_empty streams) && streams_after "" streams)

-- `validatePayloadValues`
unfoldable pub payload_values_valid : EventType → Fields → Bool
unfolding sorted_string_fields movement_failure_valid pending_ids_valid
    composition_environment_valid amendment_rejection_valid amendment_route_valid
    composition_failure_valid prepare_valid approval_valid stop_valid criterion_valid
payload_values_valid run_cancelled p =
    sorted_string_fields p
      ("cancelled_movement_ids" ∷ "cancelled_attempt_ids" ∷ "obsoleted_decision_ids" ∷ [])
payload_values_valid movement_succeeded p =
    sorted_string_fields p ("approved_artifact_instance_ids" ∷ [])
payload_values_valid movement_failed p = movement_failure_valid p
payload_values_valid attempt_blocked p = pending_ids_valid p
payload_values_valid run_succeeded p = composition_environment_valid (must_object p "candidate")
payload_values_valid amendment_rejected p = amendment_rejection_valid p
payload_values_valid amendment_routed_human p = amendment_route_valid p
payload_values_valid amendment_human_rejected p = not (str_eq (must_string p "human_reason") "")
payload_values_valid composition_conflicted p =
    sorted_string_fields p ("conflicted_paths" ∷ [])
    && contains composition_scopes (must_string p "scope")
payload_values_valid composition_failed p = composition_failure_valid p
payload_values_valid application_candidate_recorded p = composition_environment_valid p
payload_values_valid performer_selected p = contains performer_reasons (must_string p "reason")
payload_values_valid adapter_probed p =
    sorted_string_fields p
      ("negotiated_features" ∷ "truncated_resolutions" ∷ "advisory_dimensions" ∷ [])
payload_values_valid amendment_approval_prepared p = prepare_valid p
payload_values_valid amendment_approved p = approval_valid p
payload_values_valid execution_started p = leb_ℤ (pos 0) (must_int p "remaining_at_start")
payload_values_valid execution_stopped p = stop_valid p
payload_values_valid execution_elapsed_checkpointed p =
    leb_ℤ (pos 0) (must_int p "cumulative_elapsed_ms")
payload_values_valid criterion_completed p = criterion_valid p
payload_values_valid cancel_requested p = str_eq (must_string p "requested_by") "cli"
payload_values_valid apply_failed p = must_bool p "rollback_verified"
payload_values_valid apply_recovery_resolved p = str_eq (must_string p "outcome") "rolled_back"
payload_values_valid _ p = true
