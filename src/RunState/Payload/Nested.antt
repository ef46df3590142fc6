-- ===== src/RunState/Payload/Nested.antt =====
-- internal/runstate/apply.go: `validateNestedPayload` and the validators of the objects inside a
-- payload.
use partitur.Prelude.{
  String, Bool, true, ◌&&◌, ◌||◌, not, Option, none, some, List, [], ◌∷◌, ◌++◌, str_leb, is_some,
}
use Prim.Native.String.{◌++◌ as append}
use partitur.Json.{
  Value, Fields, has_field, as_object, must_string, must_array, must_object, string_field,
}
use partitur.RunState.Decode.{fields, named_types, optional_names, object_of}
use partitur.RunState.Payload.Types.{string_array, object_at}
use partitur.RunState.Handlers.Head.{head_movements}
use partitur.RunState.Event.{
  EventType, run_succeeded, adapter_probed, attempt_blocked, application_candidate_recorded,
  acceptance_evaluation_completed, attempt_started, amendment_approved, amendment_rejected,
  amendment_routed_human, decision_requested, decision_resolved, composition_conflicted,
  composition_failed,
}
use partitur.RunState.Payload.Shapes.{
  all_objects, array_at, contributors_valid, criterion_outcomes_valid, decision_request_valid,
  decision_resolution_valid, identity_versions_valid, if_present, typed_delta_valid,
}
use partitur.RunState.Payload.Raised.{
  actual_impact_valid, envelope_evaluation_valid, raised_decisions_valid,
}

abbrev feedback_names : List String
feedback_names = "previous_attempt_id" ∷ "kind" ∷ "artifact_instance_id" ∷ "content_hash" ∷ []

abbrev feedback_key : Fields → String
feedback_key f =
    append (must_string f "previous_attempt_id")
      (append "\0" (must_string f "artifact_instance_id"))

abbrev key_after : Option String → String → Bool
key_after none key = true
key_after (some previous) key = not (str_leb key previous)

-- `validateDeliveredFeedback`, with the key of the entry before.
unfoldable pub feedback_valid_from : Option String → List Value → Bool
feedback_valid_from previous [] = true
feedback_valid_from previous (v ∷ vs) =
    is_some (as_object v)
    && fields (object_of v) feedback_names []
    && named_types (object_of v) feedback_names [] [] [] []
    && key_after previous (feedback_key (object_of v))
    && feedback_valid_from (some (feedback_key (object_of v))) vs

abbrev resolution_names : List String
resolution_names = "decision_id" ∷ "kind" ∷ "digest" ∷ []

-- `validateDeliveredResolutions`
unfoldable pub delivered_resolutions_valid : List Value → Bool
unfolding all_objects
delivered_resolutions_valid =
    all_objects (λ r. fields r resolution_names [] && named_types r resolution_names [] [] [] [])

abbrev candidate_names : List String
candidate_names =
    "candidate_id" ∷ "base_tree" ∷ "result_tree" ∷ "candidate_composition_dependency_hash" ∷ []

-- `case EventRunSucceeded`
unfoldable pub run_succeeded_valid : Fields → Bool
unfolding contributors_valid
run_succeeded_valid p =
    let c = must_object p "candidate" in
    fields c ("ordered_change_sets" ∷ "contributors" ∷ candidate_names)
      ("composition_environment_hash" ∷ [])
    && named_types c (candidate_names ++ optional_names c ("composition_environment_hash" ∷ [])) []
        ("ordered_change_sets" ∷ "contributors" ∷ []) [] []
    && string_array c "ordered_change_sets"
    && contributors_valid (must_array c "contributors")
    && fields (must_object p "waiver") ("reason" ∷ []) []
    && is_some (string_field (must_object p "waiver") "reason")

abbrev capability_names : List String
capability_names = "repo_read" ∷ "repo_write" ∷ "shell" ∷ "network" ∷ "resumable_sessions" ∷ []

abbrev enforcement_names : List String
enforcement_names =
    "path_grants" ∷ "read_only" ∷ "network_grants" ∷ "shell_grants" ∷ "read_grants" ∷ []

-- `case EventAdapterProbed`
unfoldable pub adapter_probed_valid : Fields → Bool
unfolding feedback_valid_from delivered_resolutions_valid
adapter_probed_valid p =
    fields (must_object p "capabilities") capability_names []
    && named_types (must_object p "capabilities") [] [] [] capability_names []
    && fields (must_object p "enforcement") enforcement_names []
    && named_types (must_object p "enforcement") [] [] [] enforcement_names []
    && feedback_valid_from none (must_array p "delivered_feedback")
    && delivered_resolutions_valid (must_array p "delivered_resolutions")

abbrev subject_input_valid : Fields → Bool
subject_input_valid v =
    fields v ("instance_id" ∷ "hash" ∷ []) []
    && named_types v ("instance_id" ∷ "hash" ∷ []) [] [] [] []

abbrev subject_present_valid : Fields → Bool
subject_present_valid p =
    not (has_field p "review_subject_input")
    || is_some (object_at p "review_subject_input")
      && subject_input_valid (must_object p "review_subject_input")

-- `case EventAttemptStarted`
unfoldable pub attempt_started_valid : Fields → Bool
attempt_started_valid p =
    let grants = must_object p "granted_authority" in
    fields grants ("paths_rw" ∷ "paths_ro" ∷ "shell" ∷ "network" ∷ []) []
    && named_types grants [] [] ("paths_rw" ∷ "paths_ro" ∷ []) ("shell" ∷ "network" ∷ []) []
    && string_array grants "paths_rw"
    && string_array grants "paths_ro"
    && subject_present_valid p

-- `case EventAmendmentApproved`
unfoldable pub amendment_approved_valid : Fields → Bool
unfolding typed_delta_valid actual_impact_valid envelope_evaluation_valid
amendment_approved_valid p =
    typed_delta_valid (must_array p "typed_delta")
    && actual_impact_valid (must_object p "actual_impact")
    && is_some (head_movements (must_array p "head_movements"))
    && if_present envelope_evaluation_valid (object_at p "envelope_evaluation")

-- `case EventAmendmentRejected`
unfoldable pub amendment_rejected_valid : Fields → Bool
unfolding typed_delta_valid actual_impact_valid
amendment_rejected_valid p =
    if_present typed_delta_valid (array_at p "typed_delta")
    && if_present actual_impact_valid (object_at p "actual_impact")

-- `case EventAmendmentRoutedHuman`
unfoldable pub amendment_routed_valid : Fields → Bool
unfolding typed_delta_valid actual_impact_valid envelope_evaluation_valid
amendment_routed_valid p =
    typed_delta_valid (must_array p "typed_delta")
    && actual_impact_valid (must_object p "actual_impact")
    && if_present envelope_evaluation_valid (object_at p "envelope_evaluation")

-- The `switch` of `validateNestedPayload`.
unfoldable pub nested_case_valid : EventType → Fields → Bool
unfolding run_succeeded_valid adapter_probed_valid attempt_started_valid amendment_approved_valid
    amendment_rejected_valid amendment_routed_valid decision_request_valid decision_resolution_valid
    raised_decisions_valid contributors_valid criterion_outcomes_valid
nested_case_valid run_succeeded p = run_succeeded_valid p
nested_case_valid adapter_probed p = adapter_probed_valid p
nested_case_valid attempt_blocked p = raised_decisions_valid (must_array p "raised")
nested_case_valid application_candidate_recorded p =
    contributors_valid (must_array p "contributors")
nested_case_valid acceptance_evaluation_completed p =
    criterion_outcomes_valid (must_array p "criterion_outcomes")
nested_case_valid attempt_started p = attempt_started_valid p
nested_case_valid amendment_approved p = amendment_approved_valid p
nested_case_valid amendment_rejected p = amendment_rejected_valid p
nested_case_valid amendment_routed_human p = amendment_routed_valid p
nested_case_valid decision_requested p = decision_request_valid p
nested_case_valid decision_resolved p = decision_resolution_valid p
nested_case_valid composition_conflicted p = contributors_valid (must_array p "contributors")
nested_case_valid composition_failed p = contributors_valid (must_array p "contributors")
nested_case_valid _ p = true

-- `validateNestedPayload`
unfoldable pub payload_nested_valid : EventType → Fields → Bool
unfolding nested_case_valid identity_versions_valid
payload_nested_valid t p =
    if_present identity_versions_valid (object_at p "identity_versions") && nested_case_valid t p
