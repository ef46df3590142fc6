-- ===== src/RunState/Payload/Raised.antt =====
-- internal/runstate/apply.go: the decisions that a blocked attempt raises, with the evaluation of
-- an amendment and its impact.
use partitur.Prelude.{
  String, Bool, true, false, ◌&&◌, ◌||◌, not, none, some, List, [], ◌∷◌, str_eq, is_some, bool_ne,
  contains, if◌then◌else◌,
}
use partitur.Json.{
  Value, Fields, has_field, as_object, must_string, must_array, must_object, must_bool,
  string_field,
}
use partitur.RunState.Decode.{fields, named_types, optional_names, object_of}
use partitur.RunState.Payload.Types.{string_array, object_at}
use partitur.RunState.Payload.Values.{valid_envelope_class, amendment_route_reasons}
use partitur.RunState.Payload.Shapes.{
  all_objects, array_at, identity_versions_valid, if_present, typed_delta_valid,
}

-- `validateEnvelopeEvaluation`
unfoldable pub envelope_evaluation_valid : Fields → Bool
envelope_evaluation_valid v =
    fields v ("guard_passed" ∷ []) ("class" ∷ "guard_failure_reason" ∷ [])
    && named_types v (optional_names v ("class" ∷ "guard_failure_reason" ∷ [])) [] []
        ("guard_passed" ∷ []) []
    && if_present valid_envelope_class (string_field v "class")
    && bool_ne (must_bool v "guard_passed") (has_field v "guard_failure_reason")

abbrev change_names : List String
change_names = "added" ∷ "removed" ∷ []

abbrev change_valid : Fields → Bool
change_valid c =
    fields c change_names []
    && named_types c [] [] change_names [] []
    && string_array c "added"
    && string_array c "removed"

abbrev grant_change_valid : Fields → Bool
grant_change_valid c =
    fields c ("movement_id" ∷ change_names) []
    && named_types c ("movement_id" ∷ []) [] change_names [] []
    && string_array c "added"
    && string_array c "removed"

abbrev budget_change_valid : Fields → Bool
budget_change_valid c =
    fields c ("from" ∷ "to" ∷ []) [] && named_types c [] [] [] [] ("from" ∷ "to" ∷ [])

abbrev budget_changes_valid : Fields → List String → Bool
budget_changes_valid b [] = true
budget_changes_valid b (n ∷ ns) = budget_change_valid (must_object b n) && budget_changes_valid b ns

abbrev budget_names : List String
budget_names = "active_wall_clock_min" ∷ "retries_per_movement" ∷ []

-- The `authority` part of `validateActualImpact`.
unfoldable pub authority_impact_valid : Fields → Bool
unfolding all_objects
authority_impact_valid a =
    fields a ("allowed_paths" ∷ "grants" ∷ "side_effects" ∷ []) []
    && change_valid (must_object a "allowed_paths")
    && change_valid (must_object a "side_effects")
    && is_some (array_at a "grants")
    && all_objects grant_change_valid (must_array a "grants")

-- `validateActualImpact`
unfoldable pub actual_impact_valid : Fields → Bool
unfolding typed_delta_valid authority_impact_valid
actual_impact_valid v =
    fields v ("score_changes" ∷ "authority" ∷ "budget" ∷ []) []
    && named_types v [] ("authority" ∷ "budget" ∷ []) ("score_changes" ∷ []) [] []
    && typed_delta_valid (must_array v "score_changes")
    && authority_impact_valid (must_object v "authority")
    && fields (must_object v "budget") [] budget_names
    && budget_changes_valid (must_object v "budget")
        (optional_names (must_object v "budget") budget_names)

-- `validateBlockedProposalRoute`
unfoldable pub proposal_route_valid : Fields → Bool
unfolding typed_delta_valid actual_impact_valid identity_versions_valid envelope_evaluation_valid
proposal_route_valid r =
    fields r
      ("proposal_record_hash" ∷ "reason" ∷ "decision_type" ∷ "base_revision" ∷ "base_hash"
        ∷ "classifier_version" ∷ "typed_delta" ∷ "actual_impact" ∷ "identity_versions" ∷ [])
      ("envelope_evaluation" ∷ [])
    && named_types r ("proposal_record_hash" ∷ "reason" ∷ "decision_type" ∷ "base_hash" ∷ [])
        ("actual_impact" ∷ "identity_versions" ∷ optional_names r ("envelope_evaluation" ∷ []))
        ("typed_delta" ∷ []) [] ("base_revision" ∷ "classifier_version" ∷ [])
    && contains amendment_route_reasons (must_string r "reason")
    && str_eq (must_string r "decision_type") "amendment"
    && typed_delta_valid (must_array r "typed_delta")
    && actual_impact_valid (must_object r "actual_impact")
    && identity_versions_valid (must_object r "identity_versions")
    && if_present envelope_evaluation_valid (object_at r "envelope_evaluation")

abbrev question_valid : Fields → Bool
question_valid d =
    fields d ("decision_id" ∷ "emitted_id" ∷ "kind" ∷ "question" ∷ "blocking" ∷ []) []
    && named_types d ("decision_id" ∷ "emitted_id" ∷ "question" ∷ []) [] [] ("blocking" ∷ []) []

abbrev route_present_valid : Fields → Bool
route_present_valid d =
    not (has_field d "route")
    || is_some (object_at d "route") && proposal_route_valid (must_object d "route")

abbrev proposal_valid : Fields → Bool
proposal_valid d =
    fields d ("decision_id" ∷ "emitted_id" ∷ "kind" ∷ "proposal_id" ∷ "blocking" ∷ [])
      ("route" ∷ [])
    && named_types d ("decision_id" ∷ "emitted_id" ∷ "proposal_id" ∷ []) [] [] ("blocking" ∷ []) []
    && route_present_valid d

-- The body of the loop of `validateRaisedDecisions`, with the identifiers seen so far.
unfoldable pub raised_decision_valid : List String → Fields → Bool
unfolding proposal_route_valid
raised_decision_valid seen d =
    (if str_eq (must_string d "kind") "question"
      then question_valid d
      else str_eq (must_string d "kind") "proposal" && proposal_valid d)
    && not (contains seen (must_string d "decision_id"))

unfoldable pub raised_from : List String → List Value → Bool
unfolding raised_decision_valid
raised_from seen [] = true
raised_from seen (v ∷ vs) =
    elim (as_object v) [ none ↦ false | some d ↦ raised_decision_valid seen d ]
    && raised_from (must_string (object_of v) "decision_id" ∷ seen) vs

-- `validateRaisedDecisions`
unfoldable pub raised_decisions_valid : List Value → Bool
unfolding raised_from
raised_decisions_valid = raised_from []
