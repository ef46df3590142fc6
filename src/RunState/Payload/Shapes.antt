-- ===== src/RunState/Payload/Shapes.antt =====
-- internal/runstate/apply.go: the nested shapes that the payloads of several events share, and
-- those of decisions.
use partitur.Prelude.{
  String, Bool, true, false, ◌&&◌, ◌||◌, not, Option, none, some, List, [], ◌∷◌, str_eq, is_empty,
  is_some, bool_ne, if◌then◌else◌,
}
use partitur.Json.{
  Value, Fields, end, field, get, has_field, as_array, as_object, as_number, must_string,
  must_array, must_object, string_field,
}
use partitur.RunState.Decode.{fields, named_types, optional_names, is_safe}
use partitur.RunState.Review.{finding_pairs}

-- Every entry of an array is an object that passes a test.
unfoldable pub all_objects : (Fields → Bool) → List Value → Bool
all_objects test [] = true
all_objects test (v ∷ vs) =
    elim (as_object v) [ none ↦ false | some fs ↦ test fs ] && all_objects test vs

abbrev pub if_present {ℓ} : {A : Type ℓ} → (A → Bool) → Option A → Bool
if_present test none = true
if_present test (some a) = test a

abbrev pub array_at : Fields → String → Option (List Value)
array_at fs name = elim (get fs name) [ none ↦ none | some v ↦ as_array v ]

abbrev safe_number : Value → Bool
safe_number v = elim (as_number v) [ none ↦ false | some n ↦ is_safe n ]

unfoldable pub all_safe : Fields → Bool
all_safe end = true
all_safe (field k v fs) = safe_number v && all_safe fs

-- `validateIdentityVersions`
unfoldable pub identity_versions_valid : Fields → Bool
unfolding all_safe
identity_versions_valid v =
    fields v ("canonical_encoding" ∷ "projections" ∷ []) ("classifier" ∷ "composition" ∷ [])
    && named_types v [] ("projections" ∷ []) [] []
        ("canonical_encoding" ∷ optional_names v ("classifier" ∷ "composition" ∷ []))
    && all_safe (must_object v "projections")

abbrev contributor_names : List String
contributor_names = "movement_id" ∷ "change_set_id" ∷ []

-- `validateContributors`
unfoldable pub contributors_valid : List Value → Bool
unfolding all_objects
contributors_valid =
    all_objects (λ c. fields c contributor_names [] && named_types c contributor_names [] [] [] [])

abbrev outcome_names : List String
outcome_names = "criterion_id" ∷ "criterion_spec_hash" ∷ "outcome" ∷ []

-- `validateCriterionOutcomes`
unfoldable pub criterion_outcomes_valid : List Value → Bool
unfolding all_objects
criterion_outcomes_valid = all_objects (λ c.
    fields c outcome_names []
    && named_types c outcome_names [] [] [] []
    && str_eq (must_string c "outcome") "PASS")

abbrev hash_names : List String
hash_names = "before_hash" ∷ "after_hash" ∷ []

-- `validateTypedDelta`
unfoldable pub typed_delta_valid : List Value → Bool
unfolding all_objects
typed_delta_valid = all_objects (λ c.
    fields c ("selector" ∷ "operation" ∷ []) hash_names
    && named_types c ("selector" ∷ "operation" ∷ optional_names c hash_names) [] [] [] [])

-- The question branch and the others of `validateDecisionRequest`.
abbrev is_gate_mode : String → Bool
is_gate_mode m = str_eq m "always" || str_eq m "on_contested"

abbrev is_review_outcome : String → Bool
is_review_outcome o = str_eq o "CLEAN" || str_eq o "CONTESTED"

abbrev gate_request_valid : Fields → Bool
gate_request_valid p =
    fields p
      ("decision_id" ∷ "decision_type" ∷ "gate_id" ∷ "gate_mode" ∷ "subject_tree"
        ∷ "blocking_findings" ∷ [])
      ("review_outcome" ∷ [])
    && is_gate_mode (must_string p "gate_mode")
    && if_present is_review_outcome (string_field p "review_outcome")
    && finding_pairs (must_array p "blocking_findings")

-- `validateDecisionRequest`
unfoldable pub decision_request_valid : Fields → Bool
decision_request_valid p =
    let t = must_string p "decision_type" in
    if str_eq t "question"
    then fields p ("decision_id" ∷ "decision_type" ∷ "question" ∷ []) ("emitted_id" ∷ [])
    else if str_eq t "human_gate"
    then gate_request_valid p
    else if str_eq t "amendment"
    then fields p
        ("decision_id" ∷ "decision_type" ∷ "proposal_id" ∷ "routed_reason" ∷ "blocking" ∷ [])
        ("emitted_id" ∷ [])
    else str_eq t "finalization"
      && fields p ("decision_id" ∷ "decision_type" ∷ "proposal_id" ∷ "routed_reason" ∷ [])
          ("emitted_id" ∷ [])
      && str_eq (must_string p "routed_reason") "draft_phase"

abbrev override_valid : Fields → Bool
override_valid p =
    let overridden = not (is_empty (must_array p "overridden_findings")) in
    not (bool_ne overridden (has_field p "override_reason"))
    && not (has_field p "override_reason" && str_eq (must_string p "override_reason") "")

abbrev gate_reason_valid : Fields → Bool
gate_reason_valid p =
    not (has_field p "reason")
    || str_eq (must_string p "disposition") "rejected" && not (str_eq (must_string p "reason") "")

abbrev gate_resolution_valid : Fields → Bool
gate_resolution_valid p =
    (str_eq (must_string p "disposition") "approved"
      || str_eq (must_string p "disposition") "rejected")
    && fields p
        ("decision_id" ∷ "decision_type" ∷ "disposition" ∷ "gate_id" ∷ "scope"
          ∷ "overridden_findings" ∷ [])
        ("override_reason" ∷ "reason" ∷ [])
    && fields (must_object p "scope") ("subject_tree" ∷ []) []
    && is_some (string_field (must_object p "scope") "subject_tree")
    && finding_pairs (must_array p "overridden_findings")
    && not (
        str_eq (must_string p "disposition") "rejected"
        && not (is_empty (must_array p "overridden_findings")))
    && override_valid p
    && gate_reason_valid p

-- `validateDecisionResolution`
unfoldable pub decision_resolution_valid : Fields → Bool
decision_resolution_valid p =
    let t = must_string p "decision_type" in
    if str_eq t "question"
    then str_eq (must_string p "disposition") "answered"
      && fields p ("decision_id" ∷ "decision_type" ∷ "disposition" ∷ "answer" ∷ []) []
    else str_eq t "human_gate" && gate_resolution_valid p
