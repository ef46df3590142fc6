-- ===== src/RunState/Handlers/Acceptance.antt =====
-- internal/runstate/apply.go: the acceptance and criterion events of `Apply`.
use partitur.Prelude.{
  String, Bool, true, false, ◌&&◌, ◌||◌, not, Option, none, some, List, [], ◌∷◌, str_eq, contains,
}
use partitur.Dict.{Dict, lookup, insert}
use partitur.Json.{
  Value, Fields, get, as_array, must_object, must_string, must_strings, must_array, string_field,
}
use partitur.RunState.Types.{
  CriterionLaunch, AttemptState, FindingReference, Acceptance, CriterionRecord,
}
use partitur.RunState.Event.{Event}
use partitur.RunState.Action.{
  Action, gets, some_or, ◌>>=◌, ◌>>◌, modify, raise_if, raise_unless, transition, invalid,
}
use partitur.RunState.Waiting.{flag}
use partitur.RunState.Guards.{require_attempt, is_verifying, put_attempt}
use partitur.RunState.Review.{evaluation_review}
use partitur.RunState.Decode.{criterion_launch, disposition, object_of, finding_references}

-- An entry of the map, or its zero value.
abbrev pub acceptance_or_zero : Option Acceptance → Acceptance
acceptance_or_zero none = record {
  started = false;
  evaluation_completed = false;
  subject_tree = "";
  spec_hash = "";
  planned_criterion_ids = [];
  criteria = [];
  review_outcome = "";
  blocking_findings = [];
}
acceptance_or_zero (some a) = a

abbrev pub criterion_or_zero : Option CriterionRecord → CriterionRecord
criterion_or_zero none = record {
  started = false;
  completed = false;
  spec_hash = "";
  subject_tree = "";
  outcome = "";
}
criterion_or_zero (some r) = r

abbrev acceptance_at : Event → Action Acceptance
acceptance_at e = gets (λ s. acceptance_or_zero (lookup e.attempt_id s.acceptances))

abbrev put_acceptance : Event → Acceptance → Action (Unit {0})
put_acceptance e a = modify (λ s. record s { acceptances = insert e.attempt_id a s.acceptances })

-- `case EventAcceptanceStarted`
unfoldable pub on_acceptance_started : Event → Fields → Action (Unit {0})
on_acceptance_started e p = do
  require_attempt is_verifying e
  verified ← gets (λ s. flag e.attempt_id s.verified_attempts)
  raise_unless verified (transition e "verification has not passed")
  existing ← acceptance_at e
  raise_if existing.started (transition e "acceptance already started")
  put_acceptance e (record {
    started = true;
    evaluation_completed = false;
    subject_tree = must_string p "subject_tree";
    spec_hash = must_string p "acceptance_spec_hash";
    planned_criterion_ids = must_strings p "planned_criterion_ids";
    criteria = [];
    review_outcome = "";
    blocking_findings = [];
  })

abbrev launches_or_empty : Option (Dict CriterionLaunch) → Dict CriterionLaunch
launches_or_empty none = []
launches_or_empty (some d) = d

abbrev put_launch : Event → Fields → CriterionLaunch → Action (Unit {0})
put_launch e p launch = modify (λ s. record s {
  criterion_launches =
      insert e.attempt_id
        (insert (must_string p "criterion_id") launch
          (launches_or_empty (lookup e.attempt_id s.criterion_launches)))
        s.criterion_launches;
})

-- `case EventCriterionStarted`
unfoldable pub on_criterion_started : Event → Fields → Action (Unit {0})
on_criterion_started e p = do
  require_attempt is_verifying e
  acceptance ← acceptance_at e
  raise_unless acceptance.started (transition e "acceptance is not started")
  raise_unless (contains acceptance.planned_criterion_ids (must_string p "criterion_id"))
      (invalid e "criterion_id is not in the acceptance plan")
  raise_unless (str_eq (must_string p "subject_tree") acceptance.subject_tree)
      (invalid e "criterion subject does not match acceptance")
  raise_if (criterion_or_zero (lookup (must_string p "criterion_id") acceptance.criteria)).started
      (transition e "criterion already started")
  launch ← some_or (criterion_launch p) (invalid e "criterion launch")
  put_acceptance e (record acceptance {
    criteria =
        insert (must_string p "criterion_id")
          (record {
            started = true;
            completed = false;
            spec_hash = must_string p "criterion_spec_hash";
            subject_tree = must_string p "subject_tree";
            outcome = "";
          })
          acceptance.criteria;
  })
  put_launch e p launch

-- `case EventCriterionCompleted`
unfoldable pub on_criterion_completed : Event → Fields → Action (Unit {0})
on_criterion_completed e p = do
  require_attempt is_verifying e
  acceptance ← acceptance_at e
  let found = criterion_or_zero (lookup (must_string p "criterion_id") acceptance.criteria)
  raise_if (not found.started || found.completed) (transition e "criterion has no open launch")
  raise_unless
      (str_eq found.spec_hash (must_string p "criterion_spec_hash")
        && str_eq found.subject_tree (must_string p "subject_tree"))
      (invalid e "criterion completion binding does not match its launch")
  put_acceptance e (record acceptance {
    criteria =
        insert (must_string p "criterion_id")
          (record found { completed = true; outcome = must_string p "outcome" })
          acceptance.criteria;
  })

-- `case EventAcceptanceFailed`
unfoldable pub on_acceptance_failed : Event → Fields → Action (Unit {0})
on_acceptance_failed e p = do
  attempt ← require_attempt is_verifying e
  acceptance ← acceptance_at e
  raise_unless (acceptance.started && str_eq acceptance.subject_tree (must_string p "subject_tree"))
      (invalid e "acceptance failure binding does not match its start")
  modify (
      put_attempt e.attempt_id (record attempt {
        state = AttemptState.failed;
        failure = some (record {
          kind = must_string p "reason";
          reason = "";
          disposition = disposition (must_object p "disposition");
        });
      }))

-- One outcome against the criterion that the plan has at its place.
unfoldable pub outcome_matches : Acceptance → String → Fields → Bool
outcome_matches a planned o =
    let found = criterion_or_zero (lookup (must_string o "criterion_id") a.criteria) in
    str_eq (must_string o "criterion_id") planned
    && found.completed
    && str_eq found.spec_hash (must_string o "criterion_spec_hash")
    && str_eq found.outcome "PASS"
    && str_eq (must_string o "outcome") "PASS"

-- `completedAcceptanceMatches`: the lists have one length, and match entry by entry.
unfoldable pub outcomes_match : Acceptance → List String → List Value → Bool
unfolding outcome_matches
outcomes_match a [] [] = true
outcomes_match a (planned ∷ ids) (v ∷ vs) =
    outcome_matches a planned (object_of v) && outcomes_match a ids vs
outcomes_match a _ _ = false

abbrev text_or_blank : Option String → String
text_or_blank none = ""
text_or_blank (some t) = t

abbrev findings_or : List FindingReference → Option (List Value) → List FindingReference
findings_or old none = old
findings_or old (some vs) = finding_references vs

abbrev array_field : Fields → String → Option (List Value)
array_field p name = elim (get p name) [ none ↦ none | some v ↦ as_array v ]

-- `case EventAcceptanceEvaluationCompleted`
unfoldable pub on_acceptance_evaluation_completed : Event → Fields → Action (Unit {0})
on_acceptance_evaluation_completed e p = do
  require_attempt is_verifying e
  acceptance ← acceptance_at e
  raise_if (not acceptance.started || acceptance.evaluation_completed)
      (transition e "acceptance has no open evaluation")
  raise_unless
      (str_eq acceptance.subject_tree (must_string p "subject_tree")
        && str_eq acceptance.spec_hash (must_string p "acceptance_spec_hash"))
      (invalid e "acceptance evaluation binding does not match its start")
  raise_unless
      (outcomes_match acceptance acceptance.planned_criterion_ids
        (must_array p "criterion_outcomes"))
      (invalid e "criterion outcomes do not match completed PASS results")
  raise_unless (evaluation_review p) (invalid e "review")
  put_acceptance e (record acceptance {
    evaluation_completed = true;
    review_outcome = text_or_blank (string_field p "review_outcome");
    blocking_findings =
        findings_or acceptance.blocking_findings (array_field p "blocking_findings");
  })
