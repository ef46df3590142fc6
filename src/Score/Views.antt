-- ===== src/Score/Views.antt =====
-- internal/score/access.go: the views of a compiled score. A view is a value, so that no caller can
-- change the score through it.
use partitur.Prelude.{
  ℕ, String, Bool, true, false, not, Option, none, some, List, [], ◌∷◌, map, ℤ, pos, str_leb,
  is_empty, is_some, if◌then◌else◌, bits64,
}
use partitur.Canonical.{sorted_strings}
use partitur.Score.Document.{
  Question, ApplyGate, Expectation, Verification, Part, Output, HardCriterion, ReviewCriterion,
  AcceptanceRules, Movement, Score,
}

pub record PartView : Type 0 where
  pub id : String
  pub capabilities : List String
  pub read_only : Bool

pub record OutputView : Type 0 where
  pub artifact_id : String
  pub kind : String

pub record ArtifactCriterionView : Type 0 where
  pub source_index : ℕ
  pub id : String
  pub artifact_id : String
  pub expected_hash : String

pub record RunCriterionView : Type 0 where
  pub source_index : ℕ
  pub id : String
  pub argv : List String
  pub timeout_min : ℤ

pub record ReviewCriterionView : Type 0 where
  pub source_index : ℕ
  pub id : String
  pub findings : String
  pub rubrics : List String

pub record AcceptanceView : Type 0 where
  pub artifact_criteria : List ArtifactCriterionView
  pub run_criteria : List RunCriterionView
  pub review_criteria : List ReviewCriterionView
  pub has_review_criteria : Bool
  pub human_gate : String

pub record MovementView : Type 0 where
  pub id : String
  pub part_id : String
  pub phase : String
  pub needs : List String
  pub grants : List String
  pub may_propose : Bool
  pub instruction : String
  pub inputs : List String
  pub outputs : List OutputView
  pub acceptance : AcceptanceView

pub record ExecutionView : Type 0 where
  pub goal : String
  pub context : String
  pub context_present : Bool
  pub verification_expectation : String
  pub verification_expectation_present : Bool
  pub final_movement_id : String
  pub gate_waived : Bool
  pub waiver_reason : String
  pub apply_gate_require : List String
  pub apply_gate_predicates : List String

pub record ResolvedQuestionView : Type 0 where
  pub id : String
  pub question : String
  pub resolution : String
  pub resolution_present : Bool

pub record PolicyView : Type 0 where
  pub allowed_paths : List String
  pub side_effects : List String
  pub active_wall_clock_min : ℤ
  pub retries_per_movement : ℤ
  pub amendment_auto : String

abbrev or_blank : Option String → String
or_blank none = ""
or_blank (some s) = s

abbrev is_true : Option Bool → Bool
is_true none = false
is_true (some b) = b

-- `Revision`
abbrev revision : Score → ℕ
revision s = bits64 s.revision.truncated

-- `DraftInterviewMovement`
abbrev draft_interview_movement : Score → String
draft_interview_movement s = elim s.draft [ none ↦ "" | some d ↦ d.interview_movement ]

module _ {A : Type 0} (key : A → String) where
  unfoldable pub insert_by : A → List A → List A
  insert_by x [] = x ∷ []
  insert_by x (y ∷ ys) = if str_leb (key x) (key y) then x ∷ y ∷ ys else y ∷ insert_by x ys

  -- `slices.SortFunc` by a text; elements with the same text keep their order here.
  unfoldable pub sort_by : List A → List A
  sort_by [] = []
  sort_by (x ∷ xs) = insert_by x (sort_by xs)

abbrev part_view : String × Part → PartView
part_view (id, p) = record {
  id = id;
  capabilities = sorted_strings p.capabilities;
  read_only = p.read_only;
}

-- `Parts`
unfoldable pub parts : Score → List PartView
parts s = sort_by (λ (p : PartView). p.id) (map part_view s.parts)

abbrev output_view : Output → OutputView
output_view o = record { artifact_id = o.id; kind = o.kind }

-- The criteria without an artifact, and those with one.
unfoldable pub run_criteria : List HardCriterion → List RunCriterionView
run_criteria [] = []
run_criteria (c ∷ cs) =
    let rest = run_criteria cs in
    if is_some c.artifact
    then rest
    else record {
      source_index = c.source_index;
      id = c.id;
      argv = c.run;
      timeout_min = elim c.timeout_min [ none ↦ pos 0 | some t ↦ t.truncated ];
    }
      ∷ rest

unfoldable pub artifact_criteria : List HardCriterion → List ArtifactCriterionView
artifact_criteria [] = []
artifact_criteria (c ∷ cs) =
    let rest = artifact_criteria cs in
    elim c.artifact [
      | none ↦ rest
      | some id ↦
          record {
            source_index = c.source_index;
            id = c.id;
            artifact_id = id;
            expected_hash = or_blank c.expected_hash;
          }
          ∷ rest
    ]

abbrev review_view : ReviewCriterion → ReviewCriterionView
review_view c = record {
  source_index = c.source_index;
  id = c.id;
  findings = c.findings;
  rubrics = sorted_strings c.rubric;
}

abbrev acceptance_view : AcceptanceRules → AcceptanceView
acceptance_view a = record {
  artifact_criteria = artifact_criteria a.hard;
  run_criteria = run_criteria a.hard;
  review_criteria = map review_view a.review;
  has_review_criteria = not (is_empty a.review);
  human_gate = a.human_gate;
}

-- `movementView`
unfoldable pub movement_view : Movement → MovementView
movement_view m = record {
  id = m.id;
  part_id = m.part_id;
  phase = or_blank m.phase;
  needs = sorted_strings m.needs;
  grants = sorted_strings m.grants;
  may_propose = m.may_propose;
  instruction = m.instruction;
  inputs = sorted_strings m.inputs;
  outputs = map output_view m.outputs;
  acceptance = acceptance_view m.acceptance;
}

-- `Movements`
unfoldable pub movements : Score → List MovementView
movements s = map movement_view s.movements

abbrev goal_only : Score → ExecutionView
goal_only s = record {
  goal = s.goal;
  context = or_blank s.context;
  context_present = is_some s.context;
  verification_expectation = "";
  verification_expectation_present = false;
  final_movement_id = "";
  gate_waived = false;
  waiver_reason = "";
  apply_gate_require = [];
  apply_gate_predicates = [];
}

abbrev with_gate : ApplyGate → ExecutionView → ExecutionView
with_gate g v =
    let read = record v { apply_gate_require = g.require; apply_gate_predicates = g.predicates } in
    elim g.waived [
      | none ↦ read
      | some w ↦ record read { gate_waived = w; waiver_reason = or_blank g.reason }
    ]

abbrev with_expectation : Expectation → ExecutionView → ExecutionView
with_expectation e v =
    let read = record v {
      verification_expectation = or_blank e.intent;
      verification_expectation_present = is_some e.intent;
    } in
    elim e.apply_gate [ none ↦ read | some g ↦ with_gate g read ]

abbrev with_verification : Verification → ExecutionView → ExecutionView
with_verification x v =
    let read = record v { final_movement_id = or_blank x.final_movement } in
    elim x.expectation [ none ↦ read | some e ↦ with_expectation e read ]

-- `Execution`
unfoldable pub execution : Score → ExecutionView
execution s = elim s.verification [
  | none ↦ goal_only s
  | some x ↦ with_verification x (goal_only s)
]

unfoldable pub resolved : List Question → List ResolvedQuestionView
resolved [] = []
resolved (q ∷ qs) =
    let rest = resolved qs in
    elim q.resolution [
      | some text ↦
          record { id = q.id; question = q.question; resolution = text; resolution_present = true }
          ∷ rest
      | none ↦
          if is_true q.waived
          then record {
            id = q.id;
            question = q.question;
            resolution = "";
            resolution_present = false;
          }
            ∷ rest
          else rest
    ]

-- `ResolvedQuestions`
unfoldable pub resolved_questions : Score → List ResolvedQuestionView
resolved_questions s = resolved (sort_by (λ (q : Question). q.id) s.open_questions)

-- `EffectivePolicy`
unfoldable pub effective_policy : Score → PolicyView
effective_policy s = record {
  allowed_paths = sorted_strings s.policy.allowed_paths;
  side_effects = sorted_strings s.policy.side_effects;
  active_wall_clock_min = s.policy.budget.active_wall_clock_min.truncated;
  retries_per_movement = s.policy.budget.retries_per_movement.truncated;
  amendment_auto = s.policy.amendment_auto;
}
