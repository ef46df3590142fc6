-- ===== src/Amendment/Scenarios.antt =====
-- A score whose allowed paths are narrowed, and how the evaluator takes it.
use partitur.Prelude.{◌≡◌, refl, true, false, none, some, List, [], ◌∷◌, pos, String, ◌↔◌}
use partitur.Json.{Number, Fields, field, end, Value, str, obj, num}
use partitur.RunState.Types.{RunLifecycle, AttemptState}
use partitur.RunState.State.{State, empty_state}
use partitur.Score.Document.{Score, Movement}
use partitur.Score.Views.{movements}
use partitur.Score.Impact.{Impact}
use partitur.Score.Compare.{compare}
use partitur.Amendment.Types.{Kind, EnvelopeClass, Input, Outcome, Toolchain}
use partitur.Amendment.Scope.{movement_started, movement_or_downstream_started}
use partitur.Amendment.Evaluate.{evaluate}
use partitur.Amendment.Narrow.{Unattended, evaluate-Unattended}
use partitur.Amendment.Authority.{NoBroader, evaluate-NoBroader}
use partitur.Score.Kept.{KeepsField}
use partitur.Amendment.Reserved.{apply_patch-KeepsField}
use partitur.Amendment.Closed.{Downstream}
use partitur.Amendment.Downstream.{movement_or_downstream_started_iff}

abbrev number : Number
number = record { truncated = pos 1; fraction = 0 }

abbrev movement_of : String → List String → Movement
movement_of id needs = record {
  source_index = 0;
  id = id;
  phase = none;
  part_id = "p1";
  needs = needs;
  grants = "repo_write" ∷ [];
  instruction = "write";
  inputs = [];
  outputs = [];
  outputs_complete = true;
  may_propose = false;
  may_propose_set = true;
  acceptance = record { hard = []; review = []; human_gate = "none" };
}

abbrev score_with : List String → Score
score_with paths = record {
  version = "1";
  name = "s";
  revision = number;
  status = "finalized";
  goal = "g";
  context = none;
  draft = none;
  open_questions = [];
  verification = none;
  parts = [];
  movements = movement_of "m1" [] ∷ movement_of "m2" ("m1" ∷ []) ∷ [];
  policy = record {
    allowed_paths = paths;
    side_effects = [];
    budget = record { active_wall_clock_min = number; retries_per_movement = number };
    amendment_auto = "envelope";
  };
  extensions = none;
  parts_complete = true;
  movements_complete = true;
  movement_ids_complete = true;
  movement_phases_complete = true;
  outputs_complete = true;
  defaults_applied = true;
  invalid_pointers = [];
}

abbrev narrowing : Impact
narrowing = record {
  score_changes =
      record {
        selector = "/policy/allowed_paths";
        operation = "replace";
        before_hash = "h";
        after_hash = "h";
      }
      ∷ [];
  allowed_paths = record { added = []; removed = "docs" ∷ [] };
  grants = [];
  side_effects = record { added = []; removed = [] };
  active_wall_clock_min = none;
  retries_per_movement = none;
}

abbrev run_state : State
run_state = record empty_state {
  run = RunLifecycle.running;
  score_head = record { revision = 1; semantic_hash = "h1"; file_hash = "f1" };
}

abbrev hash : String → Value → String
hash selector v = "h"

abbrev tools : Toolchain
tools = record {
  projection = λ s. some (str "before");
  encode = λ v. elim v [ str t ↦ some t | _ ↦ none ];
  apply_patch = λ v operations. some (str "after");
  compile_value = λ v. some (score_with ("src" ∷ []));
  compare = compare hash;
  composition_hash = λ base contributors environment. none;
}

abbrev narrowing_input : Input
narrowing_input = record {
  state = run_state;
  base = some (score_with ("docs" ∷ "src" ∷ []));
  base_revision = 1;
  base_hash = "h1";
  operations = [];
  claimed_impact = narrowing;
  has_claimed_impact = true;
  attempts_changed = λ s state. some false;
  requires_decision = false;
  human_decision = false;
  finalization = false;
}

abbrev narrowed : Outcome
narrowed = record {
  kind = Kind.approved;
  reason = "";
  condition = "";
  class = some EnvelopeClass.narrow_paths;
  guard_pass = true;
  patched = some (score_with ("src" ∷ []));
  impact = some narrowing;
}

run_narrowing : evaluate tools narrowing_input ≡ some narrowed
unfolding evaluate partitur.Amendment.Evaluate.evaluate_base partitur.RunState.Types.terminal
    partitur.Amendment.Evaluate.touches_reserved partitur.Amendment.Evaluate.evaluate_patch
    partitur.Amendment.Evaluate.evaluate_patched partitur.Amendment.Evaluate.evaluate_impact
    partitur.Score.Impact.claim_contains partitur.Score.Impact.is_subset
    partitur.Score.Impact.grants_contain partitur.Score.Impact.budget_contains
    partitur.Amendment.Candidate.candidate_condition partitur.Amendment.Evaluate.evaluate_policy
    partitur.Score.Views.effective_policy partitur.Amendment.Classes.any_selects
    partitur.Amendment.Classes.classify partitur.Amendment.Classes.only_paths
    partitur.Amendment.Classes.changes_only partitur.Amendment.Classes.guard_passes
    partitur.Amendment.Classes.no_started_loses_paths partitur.Amendment.Scope.any_attempt_of
    partitur.Canonical.insert_canonical partitur.Canonical.sorted_strings partitur.Canonical.units
    partitur.Canonical.units_leb partitur.Score.Views.movement_view movements
    partitur.Score.Compare.compare partitur.Score.Compare.impact_between
    partitur.Score.Projection.projection_value partitur.Score.Projection.project_policy
    partitur.Score.Projection.items_of partitur.Json.items partitur.Json.get
    partitur.Json.must_object partitur.Json.must_array partitur.Json.must_strings
    partitur.Json.must_int partitur.Json.strings_of partitur.Score.Impact.difference
    partitur.Score.Impact.append_grant_change partitur.Score.Compare.budget_change
    partitur.Score.Compare.new_grants partitur.Score.Compare.kept_grants
    partitur.Score.Compare.sort_grants partitur.Score.Compare.insert_grant
    partitur.Score.Changes.score_changes partitur.Score.Changes.sort_changes
    partitur.Score.Changes.insert_change partitur.Score.Changes.policy_changes
    partitur.Score.Changes.movement_changes partitur.Score.Changes.compare_fields
    partitur.Score.Changes.compare_field partitur.Score.Changes.compare_id_objects
    partitur.Score.Changes.kept_objects partitur.Score.Changes.new_objects
    partitur.Score.Changes.compare_id_array partitur.Score.Changes.reordered
    partitur.Score.Changes.compare_movement partitur.Score.Changes.kept_movements
    partitur.Score.Changes.add_objects partitur.Score.Changes.order_of
    partitur.Score.Changes.objects partitur.Dict.insert partitur.Dict.lookup partitur.Json.value_eq
    partitur.Json.must_string partitur.Json.names partitur.Score.Projection.project_questions
    partitur.Score.Views.sort_by partitur.Score.Projection.project_parts
    partitur.Score.Projection.project_movements partitur.Score.Projection.project_movement
    partitur.Score.Projection.project_acceptance partitur.Score.Projection.project_verification
run_narrowing = refl

evaluate-Unattended_example : Unattended tools narrowing_input narrowed
evaluate-Unattended_example =
    evaluate-Unattended tools narrowing_input narrowed run_narrowing refl refl

evaluate-NoBroader_example : NoBroader (score_with ("docs" ∷ "src" ∷ [])) (score_with ("src" ∷ []))
evaluate-NoBroader_example =
    evaluate-NoBroader hash tools narrowing_input narrowed (score_with ("docs" ∷ "src" ∷ []))
      (score_with ("src" ∷ [])) run_narrowing refl refl refl refl

abbrev started_state : State
started_state = record run_state {
  attempts =
      (
        "a1",
        record {
          movement_id = "m2";
          score_revision = 1;
          state = AttemptState.running;
          failure = none;
        },
      )
      ∷ [];
}

movement_or_downstream_started_iff_example :
    (movement_or_downstream_started (movements (score_with [])) started_state "m1" ≡ true) ↔ (
      (x : String) × Downstream (movements (score_with [])) "m1" x
      × (movement_started started_state x ≡ true))
movement_or_downstream_started_iff_example =
    movement_or_downstream_started_iff (movements (score_with [])) started_state "m1"

abbrev score_fields : String → Fields
score_fields goal =
    field "status" (str "draft") (field "revision" (num number) (field "goal" (str goal) end))

abbrev new_goal : List Value
new_goal =
    obj (field "op" (str "replace") (field "path" (str "/goal") (field "value" (str "h") end))) ∷ []

apply_patch-KeepsField_example :
    KeepsField "status" (score_fields "g") (obj (score_fields "h"))
    × KeepsField "revision" (score_fields "g") (obj (score_fields "h"))
unfolding partitur.Amendment.Evaluate.touches_reserved partitur.Amendment.Evaluate.reserved_pointer
    partitur.Json.get partitur.Json.string_field partitur.Score.Patch.apply_patch
    partitur.Score.Patch.apply_operation partitur.Score.Patch.at_parent
    partitur.Score.Patch.replace_in partitur.Score.Patch.set_field
    partitur.Score.Pointer.patch_pointer partitur.Score.Pointer.unescape_all
    partitur.Score.Pointer.unescape partitur.Score.Pointer.split
apply_patch-KeepsField_example =
    apply_patch-KeepsField new_goal (score_fields "g") (obj (score_fields "h")) refl refl
