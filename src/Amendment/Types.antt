-- ===== src/Amendment/Types.antt =====
-- internal/amendment/evaluator.go: what an evaluation is given, and its outcome.
use partitur.Prelude.{ℕ, String, Bool, Option, List}
use partitur.Json.{Value}
use partitur.RunState.State.{State}
use partitur.Score.Document.{Score}
use partitur.Score.Impact.{Impact}

pub data Kind : Type 0 where
  rejected routed approved : Kind

pub data EnvelopeClass : Type 0 where
  narrow_paths narrow_grants budget_decrease : EnvelopeClass

-- The contributor of a candidate's composition, of internal/workspace.
pub record CompositionContributor : Type 0 where
  pub movement_id : String
  pub change_set_id : String
  pub base_tree : String
  pub result_tree : String

-- `attempts_changed` is the method `Changed` of the collected attempts, of internal/executiondep;
-- `none` is its error.
pub record Input : Type 0 where
  pub state : State
  pub base : Option Score
  pub base_revision : ℕ
  pub base_hash : String
  pub operations : List Value
  pub claimed_impact : Impact
  pub has_claimed_impact : Bool
  pub attempts_changed : Score → State → Option Bool
  pub requires_decision : Bool
  pub human_decision : Bool
  pub finalization : Bool

-- The empty class and a nil score are `none`.
pub record Outcome : Type 0 where
  pub kind : Kind
  pub reason : String
  pub condition : String
  pub class : Option EnvelopeClass
  pub guard_pass : Bool
  pub patched : Option Score
  pub impact : Option Impact

-- What the evaluation calls: the projection of a score and its canonical text, the patch, the
-- compiler, the comparison, and the hash of a composition. `none` is an error.
pub record Toolchain : Type 0 where
  pub projection : Score → Option Value
  pub encode : Value → Option String
  pub apply_patch : Value → List Value → Option Value
  pub compile_value : Value → Option Score
  pub compare : Score → Score → Option Impact
  pub composition_hash : String → List CompositionContributor → String → Option String
