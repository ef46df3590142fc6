-- ===== src/Score/Document.antt =====
-- internal/score/types.go: a compiled score. A `float64` is a JSON number, and a map of parts is an
-- association list.
use partitur.Prelude.{ℕ, String, Bool, Option, List}
use partitur.Dict.{Dict}
use partitur.Json.{Number, Fields}

pub record Draft : Type 0 where
  pub interview_movement : String

pub record Question : Type 0 where
  pub source_index : ℕ
  pub id : String
  pub question : String
  pub resolution : Option String
  pub waived : Option Bool

pub record ApplyGate : Type 0 where
  pub require : List String
  pub require_set : Bool
  pub waived : Option Bool
  pub reason : Option String
  pub predicates : List String

pub record Expectation : Type 0 where
  pub intent : Option String
  pub apply_gate : Option ApplyGate

pub record Verification : Type 0 where
  pub expectation : Option Expectation
  pub final_movement : Option String

pub record Part : Type 0 where
  pub capabilities : List String
  pub read_only : Bool
  pub valid : Bool

pub record Output : Type 0 where
  pub source_index : ℕ
  pub id : String
  pub kind : String

pub record HardCriterion : Type 0 where
  pub source_index : ℕ
  pub id : String
  pub id_set : Bool
  pub run : List String
  pub artifact : Option String
  pub timeout_min : Option Number
  pub expected_hash : Option String

pub record ReviewCriterion : Type 0 where
  pub source_index : ℕ
  pub id : String
  pub id_set : Bool
  pub findings : String
  pub rubric : List String

-- `acceptance`
pub record AcceptanceRules : Type 0 where
  pub hard : List HardCriterion
  pub review : List ReviewCriterion
  pub human_gate : String

pub record Movement : Type 0 where
  pub source_index : ℕ
  pub id : String
  pub phase : Option String
  pub part_id : String
  pub needs : List String
  pub grants : List String
  pub instruction : String
  pub inputs : List String
  pub outputs : List Output
  pub outputs_complete : Bool
  pub may_propose : Bool
  pub may_propose_set : Bool
  pub acceptance : AcceptanceRules

pub record Budget : Type 0 where
  pub active_wall_clock_min : Number
  pub retries_per_movement : Number

-- `policy`, with its amendment's only field.
pub record Policy : Type 0 where
  pub allowed_paths : List String
  pub side_effects : List String
  pub budget : Budget
  pub amendment_auto : String

-- `document`, and `Score`, which wraps it; `invalid_pointers` is a set.
pub record Score : Type 0 where
  pub version : String
  pub name : String
  pub revision : Number
  pub status : String
  pub goal : String
  pub context : Option String
  pub draft : Option Draft
  pub open_questions : List Question
  pub verification : Option Verification
  pub parts : Dict Part
  pub movements : List Movement
  pub policy : Policy
  pub extensions : Option Fields
  pub parts_complete : Bool
  pub movements_complete : Bool
  pub movement_ids_complete : Bool
  pub movement_phases_complete : Bool
  pub outputs_complete : Bool
  pub defaults_applied : Bool
  pub invalid_pointers : List String
