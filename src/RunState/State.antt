-- ===== src/RunState/State.antt =====
-- internal/runstate/types.go and state.go: the projection's state and its seed. A state is a value
-- here, so `cloneState`, which keeps the caller's maps and slices apart, has nothing to do.
use partitur.Prelude.{
  ℕ, String, Bool, true, false, ◌&&◌, not, Option, none, some, List, [], ◌∷◌, ◌++◌, ℤ, pos, str_eq,
  if◌then◌else◌,
}
use partitur.Dict.{Dict, insert, has}
use partitur.Json.{Fields}
use partitur.RunState.Types.{
  RunLifecycle, MovementState, MovementSeed, ScoreHead, Authority, PendingPrepare, PendingDecision,
  HumanGateResolution, ResolvedDecision, RoutedAmendment, ExecutionInterval, Attempt, AdapterLaunch,
  AdapterObservation, ArtifactRecord, ChangeSetRecord, ApplicationCandidate, ApplicationState,
  ApplicationProjection, PromotionState, PromotionProjection, MovementResult, CriterionLaunch,
  Acceptance, SourceEnvelope,
}
use partitur.RunState.Event.{EventType}

pub record BlockedQuestionSource : Type 0 where
  pub envelope : SourceEnvelope
  pub emitted_id : String
  pub question : String

-- The source keeps the payload's JSON text.
pub record BlockedProposalRouteSource : Type 0 where
  pub envelope : SourceEnvelope
  pub payload : Fields

-- `appliedEvent`
pub record AppliedEvent : Type 0 where
  pub type : EventType
  pub sequence : ℕ
  pub terminalizes_run : Bool

pub record State : Type 0 where
  pub run : RunLifecycle
  pub movements : Dict MovementState
  pub movement_order : List String
  pub repo_write_movements : Dict Bool
  pub dependency_movements : Dict Bool
  pub final_movements : Dict Bool
  pub attempts : Dict Attempt
  pub score_head : ScoreHead
  pub authority : Authority
  pub pending_prepare : Option PendingPrepare
  pub open_execution : Option ExecutionInterval
  pub consumed_budget_ms : ℤ
  pub adapter_launches : Dict AdapterLaunch
  pub adapter_observations : Dict AdapterObservation
  pub artifacts : Dict ArtifactRecord
  pub change_sets : Dict ChangeSetRecord
  pub verified_attempts : Dict Bool
  pub movement_results : Dict MovementResult
  pub application_candidate : Option ApplicationCandidate
  pub application : ApplicationProjection
  pub promotion : PromotionProjection
  pub criterion_launches : Dict (Dict CriterionLaunch)
  pub acceptances : Dict Acceptance
  pub pending_decisions : Dict PendingDecision
  pub resolved_decisions : List ResolvedDecision
  pub resolved_human_gates : Dict HumanGateResolution
  pub routed_amendments : Dict RoutedAmendment
  pub cancel_requested : Bool
  pub question_sources : Dict BlockedQuestionSource
  pub proposal_route_sources : Dict BlockedProposalRouteSource
  pub rejected_amendments : Dict String
  pub applied_events : Dict AppliedEvent

abbrev pub empty_state : State
empty_state = record {
  run = RunLifecycle.not_started;
  movements = [];
  movement_order = [];
  repo_write_movements = [];
  dependency_movements = [];
  final_movements = [];
  attempts = [];
  score_head = record { revision = 0; semantic_hash = ""; file_hash = "" };
  authority = record { epoch = 0; owner = none };
  pending_prepare = none;
  open_execution = none;
  consumed_budget_ms = pos 0;
  adapter_launches = [];
  adapter_observations = [];
  artifacts = [];
  change_sets = [];
  verified_attempts = [];
  movement_results = [];
  application_candidate = none;
  application = record {
    state = ApplicationState.not_applied;
    transaction_id = "";
    candidate_id = "";
    reason = "";
  };
  promotion = record {
    state = PromotionState.not_promoted;
    transaction_id = "";
    candidate_id = "";
    reason = "";
  };
  criterion_launches = [];
  acceptances = [];
  pending_decisions = [];
  resolved_decisions = [];
  resolved_human_gates = [];
  routed_amendments = [];
  cancel_requested = false;
  question_sources = [];
  proposal_route_sources = [];
  rejected_amendments = [];
  applied_events = [];
}

abbrev pub mark : Bool → String → Dict Bool → Dict Bool
mark set id d = if set then insert id true d else d

-- The body of the loop of `NewState`, on a seed that passes its checks.
unfoldable pub add_seed : State → MovementSeed → State
add_seed s m = record s {
  movements = insert m.id m.initial s.movements;
  movement_order = s.movement_order ++ m.id ∷ [];
  repo_write_movements = mark m.repo_write m.id s.repo_write_movements;
  dependency_movements = mark m.has_dependencies m.id s.dependency_movements;
  final_movements = mark m.is_final m.id s.final_movements;
}

abbrev is_initial : MovementState → Bool
is_initial MovementState.pending = true
is_initial MovementState.inapplicable = true
is_initial _ = false

-- The three checks of `NewState`, which panics if one fails.
unfoldable pub seed_accepted : State → MovementSeed → Bool
seed_accepted s m = not (str_eq m.id "") && is_initial m.initial && not (has m.id s.movements)

unfoldable pub seed_from : State → List MovementSeed → Option State
unfolding add_seed seed_accepted
seed_from s [] = some s
seed_from s (m ∷ ms) =
    let rest = seed_from (add_seed s m) ms in if seed_accepted s m then rest else none

-- `none` is a panic.
unfoldable pub new_state : List MovementSeed → Option State
unfolding seed_from
new_state = seed_from empty_state

-- `InitialMovementState`
unfoldable pub initial_movement_state : String → String → MovementState
initial_movement_state status phase =
    if str_eq status "finalized" && str_eq phase "draft"
    then MovementState.inapplicable
    else MovementState.pending
