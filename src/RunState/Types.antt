-- ===== src/RunState/Types.antt =====
-- internal/runstate/types.go: the values of the journal projection. The identifier types are
-- strings there; a map that a key is missing from answers Go's zero value, and here `none`.
use partitur.Prelude.{ℕ, String, Bool, true, false, Option, List, ℤ}
use partitur.Dict.{Dict}
use partitur.Json.{Value}

pub data RunLifecycle : Type 0 where
  not_started running waiting_human succeeded failed cancelled : RunLifecycle

unfoldable pub terminal : RunLifecycle → Bool
terminal RunLifecycle.succeeded = true
terminal RunLifecycle.failed = true
terminal RunLifecycle.cancelled = true
terminal _ = false

pub data MovementState : Type 0 where
  pending ready running waiting_human succeeded failed cancelled inapplicable : MovementState

pub data AttemptState : Type 0 where
  starting running verifying completed blocked failed cancelled superseded : AttemptState

-- `AttemptState.terminal`
unfoldable pub ended : AttemptState → Bool
ended AttemptState.completed = true
ended AttemptState.blocked = true
ended AttemptState.failed = true
ended AttemptState.cancelled = true
ended AttemptState.superseded = true
ended _ = false

-- `MovementSeed`, and `HeadMovement`, which has the same fields.
pub record MovementSeed : Type 0 where
  pub id : String
  pub initial : MovementState
  pub repo_write : Bool
  pub has_dependencies : Bool
  pub is_final : Bool

pub data StartIdentity : Type 0 where
  linux : String → String → StartIdentity
  darwin : ℕ → ℕ → StartIdentity

pub record ProcessIdentity : Type 0 where
  pub pid : ℤ
  pub session_id : ℤ
  pub start : StartIdentity

pub record ScoreHead : Type 0 where
  pub revision : ℕ
  pub semantic_hash : String
  pub file_hash : String

pub record AuthorityOwner : Type 0 where
  pub pid : ℤ
  pub start : StartIdentity

pub record Authority : Type 0 where
  pub epoch : ℕ
  pub owner : Option AuthorityOwner

pub record PendingPrepare : Type 0 where
  pub id : String
  pub proposal_id : String
  pub mode : String
  pub decision_id : Option String
  pub envelope_class : String
  pub base_head : ScoreHead
  pub new_head : ScoreHead
  pub plan_record_hash : String
  pub observed_authority_epoch : ℕ
  pub quiesce_silence_limit_ms : ℕ
  pub prepared_at : String
  pub latest_quiesce_round : ℕ
  pub latest_quiesce_observed_at : String
  pub target_attempt_ids : List String
  pub classifier_version : ℕ
  pub identity_versions : Option Value

pub record FindingReference : Type 0 where
  pub artifact_instance_id : String
  pub finding_id : String

pub record PendingDecision : Type 0 where
  pub id : String
  pub type : String
  pub blocking : Bool
  pub movement_id : String
  pub attempt_id : String
  pub score_revision : ℕ
  pub proposal_id : String
  pub gate_id : String
  pub subject_tree : String
  pub blocking_findings : List FindingReference

-- `Scope` holds a subject tree and nothing else.
pub record HumanGateResolution : Type 0 where
  pub decision_id : String
  pub movement_id : String
  pub attempt_id : String
  pub score_revision : ℕ
  pub gate_id : String
  pub scope_subject_tree : String
  pub disposition : String
  pub overridden_findings : List FindingReference
  pub override_reason : String
  pub reason : String

pub record ResolvedDecision : Type 0 where
  pub decision_id : String
  pub movement_id : String
  pub score_revision : ℕ
  pub sequence : ℕ
  pub kind : String
  pub answer : String
  pub reason : String

pub record RoutedAmendment : Type 0 where
  pub proposal_id : String
  pub decision_id : String
  pub decision_type : String
  pub blocking : Bool
  pub base_revision : ℕ
  pub base_hash : String
  pub classifier_version : ℕ

pub record ExecutionInterval : Type 0 where
  pub id : String
  pub phase : String
  pub wall_start : String
  pub remaining_at_start : ℤ
  pub latest_checkpoint_ms : ℤ
  pub latest_checkpoint_event_id : String

pub record Disposition : Type 0 where
  pub charged : String
  pub movement_terminal : Bool
  pub terminal_reason : String

pub record AttemptFailure : Type 0 where
  pub kind : String
  pub reason : String
  pub disposition : Disposition

pub record Attempt : Type 0 where
  pub movement_id : String
  pub score_revision : ℕ
  pub state : AttemptState
  pub failure : Option AttemptFailure

pub record AdapterLaunch : Type 0 where
  pub attempt_id : String
  pub process : ProcessIdentity

pub record DeliveredResolution : Type 0 where
  pub decision_id : String
  pub kind : String
  pub digest : String

pub record DeliveredFeedback : Type 0 where
  pub previous_attempt_id : String
  pub kind : String
  pub artifact_instance_id : String
  pub content_hash : String

pub record AdapterObservation : Type 0 where
  pub adapter_version : String
  pub capabilities : Dict Bool
  pub enforcement : Dict Bool
  pub negotiated_features : List String
  pub truncated_resolutions : List String
  pub delivered_resolutions : List DeliveredResolution
  pub delivered_feedback : List DeliveredFeedback
  pub advisory_dimensions : List String
  pub execution_dependency_hash : String
  pub identity_versions : Option Value

pub record ArtifactRecord : Type 0 where
  pub attempt_id : String
  pub logical_output_id : String
  pub kind : String
  pub content_hash : String
  pub size_bytes : ℕ
  pub source : String

pub record ChangeSetRecord : Type 0 where
  pub attempt_id : String
  pub change_set_id : String
  pub base_tree : String
  pub result_tree : String
  pub commit : String
  pub ref : String
  pub identity_versions : Option Value

pub record CandidateContributor : Type 0 where
  pub movement_id : String
  pub change_set_id : String

pub record ApplicationCandidate : Type 0 where
  pub id : String
  pub revision : ℕ
  pub base_tree : String
  pub result_tree : String
  pub ordered_change_sets : List String
  pub contributors : List CandidateContributor
  pub composition_dependency_hash : String
  pub composition_environment_hash : String
  pub identity_versions : Option Value

pub data ApplicationState : Type 0 where
  not_applied applying applied failed_clean recovery_required : ApplicationState

pub record ApplicationProjection : Type 0 where
  pub state : ApplicationState
  pub transaction_id : String
  pub candidate_id : String
  pub reason : String

pub data PromotionState : Type 0 where
  not_promoted promoting promoted recovery_required : PromotionState

pub record PromotionProjection : Type 0 where
  pub state : PromotionState
  pub transaction_id : String
  pub candidate_id : String
  pub reason : String

pub record MovementResult : Type 0 where
  pub attempt_id : String
  pub approved_artifact_instance_ids : List String
  pub approved_change_set_id : String

pub data CriterionLaunch : Type 0 where
  spawned : ProcessIdentity → CriterionLaunch
  spawn_failed in_process : CriterionLaunch

pub record CriterionRecord : Type 0 where
  pub started : Bool
  pub completed : Bool
  pub spec_hash : String
  pub subject_tree : String
  pub outcome : String

pub record Acceptance : Type 0 where
  pub started : Bool
  pub evaluation_completed : Bool
  pub subject_tree : String
  pub spec_hash : String
  pub planned_criterion_ids : List String
  pub criteria : Dict CriterionRecord
  pub review_outcome : String
  pub blocking_findings : List FindingReference

pub record SourceEnvelope : Type 0 where
  pub run_id : String
  pub score_revision : ℕ
  pub movement_id : String
  pub part_id : String
  pub attempt_id : String
