-- ===== src/Recovery/Types.antt =====
-- internal/recovery/planner.go: what the planner is given. A pointer that may be nil is an option,
-- and an observation that is none of its type's constants takes the branch of the first one here.
use partitur.Prelude.{ℕ, String, Bool, Option, List, ℤ}
use partitur.RunState.Types.{StartIdentity, AttemptState, Disposition, FindingReference}
use partitur.RunState.State.{State}

-- What became of the owner that a lease names. All but the first three count as unverifiable.
pub data OwnerState : Type 0 where
  dead live current_driver unverifiable : OwnerState

pub record LeaseIdentity : Type 0 where
  pub epoch : ℕ
  pub token : String
  pub pid : ℤ
  pub start : StartIdentity

pub record LeaseObservation : Type 0 where
  pub exists : Bool
  pub readable : Bool
  pub epoch : ℕ
  pub owner : OwnerState
  pub identity : Option LeaseIdentity

pub data ReferenceKind : Type 0 where
  artifact review_subject_input snapshot change_set_ref proposal_record resolved_cast :
      ReferenceKind

pub record ReferenceObservation : Type 0 where
  pub kind : ReferenceKind
  pub present : Bool

pub record PrepareObservation : Type 0 where
  pub plan_present : Bool
  pub snapshot_present : Bool

pub record RevisionRestart : Type 0 where
  pub movement_id : String
  pub attempt_id : String
  pub approval_event_id : String
  pub performer : String

pub record BlockedProposalRoute : Type 0 where
  pub proposal_id : String
  pub attempt_id : String
  pub score_revision : ℕ

pub record CompositionTerminal : Type 0 where
  pub scope : String
  pub target_id : String
  pub reason : String
  pub evidence_event_id : String
  pub score_revision : ℕ

pub record CompositionRecovery : Type 0 where
  pub scope : String
  pub movement_id : String
  pub recovered : Bool
  pub score_revision : ℕ

pub record ScheduledMovement : Type 0 where
  pub id : String
  pub needs : List String
  pub repo_write : Bool
  pub is_final : Bool

pub record PendingSuccessor : Type 0 where
  pub movement_id : String
  pub attempt_id : String
  pub performer : String
  pub reason : String
  pub causation_id : String

pub record Scheduler : Type 0 where
  pub movements : List ScheduledMovement
  pub pending_successor : Option PendingSuccessor
  pub status : String
  pub draft_interview_movement : String
  pub gate_waived : Bool
  pub remaining_time : ℤ

pub record QuestionRequest : Type 0 where
  pub decision_id : String
  pub durable : Bool
  pub resolved : Bool

pub record FailureClassification : Type 0 where
  pub current_performer : String
  pub visited_performers : List String
  pub fallbacks : List String
  pub retries_consumed : ℤ
  pub retries_per_movement : ℤ
  pub remaining_time_ms : ℤ

pub record AttemptRecovery : Type 0 where
  pub attempt_id : String
  pub movement_id : String
  pub score_revision : ℕ
  pub state : AttemptState
  pub failure_disposition_realized : Bool
  pub recorded_disposition : Option Disposition
  pub question_requests : List QuestionRequest
  pub change_set_recorded : Bool
  pub acceptance_started : Bool
  pub movement_succeeded : Bool
  pub movement_failed : Bool
  pub final_gate_rejected : Bool
  pub failure_classification : FailureClassification

pub data HandoffState : Type 0 where
  safe unverifiable sweep_failed : HandoffState

pub data SweepState : Type 0 where
  safe unverifiable : SweepState

pub data WorktreeState : Type 0 where
  present missing : WorktreeState

pub data SubjectVerification : Type 0 where
  unverified matched mismatched : SubjectVerification

-- Here a text outside the constants takes the branch of `unstabilized`.
pub data UnjournaledLaunchState : Type 0 where
  absent unstabilized marker_free session_empty handoff_unverifiable sweep_unverifiable :
      UnjournaledLaunchState

pub record GateRecovery : Type 0 where
  pub required : Bool
  pub requested : Bool
  pub resolved : Bool
  pub approved : Bool
  pub decision_id : String
  pub gate_id : String
  pub review_outcome : String
  pub blocking_findings : List FindingReference

pub record AcceptanceRecovery : Type 0 where
  pub failed : Bool
  pub gate : GateRecovery

pub record Projection : Type 0 where
  pub state : State
  pub tail_repair_required : Bool
  pub blocked_proposal_routes : List BlockedProposalRoute
  pub revision_restarts : List RevisionRestart
  pub composition_terminals : List CompositionTerminal
  pub composition_recovery : Option CompositionRecovery
  pub current_head_attempt : Option AttemptRecovery
  pub acceptance : Option AcceptanceRecovery
  pub scheduler : Scheduler
  pub finalization_eligible : Bool

pub record Observations : Type 0 where
  pub lease : LeaseObservation
  pub root_snapshot_divergence : Bool
  pub references : List ReferenceObservation
  pub prepare : PrepareObservation
  pub handoff : HandoffState
  pub adapter_sweep : SweepState
  pub worktree : WorktreeState
  pub criterion_sweep : SweepState
  pub acceptance_subject : SubjectVerification
  pub unjournaled_launch : UnjournaledLaunchState

pub record Input : Type 0 where
  pub projection : Projection
  pub observations : Observations
