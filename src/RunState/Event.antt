-- ===== src/RunState/Event.antt =====
-- internal/runstate/types.go: the journal envelope and its event types.
use partitur.Prelude.{ℕ, String, Bool, true, false, Option}
use partitur.Json.{Value}

-- `other` is every string that no `Event…` constant spells. The registry holds those constants and
-- nothing else.
pub data EventType : Type 0 where
  run_started run_succeeded run_failed run_cancelled : EventType
  movement_ready movement_started movement_succeeded movement_failed movement_cancelled : EventType
  performer_selected : EventType
  attempt_started adapter_probed performer_completed attempt_completed : EventType
  attempt_blocked attempt_failed attempt_cancelled attempt_superseded : EventType
  artifact_recorded change_set_recorded verification_passed : EventType
  application_candidate_recorded : EventType
  acceptance_started criterion_started criterion_completed : EventType
  acceptance_failed acceptance_evaluation_completed : EventType
  decision_requested decision_resolved decision_obsoleted : EventType
  amendment_rejected execution_started execution_stopped execution_elapsed_checkpointed : EventType
  amendment_approval_prepared amendment_quiesce_observed amendment_approval_abandoned : EventType
  amendment_routed_human amendment_approved amendment_human_rejected : EventType
  composition_conflicted composition_failed : EventType
  authority_granted cancel_requested journal_tail_truncated : EventType
  apply_started apply_completed apply_failed apply_recovery_required : EventType
  apply_recovery_resolved : EventType
  score_promotion_started score_promoted score_promotion_recovery_required : EventType
  log progress : EventType
  other : String → EventType

-- `payload` is what `parseJSONExact` makes of the raw message, `none` where it fails.
pub record Event : Type 0 where
  pub event_id : String
  pub seq : ℕ
  pub timestamp : String
  pub run_id : String
  pub score_revision : ℕ
  pub movement_id : String
  pub part_id : String
  pub attempt_id : String
  pub type : EventType
  pub causation_id : String
  pub payload : Option Value

-- `isDerivedEvent`
unfoldable pub is_derived_event : EventType → Bool
is_derived_event movement_cancelled = true
is_derived_event attempt_cancelled = true
is_derived_event attempt_superseded = true
is_derived_event decision_obsoleted = true
is_derived_event _ = false

-- `isObservationalEvent`
unfoldable pub is_observational_event : EventType → Bool
is_observational_event log = true
is_observational_event progress = true
is_observational_event _ = false

-- `preparePendingMutation`
unfoldable pub prepare_pending_mutation : EventType → Bool
prepare_pending_mutation execution_stopped = true
prepare_pending_mutation execution_elapsed_checkpointed = true
prepare_pending_mutation cancel_requested = true
prepare_pending_mutation amendment_quiesce_observed = true
prepare_pending_mutation amendment_approval_abandoned = true
prepare_pending_mutation amendment_approved = true
prepare_pending_mutation journal_tail_truncated = true
prepare_pending_mutation _ = false

-- `isRegistryEvent`
unfoldable pub is_registry_event : EventType → Bool
is_registry_event (other _) = false
is_registry_event _ = true
