-- ===== src/Recovery/Facts.antt =====
-- internal/recovery/planner.go: what the planner reads off the projection, and the first of the
-- things that it finds missing.
use partitur.Prelude.{
  String, Bool, true, false, ◌&&◌, ◌||◌, not, Option, none, some, List, [], ◌∷◌, str_eq, is_empty,
  ◌==◌, if◌then◌else◌,
}
use partitur.Dict.{Dict, lookup, has}
use partitur.RunState.Types.{AttemptState, PendingDecision, Acceptance, CriterionRecord}
use partitur.RunState.State.{State}
use partitur.RunState.Waiting.{flag, any_blocking}
use partitur.RunState.Handlers.Acceptance.{criterion_or_zero}
use partitur.Recovery.Names.{HaltReason}
use partitur.Recovery.Types.{
  AttemptRecovery, Projection, QuestionRequest, BlockedProposalRoute, ReferenceKind,
  ReferenceObservation,
}

abbrev is_superseded : AttemptState → Bool
is_superseded AttemptState.superseded = true
is_superseded _ = false

-- `currentHeadAttempt`
unfoldable pub current_head_attempt : Projection → Option AttemptRecovery
current_head_attempt p = elim p.current_head_attempt [
  | none ↦ none
  | some a ↦
      if not (a.score_revision == p.state.score_head.revision) || is_superseded a.state
      then none
      else some a
]

abbrev is_in_flight : AttemptState → Bool
is_in_flight AttemptState.starting = true
is_in_flight AttemptState.running = true
is_in_flight AttemptState.verifying = true
is_in_flight _ = false

-- `currentHeadAttemptInFlight`
unfoldable pub current_head_attempt_in_flight : Projection → Bool
current_head_attempt_in_flight p = elim (current_head_attempt p) [
  | none ↦ false
  | some a ↦ is_in_flight a.state
]

-- `hasAnyUnresolvedBlockingDecision`
abbrev pub has_any_unresolved_blocking_decision : State → Bool
has_any_unresolved_blocking_decision s = any_blocking s.pending_decisions

unfoldable pub blocks_attempt : String → Dict PendingDecision → Bool
blocks_attempt attempt_id [] = false
blocks_attempt attempt_id ((_, d) ∷ ds) =
    (str_eq d.attempt_id attempt_id && d.blocking) || blocks_attempt attempt_id ds

-- `hasUnresolvedBlockingDecision`
abbrev pub has_unresolved_blocking_decision : State → String → Bool
has_unresolved_blocking_decision s attempt_id = blocks_attempt attempt_id s.pending_decisions

-- `hasAdapterProbe`
abbrev pub has_adapter_probe : State → String → Bool
has_adapter_probe s attempt_id = has attempt_id s.adapter_observations

-- `movementHasRepoWrite`
abbrev pub movement_has_repo_write : State → String → Bool
movement_has_repo_write s movement_id = flag movement_id s.repo_write_movements

-- `hasVerificationPassed`
abbrev pub has_verification_passed : State → String → Bool
has_verification_passed s attempt_id = flag attempt_id s.verified_attempts

-- `firstMissingQuestionRequest`
unfoldable pub first_missing_question_request : List QuestionRequest → Option QuestionRequest
first_missing_question_request [] = none
first_missing_question_request (r ∷ rs) =
    let rest = first_missing_question_request rs in
    if not (str_eq r.decision_id "") && not r.durable then some r else rest

-- `firstBlockedProposalRoute`
unfoldable pub first_blocked_proposal_route :
    List BlockedProposalRoute → Option BlockedProposalRoute
first_blocked_proposal_route [] = none
first_blocked_proposal_route (r ∷ rs) =
    let rest = first_blocked_proposal_route rs in
    if not (str_eq r.proposal_id "") && not (str_eq r.attempt_id "") then some r else rest

-- `missingReferenceReason`
abbrev pub missing_reference_reason : ReferenceKind → HaltReason
missing_reference_reason ReferenceKind.artifact = HaltReason.missing_artifact_file
missing_reference_reason ReferenceKind.review_subject_input = HaltReason.missing_artifact_file
missing_reference_reason ReferenceKind.snapshot = HaltReason.missing_snapshot_file
missing_reference_reason ReferenceKind.change_set_ref = HaltReason.missing_change_set_ref
missing_reference_reason ReferenceKind.proposal_record = HaltReason.missing_proposal_record
missing_reference_reason ReferenceKind.resolved_cast = HaltReason.missing_resolved_cast

abbrev same_kind : ReferenceKind → ReferenceKind → Bool
same_kind ReferenceKind.artifact ReferenceKind.artifact = true
same_kind ReferenceKind.review_subject_input ReferenceKind.review_subject_input = true
same_kind ReferenceKind.snapshot ReferenceKind.snapshot = true
same_kind ReferenceKind.change_set_ref ReferenceKind.change_set_ref = true
same_kind ReferenceKind.proposal_record ReferenceKind.proposal_record = true
same_kind ReferenceKind.resolved_cast ReferenceKind.resolved_cast = true
same_kind _ _ = false

-- The inner loop: an observation of the kind is not present.
unfoldable pub is_missing : ReferenceKind → List ReferenceObservation → Bool
is_missing kind [] = false
is_missing kind (r ∷ rs) = (same_kind r.kind kind && not r.present) || is_missing kind rs

-- The outer loop.
unfoldable pub first_missing_of : List ReferenceKind → List ReferenceObservation → Option HaltReason
first_missing_of [] rs = none
first_missing_of (k ∷ ks) rs =
    let rest = first_missing_of ks rs in
    if is_missing k rs then some (missing_reference_reason k) else rest

abbrev pub every_kind : List ReferenceKind
every_kind =
    ReferenceKind.artifact ∷ ReferenceKind.review_subject_input ∷ ReferenceKind.snapshot
    ∷ ReferenceKind.change_set_ref ∷ ReferenceKind.proposal_record ∷ ReferenceKind.resolved_cast
    ∷ []

-- `firstMissingReferenceReason`
unfoldable pub first_missing_reference_reason : List ReferenceObservation → Option HaltReason
first_missing_reference_reason = first_missing_of every_kind

abbrev criterion_at : Acceptance → String → CriterionRecord
criterion_at a id = criterion_or_zero (lookup id a.criteria)

-- A criterion's identifier, with the reason of its failure.
abbrev failure_of : CriterionRecord → Option String
failure_of r =
    if not r.completed
    then none
    else if str_eq r.outcome "FAIL"
    then some "criterion_failed"
    else if str_eq r.outcome "ERROR"
    then some "criterion_errored"
    else none

module _ (a : Acceptance) where
  unfoldable pub failed_among : List String → Option (String × String)
  failed_among [] = none
  failed_among (id ∷ ids) =
      let rest = failed_among ids in
      elim (failure_of (criterion_at a id)) [ some reason ↦ some (id, reason) | none ↦ rest ]

  unfoldable pub in_flight_among : List String → Option String
  in_flight_among [] = none
  in_flight_among (id ∷ ids) =
      let rest = in_flight_among ids in
      if (criterion_at a id).started && not (criterion_at a id).completed then some id else rest

  unfoldable pub passed_among : List String → Bool
  passed_among [] = true
  passed_among (id ∷ ids) =
      not (not (criterion_at a id).completed || not (str_eq (criterion_at a id).outcome "PASS"))
      && passed_among ids

  unfoldable pub completed_among : List String → Bool
  completed_among [] = false
  completed_among (id ∷ ids) = (criterion_at a id).completed || completed_among ids

  unfoldable pub unstarted_among : List String → Option String
  unstarted_among [] = none
  unstarted_among (id ∷ ids) =
      let rest = unstarted_among ids in if not (criterion_at a id).started then some id else rest

-- `firstFailedCriterion`
abbrev pub first_failed_criterion : Acceptance → Option (String × String)
first_failed_criterion a = failed_among a a.planned_criterion_ids

-- `firstInFlightCriterion`
abbrev pub first_in_flight_criterion : Acceptance → Option String
first_in_flight_criterion a = in_flight_among a a.planned_criterion_ids

-- `allCriteriaPassed`
abbrev pub all_criteria_passed : Acceptance → Bool
all_criteria_passed a = is_empty a.planned_criterion_ids || passed_among a a.planned_criterion_ids

-- `hasCompletedCriteria`
abbrev pub has_completed_criteria : Acceptance → Bool
has_completed_criteria a = completed_among a a.planned_criterion_ids

-- `nextUnstartedCriterion`
abbrev pub next_unstarted_criterion : Acceptance → Option String
next_unstarted_criterion a = unstarted_among a a.planned_criterion_ids
