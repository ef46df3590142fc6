-- ===== src/Recovery/Names.antt =====
-- internal/recovery/planner.go: the names of the recovery cases, the halt reasons, the actions and
-- their steps, with the texts that are written for them.
use partitur.Prelude.{String, Bool, List, [], ◌∷◌, contains}

-- The recovery cases of Appendix C.
pub data CaseId : Type 0 where
  open_execution tail_repair terminal stale_lease orphan_lease owner_unverifiable live_owner
        cancellation pending_prepare reclaim_authority root_snapshot_divergence missing_reference
        blocked_proposal_route routed_amendment revision_restart composition_terminal continue
        realize_disposition append_question_request decision_resume waiting_human unstarted_attempt
        unprobed_attempt incomplete_attempt capture_change_set post_hoc_verification
        draft_no_blocking_output start_acceptance movement_succeeded run_failed final_gate_rejected
        acceptance_failed criterion_failed incomplete_criterion criteria_passed request_human_gate
        human_gate_waiting human_gate_approved human_gate_rejected gate_free_completion
        unjournaled_launch first_criterion next_criterion scheduler recovered_composition
        budget_exhausted finalization_rebuild :
      CaseId

unfoldable pub case_id : CaseId → String
case_id CaseId.open_execution = "RC-RESUME-001"
case_id CaseId.tail_repair = "RC-RESUME-034"
case_id CaseId.terminal = "RC-RESUME-002"
case_id CaseId.stale_lease = "RC-RESUME-003"
case_id CaseId.orphan_lease = "RC-RESUME-004"
case_id CaseId.owner_unverifiable = "RC-RESUME-005"
case_id CaseId.live_owner = "RC-RESUME-046"
case_id CaseId.cancellation = "RC-RESUME-006"
case_id CaseId.pending_prepare = "RC-RESUME-007"
case_id CaseId.reclaim_authority = "RC-RESUME-008"
case_id CaseId.root_snapshot_divergence = "RC-RESUME-009"
case_id CaseId.missing_reference = "RC-RESUME-010"
case_id CaseId.blocked_proposal_route = "RC-RESUME-049"
case_id CaseId.routed_amendment = "RC-RESUME-037"
case_id CaseId.revision_restart = "RC-RESUME-042"
case_id CaseId.composition_terminal = "RC-RESUME-011"
case_id CaseId.continue = "RC-RESUME-012"
case_id CaseId.realize_disposition = "RC-RESUME-039"
case_id CaseId.append_question_request = "RC-RESUME-040"
case_id CaseId.decision_resume = "RC-RESUME-041"
case_id CaseId.waiting_human = "RC-RESUME-048"
case_id CaseId.unstarted_attempt = "RC-RESUME-013"
case_id CaseId.unprobed_attempt = "RC-RESUME-014"
case_id CaseId.incomplete_attempt = "RC-RESUME-015"
case_id CaseId.capture_change_set = "RC-RESUME-016"
case_id CaseId.post_hoc_verification = "RC-RESUME-017"
case_id CaseId.draft_no_blocking_output = "RC-RESUME-050"
case_id CaseId.start_acceptance = "RC-RESUME-018"
case_id CaseId.movement_succeeded = "RC-RESUME-019"
case_id CaseId.run_failed = "RC-RESUME-020"
case_id CaseId.final_gate_rejected = "RC-RESUME-021"
case_id CaseId.acceptance_failed = "RC-RESUME-022"
case_id CaseId.criterion_failed = "RC-RESUME-023"
case_id CaseId.incomplete_criterion = "RC-RESUME-024"
case_id CaseId.criteria_passed = "RC-RESUME-025"
case_id CaseId.request_human_gate = "RC-RESUME-026"
case_id CaseId.human_gate_waiting = "RC-RESUME-027"
case_id CaseId.human_gate_approved = "RC-RESUME-028"
case_id CaseId.human_gate_rejected = "RC-RESUME-029"
case_id CaseId.gate_free_completion = "RC-RESUME-030"
case_id CaseId.unjournaled_launch = "RC-RESUME-031"
case_id CaseId.first_criterion = "RC-RESUME-032"
case_id CaseId.next_criterion = "RC-RESUME-033"
case_id CaseId.scheduler = "RC-RESUME-043"
case_id CaseId.recovered_composition = "RC-RESUME-044"
case_id CaseId.budget_exhausted = "RC-RESUME-045"
case_id CaseId.finalization_rebuild = "RC-RESUME-038"

-- The halt reasons of Appendix D.
pub data HaltReason : Type 0 where
  journal_idempotency_conflict unsupported_run_format owner_unverifiable root_snapshot_divergence
        missing_artifact_file missing_snapshot_file missing_change_set_ref missing_proposal_record
        missing_resolved_cast missing_prepare_plan git_unverifiable sweep_unverifiable
        spawn_handoff_unverifiable prepare_lease_epoch_mismatch journal_corrupt :
      HaltReason

unfoldable pub halt_reason : HaltReason → String
halt_reason HaltReason.journal_idempotency_conflict = "journal_idempotency_conflict"
halt_reason HaltReason.unsupported_run_format = "unsupported_run_format"
halt_reason HaltReason.owner_unverifiable = "owner_unverifiable"
halt_reason HaltReason.root_snapshot_divergence = "root_snapshot_divergence"
halt_reason HaltReason.missing_artifact_file = "missing_artifact_file"
halt_reason HaltReason.missing_snapshot_file = "missing_snapshot_file"
halt_reason HaltReason.missing_change_set_ref = "missing_changeset_ref"
halt_reason HaltReason.missing_proposal_record = "missing_proposal_record"
halt_reason HaltReason.missing_resolved_cast = "missing_resolved_cast"
halt_reason HaltReason.missing_prepare_plan = "missing_prepare_plan"
halt_reason HaltReason.git_unverifiable = "git_unverifiable"
halt_reason HaltReason.sweep_unverifiable = "sweep_unverifiable"
halt_reason HaltReason.spawn_handoff_unverifiable = "spawn_handoff_unverifiable"
halt_reason HaltReason.prepare_lease_epoch_mismatch = "prepare_lease_epoch_mismatch"
halt_reason HaltReason.journal_corrupt = "journal_corrupt"

-- `appendixDHaltReasonSet`
abbrev appendix_d_halt_reasons : List String
appendix_d_halt_reasons =
    halt_reason HaltReason.journal_idempotency_conflict
    ∷ halt_reason HaltReason.unsupported_run_format
    ∷ halt_reason HaltReason.owner_unverifiable
    ∷ halt_reason HaltReason.root_snapshot_divergence
    ∷ halt_reason HaltReason.missing_artifact_file
    ∷ halt_reason HaltReason.missing_snapshot_file
    ∷ halt_reason HaltReason.missing_change_set_ref
    ∷ halt_reason HaltReason.missing_proposal_record
    ∷ halt_reason HaltReason.missing_resolved_cast
    ∷ halt_reason HaltReason.missing_prepare_plan
    ∷ halt_reason HaltReason.git_unverifiable
    ∷ halt_reason HaltReason.sweep_unverifiable
    ∷ halt_reason HaltReason.spawn_handoff_unverifiable
    ∷ halt_reason HaltReason.prepare_lease_epoch_mismatch
    ∷ halt_reason HaltReason.journal_corrupt
    ∷ []

-- `IsHaltReason`
unfoldable pub is_halt_reason : String → Bool
is_halt_reason = contains appendix_d_halt_reasons

pub data ActionKind : Type 0 where
  close_open_execution_interval repair_journal_tail terminal_cleanup remove_stale_lease
        quarantine_orphan_lease refuse_resume execute_cancellation complete_or_abandon_prepare
        reclaim_authority append_blocked_proposal_route append_routed_request
        select_revision_restart append_composition_terminal rebuild_finalization proceed_attempt
        proceed_scheduler realize_recorded_disposition append_question_request
        select_decision_resume return_waiting_human recover_unstarted_attempt
        recover_unprobed_attempt recover_incomplete_attempt capture_change_set fail_worktree_lost
        rerun_post_hoc_verification append_draft_no_blocking_failure append_acceptance_started
        append_movement_succeeded append_run_failed append_final_gate_failure proceed_acceptance
        append_acceptance_failure recover_incomplete_criterion verify_acceptance_subject
        append_evaluation_completed append_human_gate_request append_acceptance_success
        append_gate_rejected_failure stabilize_unjournaled_launch remove_unjournaled_launch
        resume_criterion append_movement_ready append_movement_started select_initial_performer
        materialize_successor rerun_composition compose_candidate append_budget_failure :
      ActionKind

unfoldable pub action_kind : ActionKind → String
action_kind ActionKind.close_open_execution_interval = "close_open_execution_interval"
action_kind ActionKind.repair_journal_tail = "repair_journal_tail"
action_kind ActionKind.terminal_cleanup = "terminal_cleanup"
action_kind ActionKind.remove_stale_lease = "remove_stale_lease"
action_kind ActionKind.quarantine_orphan_lease = "quarantine_orphan_lease"
action_kind ActionKind.refuse_resume = "refuse_resume"
action_kind ActionKind.execute_cancellation = "execute_cancellation_oracle"
action_kind ActionKind.complete_or_abandon_prepare = "complete_or_abandon_prepare"
action_kind ActionKind.reclaim_authority = "reclaim_authority"
action_kind ActionKind.append_blocked_proposal_route = "append_blocked_proposal_route"
action_kind ActionKind.append_routed_request = "append_routed_request"
action_kind ActionKind.select_revision_restart = "select_revision_restart"
action_kind ActionKind.append_composition_terminal = "append_composition_terminal"
action_kind ActionKind.rebuild_finalization = "rebuild_finalization"
action_kind ActionKind.proceed_attempt = "proceed_c2"
action_kind ActionKind.proceed_scheduler = "proceed_c4"
action_kind ActionKind.realize_recorded_disposition = "realize_recorded_disposition"
action_kind ActionKind.append_question_request = "append_question_request"
action_kind ActionKind.select_decision_resume = "select_decision_resume"
action_kind ActionKind.return_waiting_human = "return_waiting_human"
action_kind ActionKind.recover_unstarted_attempt = "recover_unstarted_attempt"
action_kind ActionKind.recover_unprobed_attempt = "recover_unprobed_attempt"
action_kind ActionKind.recover_incomplete_attempt = "recover_incomplete_attempt"
action_kind ActionKind.capture_change_set = "capture_change_set"
action_kind ActionKind.fail_worktree_lost = "fail_worktree_lost"
action_kind ActionKind.rerun_post_hoc_verification = "rerun_post_hoc_verification"
action_kind ActionKind.append_draft_no_blocking_failure = "append_draft_no_blocking_failure"
action_kind ActionKind.append_acceptance_started = "append_acceptance_started"
action_kind ActionKind.append_movement_succeeded = "append_movement_succeeded"
action_kind ActionKind.append_run_failed = "append_run_failed"
action_kind ActionKind.append_final_gate_failure = "append_final_gate_failure"
action_kind ActionKind.proceed_acceptance = "proceed_c3"
action_kind ActionKind.append_acceptance_failure = "append_acceptance_failure"
action_kind ActionKind.recover_incomplete_criterion = "recover_incomplete_criterion"
action_kind ActionKind.verify_acceptance_subject = "verify_acceptance_subject"
action_kind ActionKind.append_evaluation_completed = "append_acceptance_evaluation_completed"
action_kind ActionKind.append_human_gate_request = "append_human_gate_request"
action_kind ActionKind.append_acceptance_success = "append_acceptance_success"
action_kind ActionKind.append_gate_rejected_failure = "append_gate_rejected_failure"
action_kind ActionKind.stabilize_unjournaled_launch = "stabilize_unjournaled_criterion_launch"
action_kind ActionKind.remove_unjournaled_launch = "remove_unjournaled_criterion_launch"
action_kind ActionKind.resume_criterion = "resume_criterion"
action_kind ActionKind.append_movement_ready = "append_movement_ready"
action_kind ActionKind.append_movement_started = "append_movement_started"
action_kind ActionKind.select_initial_performer = "select_initial_performer"
action_kind ActionKind.materialize_successor = "materialize_selected_successor"
action_kind ActionKind.rerun_composition = "rerun_deterministic_composition"
action_kind ActionKind.compose_candidate = "compose_application_candidate"
action_kind ActionKind.append_budget_failure = "append_budget_exhaustion"

pub data ActionStep : Type 0 where
  stabilize_handoff sweep_recorded_session close_adapter_interval classify_and_append_failure
        sweep_criterion_session verify_acceptance_subject classify_acceptance_failure
        append_attempt_completed append_movement_succeeded append_movement_budget_failure
        append_run_failed :
      ActionStep

unfoldable pub action_step : ActionStep → String
action_step ActionStep.stabilize_handoff = "stabilize_handoff_and_sweep_published_session"
action_step ActionStep.sweep_recorded_session = "sweep_recorded_session"
action_step ActionStep.close_adapter_interval = "close_adapter_interval_recovered"
action_step ActionStep.classify_and_append_failure = "classify_and_append_attempt_failure"
action_step ActionStep.sweep_criterion_session = "sweep_criterion_session"
action_step ActionStep.verify_acceptance_subject = "verify_acceptance_subject"
action_step ActionStep.classify_acceptance_failure = "classify_and_append_acceptance_failure"
action_step ActionStep.append_attempt_completed = "append_attempt_completed"
action_step ActionStep.append_movement_succeeded = "append_movement_succeeded"
action_step ActionStep.append_movement_budget_failure = "append_movement_failed_budget_exhausted"
action_step ActionStep.append_run_failed = "append_run_failed"

-- `Continuation`: the table that is applied next.
pub data Continuation : Type 0 where
  c2 c3 c4 : Continuation
