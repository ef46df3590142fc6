-- ===== src/Recovery/Named.antt =====
-- Every case and every action has a name.
use partitur.Prelude.{◌≡◌, refl, false, str_eq}
use partitur.Recovery.Names.{CaseId, case_id, ActionKind, action_kind}

pub case_id-named : (c : CaseId) → str_eq (case_id c) "" ≡ false
unfolding case_id
case_id-named CaseId.open_execution = refl
case_id-named CaseId.tail_repair = refl
case_id-named CaseId.terminal = refl
case_id-named CaseId.stale_lease = refl
case_id-named CaseId.orphan_lease = refl
case_id-named CaseId.owner_unverifiable = refl
case_id-named CaseId.live_owner = refl
case_id-named CaseId.cancellation = refl
case_id-named CaseId.pending_prepare = refl
case_id-named CaseId.reclaim_authority = refl
case_id-named CaseId.root_snapshot_divergence = refl
case_id-named CaseId.missing_reference = refl
case_id-named CaseId.blocked_proposal_route = refl
case_id-named CaseId.routed_amendment = refl
case_id-named CaseId.revision_restart = refl
case_id-named CaseId.composition_terminal = refl
case_id-named CaseId.continue = refl
case_id-named CaseId.realize_disposition = refl
case_id-named CaseId.append_question_request = refl
case_id-named CaseId.decision_resume = refl
case_id-named CaseId.waiting_human = refl
case_id-named CaseId.unstarted_attempt = refl
case_id-named CaseId.unprobed_attempt = refl
case_id-named CaseId.incomplete_attempt = refl
case_id-named CaseId.capture_change_set = refl
case_id-named CaseId.post_hoc_verification = refl
case_id-named CaseId.draft_no_blocking_output = refl
case_id-named CaseId.start_acceptance = refl
case_id-named CaseId.movement_succeeded = refl
case_id-named CaseId.run_failed = refl
case_id-named CaseId.final_gate_rejected = refl
case_id-named CaseId.acceptance_failed = refl
case_id-named CaseId.criterion_failed = refl
case_id-named CaseId.incomplete_criterion = refl
case_id-named CaseId.criteria_passed = refl
case_id-named CaseId.request_human_gate = refl
case_id-named CaseId.human_gate_waiting = refl
case_id-named CaseId.human_gate_approved = refl
case_id-named CaseId.human_gate_rejected = refl
case_id-named CaseId.gate_free_completion = refl
case_id-named CaseId.unjournaled_launch = refl
case_id-named CaseId.first_criterion = refl
case_id-named CaseId.next_criterion = refl
case_id-named CaseId.scheduler = refl
case_id-named CaseId.recovered_composition = refl
case_id-named CaseId.budget_exhausted = refl
case_id-named CaseId.finalization_rebuild = refl

pub action_kind-named : (k : ActionKind) → str_eq (action_kind k) "" ≡ false
unfolding action_kind
action_kind-named ActionKind.close_open_execution_interval = refl
action_kind-named ActionKind.repair_journal_tail = refl
action_kind-named ActionKind.terminal_cleanup = refl
action_kind-named ActionKind.remove_stale_lease = refl
action_kind-named ActionKind.quarantine_orphan_lease = refl
action_kind-named ActionKind.refuse_resume = refl
action_kind-named ActionKind.execute_cancellation = refl
action_kind-named ActionKind.complete_or_abandon_prepare = refl
action_kind-named ActionKind.reclaim_authority = refl
action_kind-named ActionKind.append_blocked_proposal_route = refl
action_kind-named ActionKind.append_routed_request = refl
action_kind-named ActionKind.select_revision_restart = refl
action_kind-named ActionKind.append_composition_terminal = refl
action_kind-named ActionKind.rebuild_finalization = refl
action_kind-named ActionKind.proceed_attempt = refl
action_kind-named ActionKind.proceed_scheduler = refl
action_kind-named ActionKind.realize_recorded_disposition = refl
action_kind-named ActionKind.append_question_request = refl
action_kind-named ActionKind.select_decision_resume = refl
action_kind-named ActionKind.return_waiting_human = refl
action_kind-named ActionKind.recover_unstarted_attempt = refl
action_kind-named ActionKind.recover_unprobed_attempt = refl
action_kind-named ActionKind.recover_incomplete_attempt = refl
action_kind-named ActionKind.capture_change_set = refl
action_kind-named ActionKind.fail_worktree_lost = refl
action_kind-named ActionKind.rerun_post_hoc_verification = refl
action_kind-named ActionKind.append_draft_no_blocking_failure = refl
action_kind-named ActionKind.append_acceptance_started = refl
action_kind-named ActionKind.append_movement_succeeded = refl
action_kind-named ActionKind.append_run_failed = refl
action_kind-named ActionKind.append_final_gate_failure = refl
action_kind-named ActionKind.proceed_acceptance = refl
action_kind-named ActionKind.append_acceptance_failure = refl
action_kind-named ActionKind.recover_incomplete_criterion = refl
action_kind-named ActionKind.verify_acceptance_subject = refl
action_kind-named ActionKind.append_evaluation_completed = refl
action_kind-named ActionKind.append_human_gate_request = refl
action_kind-named ActionKind.append_acceptance_success = refl
action_kind-named ActionKind.append_gate_rejected_failure = refl
action_kind-named ActionKind.stabilize_unjournaled_launch = refl
action_kind-named ActionKind.remove_unjournaled_launch = refl
action_kind-named ActionKind.resume_criterion = refl
action_kind-named ActionKind.append_movement_ready = refl
action_kind-named ActionKind.append_movement_started = refl
action_kind-named ActionKind.select_initial_performer = refl
action_kind-named ActionKind.materialize_successor = refl
action_kind-named ActionKind.rerun_composition = refl
action_kind-named ActionKind.compose_candidate = refl
action_kind-named ActionKind.append_budget_failure = refl
