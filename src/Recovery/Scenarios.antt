-- ===== src/Recovery/Scenarios.antt =====
-- Inputs of the planner that its theorems are applied to: a run of two movements, before the first
-- becomes ready and with the attempt of the first under acceptance.
use mathlib.Core.List.{Permᴰ}
use partitur.Prelude.{◌≡◌, refl, true, false, none, some, [], ◌∷◌, pos, ◌↔◌, ◌&&◌}
use partitur.Json.{obj, end}
use partitur.Dict.{lookup}
use partitur.RunState.Types.{
  RunLifecycle, MovementState, AttemptState, Attempt, Acceptance, RoutedAmendment, Disposition,
}
use partitur.RunState.Event.{Event, attempt_completed, movement_ready}
use partitur.RunState.State.{State, empty_state}
use partitur.RunState.Action.{ok}
use partitur.RunState.Apply.{apply}
use partitur.RunState.Outcomes.{all_passed}
use partitur.Recovery.Names.{ActionKind, ActionStep}
use partitur.Recovery.Types.{
  Input, Projection, Observations, LeaseObservation, OwnerState, Scheduler, ScheduledMovement,
  AttemptRecovery, HandoffState, SweepState, WorktreeState, SubjectVerification,
  UnjournaledLaunchState,
}
use partitur.Recovery.Decision.{Action, simple, valid}
use partitur.Recovery.Plan.{plan}
use partitur.Recovery.Attempt.{plan_attempt}
use partitur.Recovery.Acceptance.{plan_acceptance, gate_of}
use partitur.Recovery.Scheduler.{plan_scheduler, plan_between_unit}
use partitur.Recovery.Least.{first_missing_routed_request}
use partitur.Recovery.Valid.{tables-valid}
use partitur.Recovery.Clear.{Clear, proceeds, plan-Clear}
use partitur.Recovery.Owner.{is_passive, plan-is_passive}
use partitur.Recovery.Progress.{plan_between_unit-progress}
use partitur.Recovery.Readied.{Eligible, plan_scheduler-Eligible}
use partitur.Recovery.Evaluated.{Subject, gate_open, evaluation-all_passed, success-gate_open}
use partitur.Successor.{FailureCase, Realization, realize, retry_disposition, ok as decided}
use partitur.Successor.Proofs.{Replays, replay_input}
use partitur.Recovery.Causes.{classified-realized}
use partitur.Recovery.Journaled.{success-accepted, readied-accepted}
use partitur.Recovery.Requests.{first_missing_routed_request-perm}

abbrev first_movement : ScheduledMovement
first_movement = record { id = "m1"; needs = []; repo_write = true; is_final = false }

abbrev last_movement : ScheduledMovement
last_movement = record { id = "m2"; needs = "m1" ∷ []; repo_write = false; is_final = true }

abbrev two_movements : Scheduler
two_movements = record {
  movements = first_movement ∷ last_movement ∷ [];
  pending_successor = none;
  status = "finalized";
  draft_interview_movement = "";
  gate_waived = false;
  remaining_time = pos 60000;
}

abbrev fresh_state : State
fresh_state = record empty_state {
  run = RunLifecycle.running;
  movements = ("m1", MovementState.pending) ∷ ("m2", MovementState.pending) ∷ [];
}

abbrev fresh : Projection
fresh = record {
  state = fresh_state;
  tail_repair_required = false;
  blocked_proposal_routes = [];
  revision_restarts = [];
  composition_terminals = [];
  composition_recovery = none;
  current_head_attempt = none;
  acceptance = none;
  scheduler = two_movements;
  finalization_eligible = false;
}

abbrev no_lease : LeaseObservation
no_lease = record {
  exists = false;
  readable = false;
  epoch = 0;
  owner = OwnerState.unverifiable;
  identity = none;
}

abbrev calm : Observations
calm = record {
  lease = no_lease;
  root_snapshot_divergence = false;
  references = [];
  prepare = record { plan_present = false; snapshot_present = false };
  handoff = HandoffState.safe;
  adapter_sweep = SweepState.safe;
  worktree = WorktreeState.present;
  criterion_sweep = SweepState.safe;
  acceptance_subject = SubjectVerification.matched;
  unjournaled_launch = UnjournaledLaunchState.absent;
}

abbrev fresh_input : Input
fresh_input = record { projection = fresh; observations = calm }

abbrev beside_owner : Input
beside_owner = record fresh_input {
  observations = record calm {
    lease = record {
      exists = true;
      readable = true;
      epoch = 0;
      owner = OwnerState.live;
      identity = none;
    };
  };
}

abbrev verifying : AttemptRecovery
verifying = record {
  attempt_id = "a1";
  movement_id = "m1";
  score_revision = 0;
  state = AttemptState.verifying;
  failure_disposition_realized = false;
  recorded_disposition = none;
  question_requests = [];
  change_set_recorded = true;
  acceptance_started = true;
  movement_succeeded = false;
  movement_failed = false;
  final_gate_rejected = false;
  failure_classification = record {
    current_performer = "p1";
    visited_performers = [];
    fallbacks = "p1" ∷ "p2" ∷ [];
    retries_consumed = pos 0;
    retries_per_movement = pos 2;
    remaining_time_ms = pos 60000;
  };
}

abbrev passed : Acceptance
passed = record {
  started = true;
  evaluation_completed = false;
  subject_tree = "t1";
  spec_hash = "h1";
  planned_criterion_ids = "c1" ∷ [];
  criteria =
      (
        "c1",
        record {
          started = true;
          completed = true;
          spec_hash = "h2";
          subject_tree = "t1";
          outcome = "PASS";
        },
      )
      ∷ [];
  review_outcome = "";
  blocking_findings = [];
}

abbrev tried : Attempt
tried = record {
  movement_id = "m1";
  score_revision = 0;
  state = AttemptState.verifying;
  failure = none;
}

abbrev accepting : Acceptance → Input
accepting a = record fresh_input {
  projection = record fresh {
    state = record fresh_state { attempts = ("a1", tried) ∷ []; acceptances = ("a1", a) ∷ [] };
    current_head_attempt = some verifying;
  };
}

abbrev evaluated : Acceptance
evaluated = record passed { evaluation_completed = true }

abbrev ready_first : Action
ready_first = record (simple ActionKind.append_movement_ready true) { movement_id = "m1" }

abbrev complete_evaluation : Action
complete_evaluation = record (simple ActionKind.append_evaluation_completed true) {
  attempt_id = "a1";
  subject_tree = "t1";
}

abbrev succeed : Action
succeed = record (simple ActionKind.append_acceptance_success true) {
  attempt_id = "a1";
  movement_id = "m1";
  subject_tree = "t1";
  steps = ActionStep.append_attempt_completed ∷ ActionStep.append_movement_succeeded ∷ [];
}

abbrev readied : Event
readied = record {
  event_id = "e1";
  seq = 1;
  timestamp = "2026-01-01T00:00:00Z";
  run_id = "r1";
  score_revision = 0;
  movement_id = "m1";
  part_id = "p1";
  attempt_id = "a1";
  type = movement_ready;
  causation_id = "";
  payload = some (obj end);
}

abbrev completed : Event
completed = record readied { type = attempt_completed }

abbrev route : RoutedAmendment
route = record {
  proposal_id = "q1";
  decision_id = "d1";
  decision_type = "amendment";
  blocking = false;
  base_revision = 0;
  base_hash = "";
  classifier_version = 1;
}

abbrev routed : State
routed = record fresh_state { routed_amendments = ("q2", route) ∷ ("q1", route) ∷ [] }

abbrev lost_worktree : Action
lost_worktree = record (simple ActionKind.fail_worktree_lost true) {
  attempt_id = "a1";
  failure_kind = "task_failed";
  failure_reason = "worktree_lost";
}

abbrev task_failed : FailureCase
task_failed = record { attempt_kind = "task_failed"; acceptance_reason = "" }

abbrev retried : Disposition
retried = retry_disposition "quality_retry"

classified-realized_example :
    (r : Realization) × ((realize (replay_input retried "p1" ("p1" ∷ "p2" ∷ []) []) ≡ decided r)
      × Replays retried r)
unfolding partitur.Recovery.Consequence.classify_current partitur.Successor.classify
    partitur.Successor.classify_failure
classified-realized_example =
    classified-realized verifying lost_worktree task_failed retried refl refl

tables-valid_example :
    (valid (plan fresh_input) ≡ true)
    × ((valid (plan_attempt fresh_input) ≡ true)
        × ((valid (plan_acceptance fresh_input) ≡ true)
            × (valid (plan_scheduler fresh_input) ≡ true)))
tables-valid_example = tables-valid fresh_input

plan-Clear_example : (proceeds (plan fresh_input) ≡ true) ↔ Clear fresh_input
plan-Clear_example = plan-Clear fresh_input

plan-is_passive_example : is_passive (plan beside_owner) ≡ true
plan-is_passive_example = plan-is_passive beside_owner refl refl refl

plan_between_unit-progress_example : valid (plan_between_unit fresh) ≡ true
unfolding partitur.Recovery.Progress.in_order lookup partitur.Recovery.Scheduler.all_settled
plan_between_unit-progress_example = plan_between_unit-progress fresh refl refl refl

plan_scheduler-Eligible_example : Eligible fresh_state two_movements "m1"
unfolding plan_scheduler partitur.RunState.Types.terminal
    partitur.Recovery.Facts.current_head_attempt_in_flight
    partitur.Recovery.Facts.current_head_attempt partitur.Recovery.Scheduler.plan_recovered
    plan_between_unit partitur.Recovery.Scheduler.plan_movement
    partitur.Recovery.Scheduler.first_to_ready partitur.Recovery.Scheduler.may_become_ready lookup
    partitur.Recovery.Scheduler.dependencies_succeeded valid partitur.Recovery.Names.case_id
    partitur.Recovery.Names.action_kind
plan_scheduler-Eligible_example = plan_scheduler-Eligible fresh_input ready_first refl refl

evaluation-all_passed_example :
    Subject
      (λ a. all_passed a.criteria a.planned_criterion_ids ≡ true)
      (accepting passed)
      complete_evaluation
unfolding plan_acceptance partitur.Recovery.Facts.current_head_attempt lookup
    partitur.Recovery.Acceptance.plan_of_acceptance partitur.Recovery.Facts.failed_among
    partitur.Recovery.Facts.in_flight_among partitur.Recovery.Acceptance.plan_criteria
    partitur.Recovery.Facts.passed_among partitur.Recovery.Acceptance.by_subject
evaluation-all_passed_example =
    evaluation-all_passed (accepting passed) complete_evaluation refl refl

success-gate_open_example :
    Subject
      (λ a. a.evaluation_completed && gate_open (gate_of none) ≡ true)
      (accepting evaluated)
      succeed
unfolding plan_acceptance partitur.Recovery.Facts.current_head_attempt lookup
    partitur.Recovery.Acceptance.plan_of_acceptance partitur.Recovery.Facts.failed_among
    partitur.Recovery.Facts.in_flight_among partitur.Recovery.Acceptance.plan_evaluated_acceptance
    partitur.Recovery.Acceptance.by_subject
success-gate_open_example = success-gate_open (accepting evaluated) succeed refl refl

first_missing_routed_request-perm_example :
    first_missing_routed_request routed
    ≡ first_missing_routed_request
        (record routed { routed_amendments = ("q1", route) ∷ ("q2", route) ∷ [] })
unfolding partitur.Recovery.Requests.all_named
first_missing_routed_request-perm_example =
    first_missing_routed_request-perm routed (("q1", route) ∷ ("q2", route) ∷ []) refl
      (Permᴰ.swap refl refl)

fresh_proceeds : proceeds (plan fresh_input) ≡ true
unfolding plan partitur.RunState.Types.terminal partitur.Recovery.Plan.plan_lease
    partitur.Recovery.Plan.plan_authority partitur.RunState.Waiting.any_blocking
    partitur.Recovery.Plan.plan_evidence partitur.Recovery.Facts.first_missing_reference_reason
    partitur.Recovery.Facts.first_missing_of partitur.Recovery.Facts.is_missing
    partitur.Recovery.Plan.plan_requests partitur.Recovery.Facts.first_blocked_proposal_route
    first_missing_routed_request partitur.Recovery.Least.select_routed
    partitur.Recovery.Least.first_revision_restart partitur.Recovery.Least.select_restart
    partitur.Recovery.Plan.plan_continuation partitur.Recovery.Least.first_composition_terminal
    partitur.Recovery.Least.select_terminal lookup partitur.Recovery.Facts.current_head_attempt
    partitur.Recovery.Facts.first_missing_question_request partitur.Recovery.Least.pick_routed
    partitur.Recovery.Plan.has_missing_decision_request partitur.Recovery.Plan.plan_prepare
fresh_proceeds = refl

first_readied : (plan_scheduler fresh_input).action ≡ some ready_first
unfolding plan_scheduler partitur.RunState.Types.terminal
    partitur.Recovery.Facts.current_head_attempt_in_flight
    partitur.Recovery.Facts.current_head_attempt partitur.Recovery.Scheduler.plan_recovered
    plan_between_unit partitur.Recovery.Scheduler.plan_movement
    partitur.Recovery.Scheduler.first_to_ready partitur.Recovery.Scheduler.may_become_ready lookup
    partitur.Recovery.Scheduler.dependencies_succeeded valid partitur.Recovery.Names.case_id
    partitur.Recovery.Names.action_kind
first_readied = refl

accepting-proceeds : proceeds (plan (accepting evaluated)) ≡ true
unfolding plan partitur.RunState.Types.terminal partitur.Recovery.Plan.plan_lease
    partitur.Recovery.Plan.plan_authority partitur.RunState.Waiting.any_blocking
    partitur.Recovery.Plan.plan_evidence partitur.Recovery.Facts.first_missing_reference_reason
    partitur.Recovery.Facts.first_missing_of partitur.Recovery.Facts.is_missing
    partitur.Recovery.Plan.plan_requests partitur.Recovery.Facts.first_blocked_proposal_route
    first_missing_routed_request partitur.Recovery.Least.select_routed
    partitur.Recovery.Least.first_revision_restart partitur.Recovery.Least.select_restart
    partitur.Recovery.Plan.plan_continuation partitur.Recovery.Least.first_composition_terminal
    partitur.Recovery.Least.select_terminal lookup partitur.Recovery.Facts.current_head_attempt
    partitur.Recovery.Facts.first_missing_question_request partitur.Recovery.Least.pick_routed
    partitur.Recovery.Plan.has_missing_decision_request partitur.Recovery.Plan.plan_prepare
accepting-proceeds = refl

evaluated_succeeds : (plan_acceptance (accepting evaluated)).action ≡ some succeed
unfolding plan_acceptance partitur.Recovery.Facts.current_head_attempt lookup
    partitur.Recovery.Acceptance.plan_of_acceptance partitur.Recovery.Facts.failed_among
    partitur.Recovery.Facts.in_flight_among partitur.Recovery.Acceptance.plan_evaluated_acceptance
    partitur.Recovery.Acceptance.by_subject
evaluated_succeeds = refl

verifying_found : lookup "a1" (accepting evaluated).projection.state.attempts ≡ some tried
unfolding lookup
verifying_found = refl

readied-accepted_example : (apply readied fresh_state).0 ≡ ok tt
readied-accepted_example =
    readied-accepted fresh_input ready_first readied fresh_proceeds first_readied refl
      (record { type = refl; payload = refl }) refl refl

success-accepted_example : (apply completed (accepting evaluated).projection.state).0 ≡ ok tt
success-accepted_example =
    success-accepted (accepting evaluated) succeed completed accepting-proceeds tried
      evaluated_succeeds refl (record { type = refl; payload = refl }) refl refl verifying_found
      refl
