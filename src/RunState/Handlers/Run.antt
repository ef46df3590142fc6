-- ===== src/RunState/Handlers/Run.antt =====
-- internal/runstate/apply.go: the run events and the candidate events of `Apply`.
use partitur.Prelude.{
  ℕ, String, true, ◌||◌, Option, none, some, List, [], ◌∷◌, ◌==◌, is_some, equal, add_uint64,
}
use partitur.Dict.{Dict, lookup, insert}
use partitur.Json.{
  Value, Fields, get, must_object, must_string, must_strings, must_array, optional_uint,
}
use partitur.RunState.Types.{
  RunLifecycle, MovementState, Attempt, AttemptState, ApplicationCandidate, terminal,
}
use partitur.RunState.Event.{Event}
use partitur.RunState.State.{State}
use partitur.RunState.Action.{
  Action, pure, gets, ◌>>=◌, ◌>>◌, modify, raise_if, raise_unless, transition, invalid,
}
use partitur.RunState.Waiting.{
  is_not_started, is_running, close_all_pending_decisions, cancellable_movement_ids,
  cancellable_attempt_ids, pending_decision_ids, repo_writes_settled,
}
use partitur.RunState.Decode.{candidate_contributors}

-- `case EventRunStarted`
unfoldable pub on_run_started : Event → Fields → Action (Unit {0})
on_run_started e p = do
  run ← gets (λ s. s.run)
  raise_unless (is_not_started run) (transition e "run already started")
  modify (λ s. record s {
    run = RunLifecycle.running;
    score_head = record {
      revision = e.score_revision;
      semantic_hash = must_string p "score_hash";
      file_hash = must_string p "score_file_hash";
    };
  })

-- The candidate of an event, from the object that describes it.
unfoldable pub candidate_of : Event → Fields → Option Value → ApplicationCandidate
candidate_of e c versions = record {
  id = must_string c "candidate_id";
  revision = e.score_revision;
  base_tree = must_string c "base_tree";
  result_tree = must_string c "result_tree";
  ordered_change_sets = must_strings c "ordered_change_sets";
  contributors = candidate_contributors (must_array c "contributors");
  composition_dependency_hash = must_string c "candidate_composition_dependency_hash";
  composition_environment_hash = must_string c "composition_environment_hash";
  identity_versions = versions;
}

abbrev pub finish_run : RunLifecycle → State → State
finish_run r s = close_all_pending_decisions (record s { run = r })

-- `case EventRunSucceeded`
unfoldable pub on_run_succeeded : Event → Fields → Action (Unit {0})
on_run_succeeded e p = do
  run ← gets (λ s. s.run)
  raise_unless (is_running run) (transition e "run is not RUNNING")
  modify (λ s. finish_run RunLifecycle.succeeded (record s {
    application_candidate =
        some (candidate_of e (must_object p "candidate") (get p "identity_versions"));
  }))

-- `case EventRunFailed`
unfoldable pub on_run_failed : Event → Fields → Action (Unit {0})
on_run_failed e p = do
  run ← gets (λ s. s.run)
  raise_unless (is_running run) (transition e "run is not RUNNING")
  modify (finish_run RunLifecycle.failed)

unfoldable pub cancel_movements : List String → Dict MovementState → Dict MovementState
cancel_movements [] ms = ms
cancel_movements (id ∷ ids) ms = cancel_movements ids (insert id MovementState.cancelled ms)

-- The zero `Attempt`, with a state.
abbrev no_attempt : AttemptState → Attempt
no_attempt to = record { movement_id = ""; score_revision = 0; state = to; failure = none }

-- An entry of the map, or its zero value, with another state.
abbrev pub attempt_moved : AttemptState → Option Attempt → Attempt
attempt_moved to none = no_attempt to
attempt_moved to (some a) = record a { state = to }

unfoldable pub cancel_attempts : List String → Dict Attempt → Dict Attempt
cancel_attempts [] as_ = as_
cancel_attempts (id ∷ ids) as_ =
    cancel_attempts ids (insert id (attempt_moved AttemptState.cancelled (lookup id as_)) as_)

abbrev pub cancel_live : State → State
cancel_live s = record s {
  movements = cancel_movements (cancellable_movement_ids s) s.movements;
  attempts = cancel_attempts (cancellable_attempt_ids s) s.attempts;
}

abbrev pub fence : Option ℕ → Event → Action (Unit {0})
fence none e = pure tt
fence (some epoch) e = do
  old ← gets (λ s. s.authority.epoch)
  raise_unless (epoch == add_uint64 old 1)
      (invalid e "fenced_epoch is not observed authority epoch plus one")
  modify (λ s. record s { authority = record { epoch = epoch; owner = none } })

-- The checks of `case EventRunCancelled` before it writes.
unfoldable pub require_cancellation : Event → Fields → Action (Unit {0})
require_cancellation e p = do
  run ← gets (λ s. s.run)
  raise_if (is_not_started run || terminal run) (transition e "run is not nonterminal")
  prepared ← gets (λ s. is_some s.pending_prepare)
  raise_if prepared (transition e "prepare is still pending")
  decisions ← gets pending_decision_ids
  raise_unless (equal (must_strings p "obsoleted_decision_ids") decisions)
      (invalid e "obsoleted_decision_ids do not match the pre-event projection")
  movements ← gets cancellable_movement_ids
  raise_unless (equal (must_strings p "cancelled_movement_ids") movements)
      (invalid e "cancelled_movement_ids do not match the pre-event projection")
  attempts ← gets cancellable_attempt_ids
  raise_unless (equal (must_strings p "cancelled_attempt_ids") attempts)
      (invalid e "cancelled_attempt_ids do not match the pre-event projection")

-- `case EventRunCancelled`
unfoldable pub on_run_cancelled : Event → Fields → Action (Unit {0})
on_run_cancelled e p = do
  require_cancellation e p
  modify (λ s. finish_run RunLifecycle.cancelled (cancel_live s))
  fence (optional_uint p "fenced_epoch") e

-- `case EventApplicationCandidateRecorded`
unfoldable pub on_application_candidate_recorded : Event → Fields → Action (Unit {0})
on_application_candidate_recorded e p = do
  run ← gets (λ s. s.run)
  raise_unless (is_running run) (transition e "run is not RUNNING")
  recorded ← gets (λ s. is_some s.application_candidate)
  raise_if recorded (transition e "application candidate already recorded")
  settled ← gets (λ s. repo_writes_settled s.repo_write_movements s.movements)
  raise_unless settled (transition e "repo_write movement has not succeeded")
  modify (λ s. record s {
    application_candidate = some (candidate_of e p (get p "identity_versions"));
  })

-- `case EventCancelRequested`
unfoldable pub on_cancel_requested : Event → Fields → Action (Unit {0})
on_cancel_requested e p = do
  run ← gets (λ s. s.run)
  requested ← gets (λ s. s.cancel_requested)
  raise_if (is_not_started run || terminal run || requested)
      (transition e "cancellation cannot be requested")
  modify (λ s. record s { cancel_requested = true })
