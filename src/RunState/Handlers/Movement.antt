-- ===== src/RunState/Handlers/Movement.antt =====
-- internal/runstate/apply.go: the movement events of `Apply`.
use partitur.Prelude.{
  String, Bool, true, false, ◌&&◌, ◌||◌, not, none, some, str_eq, is_some, bool_ne, equal,
}
use partitur.Dict.{lookup, insert}
use partitur.Json.{Fields, must_string, must_strings, must_bool, string_field}
use partitur.RunState.Types.{RunLifecycle, MovementState, AttemptState, MovementResult}
use partitur.RunState.Event.{Event}
use partitur.RunState.Action.{
  pure, Action, raise, gets, ◌>>=◌, ◌>>◌, modify, raise_if, raise_unless, when, transition, invalid,
}
use partitur.RunState.Waiting.{
  is_running, is_waiting, movement_running, holds, flag, artifact_ids_for_attempt,
  all_other_movements_finished, repo_writes_settled,
}
use partitur.RunState.Guards.{
  require_movement, require_attempt, is_verifying, is_completed, put_movement, move_attempt,
  require_own_attempt,
}
use partitur.RunState.Handlers.Run.{finish_run}

abbrev pub is_pending : MovementState → Bool
is_pending MovementState.pending = true
is_pending _ = false

abbrev pub is_ready : MovementState → Bool
is_ready MovementState.ready = true
is_ready _ = false

abbrev is_running_or_waiting : MovementState → Bool
is_running_or_waiting MovementState.running = true
is_running_or_waiting MovementState.waiting_human = true
is_running_or_waiting _ = false

-- `case EventMovementReady`
unfoldable pub on_movement_ready : Event → Fields → Action (Unit {0})
on_movement_ready e p = do
  require_movement is_pending e
  modify (put_movement e.movement_id MovementState.ready)

-- `case EventMovementStarted`
unfoldable pub on_movement_started : Event → Fields → Action (Unit {0})
on_movement_started e p = do
  require_movement is_ready e
  modify (put_movement e.movement_id MovementState.running)

-- The run of the last movement whose gate was rejected fails with it.
abbrev fail_run : Event → Action (Unit {0})
fail_run e = do
  run ← gets (λ s. s.run)
  raise_unless (is_running run || is_waiting run) (transition e "run is not nonterminal")
  modify (finish_run RunLifecycle.failed)

-- The branch of `case EventMovementFailed` for a rejected human gate.
unfoldable pub reject_gate : Event → Fields → Action (Unit {0})
reject_gate e p = do
  attempt ← require_attempt is_verifying e
  require_own_attempt e attempt
  finishes ← gets (λ s. all_other_movements_finished e.movement_id s.movements)
  raise_if (bool_ne (must_bool p "run_failed") finishes)
      (invalid e "run_failed does not match final movement")
  when finishes (fail_run e)
  move_attempt e attempt AttemptState.failed

abbrev fail_attempt : Event → Fields → Bool → Action (Unit {0})
fail_attempt e p true = reject_gate e p
fail_attempt e p false =
    raise_if (must_bool p "run_failed")
      (invalid e "run_failed is only valid for final human_gate_rejected")

-- `case EventMovementFailed`
unfoldable pub on_movement_failed : Event → Fields → Action (Unit {0})
on_movement_failed e p = do
  require_movement is_running_or_waiting e
  fail_attempt e p (str_eq (must_string p "reason") "human_gate_rejected")
  modify (put_movement e.movement_id MovementState.failed)

abbrev approved_change_set : Fields → String
approved_change_set p = elim (string_field p "approved_change_set_id") [ none ↦ "" | some id ↦ id ]

abbrev result_of : Event → Fields → MovementResult
result_of e p = record {
  attempt_id = e.attempt_id;
  approved_artifact_instance_ids = must_strings p "approved_artifact_instance_ids";
  approved_change_set_id = approved_change_set p;
}

-- The checks of `case EventMovementSucceeded`, with whether the movement is a final one.
unfoldable pub require_succeeded : Event → Fields → Action Bool
require_succeeded e p = do
  run ← gets (λ s. s.run)
  raise_unless (is_running run) (transition e "run is not RUNNING")
  require_movement movement_running e
  attempt ← require_attempt is_completed e
  require_own_attempt e attempt
  artifacts ← gets (λ s. artifact_ids_for_attempt s e.attempt_id)
  raise_unless (equal (must_strings p "approved_artifact_instance_ids") artifacts)
      (invalid e "approved artifacts do not match the completed attempt")
  repo_write ← gets (λ s. flag e.movement_id s.repo_write_movements)
  raise_if (bool_ne repo_write (is_some (string_field p "approved_change_set_id")))
      (invalid e "approved_change_set_id presence does not match repo_write")
  finishes ← gets (λ s. flag e.movement_id s.final_movements)
  raise_if (bool_ne (must_bool p "run_succeeded") finishes)
      (invalid e "run_succeeded does not match final movement")
  recorded ← gets (λ s. is_some s.application_candidate)
  raise_if (finishes && not recorded) (transition e "application candidate is not recorded")
  pure finishes

-- `case EventMovementSucceeded`
unfoldable pub on_movement_succeeded : Event → Fields → Action (Unit {0})
on_movement_succeeded e p = do
  finishes ← require_succeeded e p
  modify (put_movement e.movement_id MovementState.succeeded)
  modify
      (λ s. record s { movement_results = insert e.movement_id (result_of e p) s.movement_results })
  when finishes (modify (finish_run RunLifecycle.succeeded))

-- `requireCompositionSource`
unfoldable pub require_composition_source : Event → Fields → Action (Unit {0})
require_composition_source e p = elim (str_eq (must_string p "scope") "movement") [
  | true ↦ do
    raise_if (str_eq e.movement_id "" || not (str_eq (must_string p "target_id") e.movement_id))
        (invalid e "movement composition target does not match envelope movement")
    found ← gets (λ s. lookup e.movement_id s.movements)
    raise_unless (holds movement_running found)
        (transition e "movement is not RUNNING for composition")
  | false ↦ elim (str_eq (must_string p "scope") "candidate") [
    | true ↦ do
      raise_unless (str_eq (must_string p "target_id") e.run_id)
          (invalid e "candidate composition target does not match run")
      run ← gets (λ s. s.run)
      recorded ← gets (λ s. is_some s.application_candidate)
      raise_if (not (is_running run) || recorded)
          (transition e "candidate composition is not legal")
      settled ← gets (λ s. repo_writes_settled s.repo_write_movements s.movements)
      raise_unless settled (transition e "repo_write movement has not succeeded")
    | false ↦ raise (invalid e "invalid composition scope")
  ]
]
