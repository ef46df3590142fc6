-- ===== src/RunState/Handlers/Attempt.antt =====
-- internal/runstate/apply.go: the attempt events of `Apply`, and what an attempt records.
use Prim.Native.String.{◌++◌}
use partitur.Prelude.{String, Bool, true, ◌||◌, Option, none, some, str_eq, bool_ne}
use partitur.Dict.{lookup, insert, has}
use partitur.Json.{
  Fields, get, has_field, must_object, must_string, must_strings, must_array, must_uint,
}
use partitur.RunState.Types.{AttemptState, Acceptance, AdapterObservation}
use partitur.RunState.Event.{Event}
use partitur.RunState.Action.{
  Action, gets, some_or, ◌>>=◌, ◌>>◌, modify, raise_if, raise_unless, when, transition, invalid,
}
use partitur.RunState.Waiting.{movement_running, holds, flag}
use partitur.RunState.Guards.{
  require_attempt, is_starting, is_attempt_running, is_verifying, is_running_or_verifying,
  is_live_attempt, put_attempt, move_attempt, require_own_attempt, require_probed,
}
use partitur.RunState.Decode.{
  process_identity, disposition, bool_map, delivered_resolutions, delivered_feedback,
}

-- The checks of `case EventPerformerSelected`.
unfoldable pub require_selection : Event → Action (Unit {0})
require_selection e = do
  raise_if (str_eq e.attempt_id "" || str_eq e.movement_id "")
      (invalid e "attempt_id and movement_id are required")
  exists ← gets (λ s. has e.attempt_id s.attempts)
  raise_if exists (transition e "attempt already exists")
  found ← gets (λ s. lookup e.movement_id s.movements)
  raise_unless (holds movement_running found) (transition e "movement is not RUNNING")

-- `case EventPerformerSelected`
unfoldable pub on_performer_selected : Event → Fields → Action (Unit {0})
on_performer_selected e p = do
  require_selection e
  modify (
      put_attempt e.attempt_id (record {
        movement_id = e.movement_id;
        score_revision = e.score_revision;
        state = AttemptState.starting;
        failure = none;
      }))

-- `case EventAttemptStarted`
unfoldable pub on_attempt_started : Event → Fields → Action (Unit {0})
on_attempt_started e p = do
  attempt ← require_attempt is_starting e
  dependent ← gets (λ s. flag e.movement_id s.dependency_movements)
  raise_if (bool_ne dependent (has_field p "base_composition_hash"))
      (invalid e "base_composition_hash presence does not match movement dependencies")
  process ←
      some_or (process_identity (must_object p "adapter_process")) (invalid e "adapter_process")
  move_attempt e attempt AttemptState.running
  modify (λ s. record s {
    adapter_launches =
        insert e.attempt_id (record { attempt_id = e.attempt_id; process = process })
          s.adapter_launches;
  })

unfoldable pub observation_of : Fields → AdapterObservation
observation_of p = record {
  adapter_version = must_string p "adapter_version";
  capabilities = bool_map (must_object p "capabilities");
  enforcement = bool_map (must_object p "enforcement");
  negotiated_features = must_strings p "negotiated_features";
  truncated_resolutions = must_strings p "truncated_resolutions";
  delivered_resolutions = delivered_resolutions (must_array p "delivered_resolutions");
  delivered_feedback = delivered_feedback (must_array p "delivered_feedback");
  advisory_dimensions = must_strings p "advisory_dimensions";
  execution_dependency_hash = must_string p "execution_dependency_hash";
  identity_versions = get p "identity_versions";
}

-- `case EventAdapterProbed`
unfoldable pub on_adapter_probed : Event → Fields → Action (Unit {0})
on_adapter_probed e p = do
  require_attempt is_attempt_running e
  exists ← gets (λ s. has e.attempt_id s.adapter_observations)
  raise_if exists (transition e "adapter already probed")
  modify (λ s. record s {
    adapter_observations = insert e.attempt_id (observation_of p) s.adapter_observations;
  })

-- `case EventPerformerCompleted`
unfoldable pub on_performer_completed : Event → Fields → Action (Unit {0})
on_performer_completed e p = do
  attempt ← require_attempt is_attempt_running e
  require_probed e
  move_attempt e attempt AttemptState.verifying

abbrev pub evaluated : Option Acceptance → Bool
evaluated = holds (λ a. a.evaluation_completed)

-- `case EventAttemptCompleted`
unfoldable pub on_attempt_completed : Event → Fields → Action (Unit {0})
on_attempt_completed e p = do
  attempt ← require_attempt is_verifying e
  acceptance ← gets (λ s. lookup e.attempt_id s.acceptances)
  raise_unless (evaluated acceptance) (transition e "acceptance evaluation is not completed")
  move_attempt e attempt AttemptState.completed

-- `case EventAttemptFailed`
unfoldable pub on_attempt_failed : Event → Fields → Action (Unit {0})
on_attempt_failed e p = do
  attempt ← require_attempt is_live_attempt e
  modify (
      put_attempt e.attempt_id (record attempt {
        state = AttemptState.failed;
        failure = some (record {
          kind = must_string p "kind";
          reason = must_string p "reason";
          disposition = disposition (must_object p "disposition");
        });
      }))

abbrev artifact_id : Event → Fields → String
artifact_id e p = must_string p "logical_output_id" ++ ("@" ++ e.attempt_id)

-- The checks of `case EventArtifactRecorded`.
unfoldable pub require_artifact : Event → Fields → Action (Unit {0})
require_artifact e p = do
  attempt ← require_attempt is_running_or_verifying e
  require_own_attempt e attempt
  when (is_attempt_running attempt.state) (require_probed e)
  exists ← gets (λ s. has (artifact_id e p) s.artifacts)
  raise_if exists (transition e "artifact instance already recorded")

-- `case EventArtifactRecorded`
unfoldable pub on_artifact_recorded : Event → Fields → Action (Unit {0})
on_artifact_recorded e p = do
  require_artifact e p
  modify (λ s. record s {
    artifacts =
        insert (artifact_id e p)
          (record {
            attempt_id = e.attempt_id;
            logical_output_id = must_string p "logical_output_id";
            kind = must_string p "kind";
            content_hash = must_string p "content_hash";
            size_bytes = must_uint p "size_bytes";
            source = must_string p "source_path";
          })
          s.artifacts;
  })

-- The checks of `case EventChangeSetRecorded`.
unfoldable pub require_change_set : Event → Action (Unit {0})
require_change_set e = do
  attempt ← require_attempt is_verifying e
  require_own_attempt e attempt
  repo_write ← gets (λ s. flag e.movement_id s.repo_write_movements)
  raise_unless repo_write (transition e "movement is not repo_write")
  exists ← gets (λ s. has e.attempt_id s.change_sets)
  raise_if exists (transition e "change set already recorded")

-- `case EventChangeSetRecorded`
unfoldable pub on_change_set_recorded : Event → Fields → Action (Unit {0})
on_change_set_recorded e p = do
  require_change_set e
  modify (λ s. record s {
    change_sets =
        insert e.attempt_id
          (record {
            attempt_id = e.attempt_id;
            change_set_id = must_string p "change_set_id";
            base_tree = must_string p "base_tree";
            result_tree = must_string p "result_tree";
            commit = must_string p "commit";
            ref = must_string p "ref";
            identity_versions = get p "identity_versions";
          })
          s.change_sets;
  })

-- `case EventVerificationPassed`
unfoldable pub on_verification_passed : Event → Fields → Action (Unit {0})
on_verification_passed e p = do
  require_attempt is_verifying e
  verified ← gets (λ s. flag e.attempt_id s.verified_attempts)
  raise_if verified (transition e "verification already passed")
  modify (λ s. record s { verified_attempts = insert e.attempt_id true s.verified_attempts })
