-- ===== src/RunState/Scenarios.antt =====
-- Events and states that the theorems are applied to: one run of each kind of step.
use partitur.Prelude.{
  ◌≡◌, ◌≤◌, ◌<◌, refl, arith, true, false, ℕ, none, some, [], ◌∷◌, pos, ◌+◌, ◌^◌, ◌⊎◌, List,
}
use partitur.Json.{must_int, Fields, field, end, Value, str, num, obj, arr, cons, nil}
use partitur.Dict.{lookup}
use partitur.RunState.Types.{
  RunLifecycle, MovementSeed, MovementState, AttemptState, ApplicationState, PromotionState,
  terminal,
}
use partitur.RunState.Event.{Event, EventType, is_derived_event, prepare_pending_mutation}
use partitur.RunState.State.{State, AppliedEvent, empty_state, new_state}
use partitur.RunState.Action.{ok, err, transition, unsupported_event_type}
use partitur.RunState.Waiting.{is_not_started}
use partitur.RunState.Payload.Validate.{validate_payload}
use partitur.RunState.Apply.{apply, dispatch}
use partitur.RunState.Replay.{replay}
use partitur.RunState.Footprint.{Within}
use partitur.RunState.Footprint.Dispatch.{dispatch-Within}
use partitur.RunState.Refused.{apply_refused}
use partitur.RunState.Barrier.{Held, apply-Held}
use partitur.RunState.Derived.{Derived, Caused, apply-Caused}
use partitur.RunState.Budget.{charged, replay-charged}
use partitur.RunState.Run.{RunStep}
use partitur.RunState.Run.Steps.{apply-RunStep}
use partitur.RunState.Run.Terminal.{replay-terminal}
use partitur.RunState.Pending.{PrepareMatches, apply-PrepareMatches}
use partitur.RunState.Head.{apply-revision}
use partitur.RunState.Fencing.{apply-epoch}
use partitur.RunState.Holding.{waits_for_blocking, apply-waits_for_blocking}
use partitur.RunState.Settled.{apply-settled}
use partitur.RunState.Cancelled.{attempt_over, movement_over, apply-cancelled}
use partitur.RunState.Reached.{replayed-all_sound, replayed-PrepareMatches}
use partitur.RunState.Outcomes.{all_sound, all_passed, Passed, apply-all_sound, completed-Passed}
use partitur.RunState.Transactions.{
  ApplicationStep, PromotionStep, apply-ApplicationStep, apply-PromotionStep,
}
use partitur.RunState.Accounting.{AccountOf, apply-AccountStep}

abbrev event_of : EventType → Fields → Event
event_of t p = record {
  event_id = "e1";
  seq = 1;
  timestamp = "2026-01-01T00:00:00Z";
  run_id = "r1";
  score_revision = 1;
  movement_id = "m1";
  part_id = "p1";
  attempt_id = "a1";
  type = t;
  causation_id = "";
  payload = some (obj p);
}

abbrev whole : ℕ → Value
whole n = num (record { truncated = pos n; fraction = 0 })

abbrev versions : Value
versions = obj (field "canonical_encoding" (whole 1) (field "projections" (obj end) end))

abbrev run_starts : Event
run_starts = event_of EventType.run_started (
    field "base_commit" (str "c1") (
      field "base_tree" (str "t1") (
        field "score_hash" (str "h1") (
          field "score_file_hash" (str "f1")
            (field "resolved_cast_hash" (str "k1") (field "identity_versions" versions end))))))

abbrev cancel_asked : Event
cancel_asked = event_of EventType.cancel_requested (field "requested_by" (str "cli") end)

abbrev movement_readied : Event
movement_readied = event_of EventType.movement_ready end

abbrev attempt_done : Event
attempt_done = event_of EventType.attempt_completed end

abbrev round_observed : Event
round_observed =
    event_of EventType.amendment_quiesce_observed
      (field "prepare_id" (str "pp1") (field "sweep_round" (whole 1) end))

abbrev epoch_granted : Event
epoch_granted = event_of EventType.authority_granted (
    field "authority_epoch" (whole 4) (
      field "owner_pid" (whole 77) (
        field "owner_start_identity"
          (obj (
            field "platform" (str "linux")
              (field "boot_id" (str "b1") (field "start_ticks" (str "123") end))))
          end)))

abbrev interval_opened : Event
interval_opened = event_of EventType.execution_started (
    field "interval_id" (str "i1") (
      field "phase" (str "performer") (
        field "wall_start" (str "2026-01-01T00:00:00Z")
          (field "remaining_at_start" (whole 90000) end))))

abbrev application_done : Event
application_done = event_of EventType.apply_completed (
    field "txn_id" (str "x1") (
      field "candidate_id" (str "k1")
        (field "result_tree" (str "t2") (field "identity_versions" versions end))))

abbrev score_is_promoted : Event
score_is_promoted = event_of EventType.score_promoted (
    field "txn_id" (str "x2") (
      field "candidate_id" (str "k1") (
        field "identity_versions" versions
          (field "target_revision" (whole 2) (field "target_snapshot_file_hash" (str "f2") end)))))

abbrev running_state : State
running_state = record empty_state {
  run = RunLifecycle.running;
  movements = ("m1", MovementState.running) ∷ [];
  movement_order = "m1" ∷ [];
  score_head = record { revision = 1; semantic_hash = "h1"; file_hash = "f1" };
  authority = record { epoch = 3; owner = none };
}

abbrev prepared_state : State
prepared_state = record running_state {
  pending_prepare = some (record {
    id = "pp1";
    proposal_id = "q1";
    mode = "auto";
    decision_id = none;
    envelope_class = "class";
    base_head = running_state.score_head;
    new_head = record { revision = 2; semantic_hash = "h2"; file_hash = "f2" };
    plan_record_hash = "n1";
    observed_authority_epoch = 3;
    quiesce_silence_limit_ms = 1000;
    prepared_at = "2026-01-01T00:00:00Z";
    latest_quiesce_round = 0;
    latest_quiesce_observed_at = "";
    target_attempt_ids = [];
    classifier_version = 1;
    identity_versions = none;
  });
}

abbrev waiting_state : State
waiting_state = record running_state {
  run = RunLifecycle.waiting_human;
  movements = ("m1", MovementState.waiting_human) ∷ [];
  pending_decisions =
      (
        "d1",
        record {
          id = "d1";
          type = "question";
          blocking = true;
          movement_id = "m1";
          attempt_id = "a1";
          score_revision = 1;
          proposal_id = "";
          gate_id = "";
          subject_tree = "";
          blocking_findings = [];
        },
      )
      ∷ [];
}

abbrev evaluated_state : State
evaluated_state = record running_state {
  attempts =
      (
        "a1",
        record {
          movement_id = "m1";
          score_revision = 1;
          state = AttemptState.verifying;
          failure = none;
        },
      )
      ∷ [];
  acceptances =
      (
        "a1",
        record {
          started = true;
          evaluation_completed = true;
          subject_tree = "t1";
          spec_hash = "s1";
          planned_criterion_ids = "c1" ∷ [];
          criteria =
              (
                "c1",
                record {
                  started = true;
                  completed = true;
                  spec_hash = "cs1";
                  subject_tree = "t1";
                  outcome = "PASS";
                },
              )
              ∷ [];
          review_outcome = "";
          blocking_findings = [];
        },
      )
      ∷ [];
}

abbrev applying_state : State
applying_state = record running_state {
  run = RunLifecycle.succeeded;
  application = record {
    state = ApplicationState.applying;
    transaction_id = "x1";
    candidate_id = "k1";
    reason = "";
  };
  promotion = record {
    state = PromotionState.promoting;
    transaction_id = "x2";
    candidate_id = "k1";
    reason = "";
  };
}

apply-RunStep_example : RunStep empty_state.run (apply run_starts empty_state).1.run
apply-RunStep_example = apply-RunStep run_starts empty_state

run_starts_accepted : (apply run_starts empty_state).1.run ≡ RunLifecycle.running
unfolding apply validate_payload partitur.RunState.Payload.Names.payload_fields
    partitur.RunState.Payload.Validate.payload_valid partitur.RunState.Decode.fields
    partitur.Json.get partitur.Json.names partitur.RunState.Decode.named_types
    partitur.RunState.Decode.optional_names partitur.Json.must_object
    partitur.RunState.Apply.project partitur.RunState.Apply.require_causation is_derived_event
    dispatch partitur.RunState.Apply.note_applied partitur.RunState.Event.is_observational_event
run_starts_accepted = refl

applying-replay :
    replay (application_done ∷ []) applying_state ≡ ok (apply application_done applying_state).1
unfolding apply validate_payload partitur.RunState.Payload.Names.payload_fields
    partitur.RunState.Payload.Validate.payload_valid partitur.RunState.Decode.fields
    partitur.Json.get partitur.Json.names partitur.RunState.Decode.named_types
    partitur.RunState.Decode.optional_names partitur.Json.must_object
    partitur.RunState.Apply.project partitur.RunState.Apply.require_causation is_derived_event
    dispatch partitur.RunState.Guards.matches_application_transaction partitur.Json.must_string
    replay terminal
applying-replay = refl

applying-terminal : terminal applying_state.run ≡ true
unfolding terminal
applying-terminal = refl

replay-terminal_example : (apply application_done applying_state).1.run ≡ applying_state.run
replay-terminal_example =
    replay-terminal (application_done ∷ []) applying_state (apply application_done applying_state).1
      applying-replay applying-terminal

evaluated_sound : all_sound evaluated_state ≡ true
unfolding partitur.Dict.all_values partitur.RunState.Outcomes.is_sound all_passed
    partitur.Dict.lookup
evaluated_sound = refl

apply-all_sound_example : all_sound (apply attempt_done evaluated_state).1 ≡ true
apply-all_sound_example = apply-all_sound attempt_done evaluated_state evaluated_sound

prepared_matches : PrepareMatches prepared_state
prepared_matches = record { base = refl; next = refl; observed = refl }

round_accepted : (apply round_observed prepared_state).0 ≡ ok tt
unfolding apply validate_payload partitur.RunState.Payload.Names.payload_fields
    partitur.RunState.Payload.Validate.payload_valid partitur.RunState.Decode.fields
    partitur.Json.get partitur.Json.names partitur.RunState.Decode.named_types
    partitur.RunState.Apply.project partitur.RunState.Apply.require_causation is_derived_event
    prepare_pending_mutation dispatch partitur.Json.must_string partitur.Json.must_uint
round_accepted = refl

prepared_started : is_not_started prepared_state.run ≡ false
prepared_started = refl

apply-PrepareMatches_example : PrepareMatches (apply round_observed prepared_state).1
apply-PrepareMatches_example =
    apply-PrepareMatches round_observed prepared_state round_accepted prepared_matches

apply-revision_example :
    ((apply round_observed prepared_state).1.score_head ≡ prepared_state.score_head)
    ⊎ ((apply round_observed prepared_state).1.score_head.revision ≡ 2)
apply-revision_example =
    apply-revision round_observed prepared_state prepared_matches prepared_started round_accepted

readied_refused :
    (apply movement_readied running_state).0
    ≡ err (transition movement_readied "movement is not in a legal source state")
unfolding apply validate_payload partitur.RunState.Payload.Names.payload_fields
    partitur.RunState.Payload.Validate.payload_valid partitur.RunState.Decode.fields
    partitur.Json.names partitur.RunState.Decode.named_types partitur.Json.get
    partitur.RunState.Apply.project partitur.RunState.Apply.require_causation is_derived_event
    dispatch partitur.Dict.lookup
readied_refused = refl

apply_refused_example : (apply movement_readied running_state).1 ≡ running_state
apply_refused_example =
    apply_refused movement_readied running_state
      (transition movement_readied "movement is not in a legal source state") refl readied_refused

cancel_accepted : (apply cancel_asked waiting_state).0 ≡ ok tt
unfolding apply validate_payload partitur.RunState.Payload.Names.payload_fields
    partitur.RunState.Payload.Validate.payload_valid partitur.RunState.Decode.fields
    partitur.Json.get partitur.Json.names partitur.RunState.Decode.named_types
    partitur.Json.must_string partitur.RunState.Apply.project
    partitur.RunState.Apply.require_causation is_derived_event dispatch terminal
cancel_accepted = refl

waiting_waits : waits_for_blocking waiting_state ≡ true
unfolding terminal partitur.RunState.Waiting.any_blocking
waiting_waits = refl

apply-waits_for_blocking_example : waits_for_blocking (apply cancel_asked waiting_state).1 ≡ true
apply-waits_for_blocking_example =
    apply-waits_for_blocking cancel_asked waiting_state refl waiting_waits cancel_accepted

granted_accepted : (apply epoch_granted running_state).0 ≡ ok tt
unfolding apply validate_payload partitur.RunState.Payload.Names.payload_fields
    partitur.RunState.Payload.Validate.payload_valid partitur.RunState.Decode.fields
    partitur.Json.get partitur.Json.names partitur.RunState.Decode.named_types
    partitur.RunState.Decode.optional_names partitur.Json.must_object
    partitur.RunState.Apply.project partitur.RunState.Apply.require_causation is_derived_event
    dispatch partitur.RunState.Guards.matches_application_transaction partitur.Json.must_string
    partitur.RunState.Decode.start_identity partitur.RunState.Decode.valid_uint_string
    partitur.Json.string_field partitur.Json.must_uint partitur.Json.must_int
    partitur.RunState.Payload.Values.payload_values_valid terminal partitur.Json.optional_uint
granted_accepted = refl

small_epoch : running_state.authority.epoch + 1 < 2 ^ 64
small_epoch = ground arith

apply-epoch_example :
    running_state.authority.epoch ≤ (apply epoch_granted running_state).1.authority.epoch
apply-epoch_example = apply-epoch epoch_granted running_state small_epoch granted_accepted

opened_accepted : (apply interval_opened running_state).0 ≡ ok tt
unfolding apply validate_payload partitur.RunState.Payload.Names.payload_fields
    partitur.RunState.Payload.Validate.payload_valid partitur.RunState.Decode.fields
    partitur.Json.get partitur.Json.names partitur.RunState.Decode.named_types must_int
    partitur.RunState.Apply.project partitur.RunState.Apply.require_causation is_derived_event
    dispatch
opened_accepted = refl

application_accepted : (apply application_done applying_state).0 ≡ ok tt
unfolding apply validate_payload partitur.RunState.Payload.Names.payload_fields
    partitur.RunState.Payload.Validate.payload_valid partitur.RunState.Decode.fields
    partitur.Json.get partitur.Json.names partitur.RunState.Decode.named_types
    partitur.RunState.Decode.optional_names partitur.Json.must_object
    partitur.RunState.Apply.project partitur.RunState.Apply.require_causation is_derived_event
    dispatch partitur.RunState.Guards.matches_application_transaction partitur.Json.must_string
application_accepted = refl

apply-ApplicationStep_example :
    ApplicationStep applying_state.application (apply application_done applying_state).1.application
apply-ApplicationStep_example =
    apply-ApplicationStep application_done applying_state application_accepted

promotion_accepted : (apply score_is_promoted applying_state).0 ≡ ok tt
unfolding apply validate_payload partitur.RunState.Payload.Names.payload_fields
    partitur.RunState.Payload.Validate.payload_valid partitur.RunState.Decode.fields
    partitur.Json.get partitur.Json.names partitur.RunState.Decode.named_types
    partitur.RunState.Decode.optional_names partitur.Json.must_object
    partitur.RunState.Apply.project partitur.RunState.Apply.require_causation is_derived_event
    dispatch partitur.RunState.Guards.matches_promotion_transaction partitur.Json.must_string
promotion_accepted = refl

apply-PromotionStep_example :
    PromotionStep applying_state.promotion (apply score_is_promoted applying_state).1.promotion
apply-PromotionStep_example =
    apply-PromotionStep score_is_promoted applying_state promotion_accepted

dispatch-Within_example :
    Within EventType.attempt_completed evaluated_state
      (dispatch EventType.attempt_completed attempt_done end evaluated_state).1
dispatch-Within_example =
    dispatch-Within EventType.attempt_completed attempt_done end evaluated_state

abbrev one_seed : List MovementSeed
one_seed =
    record {
      id = "m1";
      initial = MovementState.pending;
      repo_write = true;
      has_dependencies = false;
      is_final = true;
    }
    ∷ []

abbrev seeded_state : State
seeded_state = record empty_state {
  movements = ("m1", MovementState.pending) ∷ [];
  movement_order = "m1" ∷ [];
  repo_write_movements = ("m1", true) ∷ [];
  final_movements = ("m1", true) ∷ [];
}

one_seed_accepted : new_state one_seed ≡ some seeded_state
unfolding new_state partitur.Dict.lookup partitur.Dict.insert
one_seed_accepted = refl

starts-replay : replay (run_starts ∷ []) seeded_state ≡ ok (apply run_starts seeded_state).1
unfolding replay apply validate_payload partitur.RunState.Payload.Names.payload_fields
    partitur.RunState.Payload.Validate.payload_valid partitur.RunState.Decode.fields
    partitur.Json.get partitur.Json.names partitur.RunState.Decode.named_types
    partitur.RunState.Decode.optional_names partitur.Json.must_object
    partitur.RunState.Apply.project partitur.RunState.Apply.require_causation is_derived_event
    dispatch
starts-replay = refl

replayed-all_sound_example : all_sound (apply run_starts seeded_state).1 ≡ true
replayed-all_sound_example =
    replayed-all_sound one_seed (run_starts ∷ []) seeded_state (apply run_starts seeded_state).1
      one_seed_accepted starts-replay

replayed-PrepareMatches_example : PrepareMatches (apply run_starts seeded_state).1
replayed-PrepareMatches_example =
    replayed-PrepareMatches one_seed (run_starts ∷ []) seeded_state
      (apply run_starts seeded_state).1 one_seed_accepted starts-replay

abbrev run_fails : Event
run_fails = event_of EventType.run_failed (field "reason" (str "candidate_incompatible") end)

fails_accepted : (apply run_fails running_state).0 ≡ ok tt
unfolding apply validate_payload partitur.RunState.Payload.Names.payload_fields
    partitur.RunState.Payload.Validate.payload_valid partitur.RunState.Decode.fields
    partitur.Json.get partitur.Json.names partitur.RunState.Decode.named_types
    partitur.RunState.Apply.project partitur.RunState.Apply.require_causation is_derived_event
    dispatch
fails_accepted = refl

running_alive : terminal running_state.run ≡ false
unfolding terminal
running_alive = refl

failed_terminal : terminal (apply run_fails running_state).1.run ≡ true
unfolding terminal apply validate_payload partitur.RunState.Payload.Names.payload_fields
    partitur.RunState.Payload.Validate.payload_valid partitur.RunState.Decode.fields
    partitur.Json.get partitur.Json.names partitur.RunState.Decode.named_types
    partitur.RunState.Apply.project partitur.RunState.Apply.require_causation is_derived_event
    dispatch partitur.RunState.Apply.note_applied partitur.RunState.Event.is_observational_event
    partitur.RunState.Waiting.close_all_pending_decisions
    partitur.RunState.Waiting.refresh_waiting_human partitur.RunState.Waiting.hold_movements
    partitur.RunState.Waiting.any_blocking partitur.RunState.Waiting.release_movements
failed_terminal = refl

apply-settled_example : (apply run_fails running_state).1.pending_decisions ≡ []
apply-settled_example =
    apply-settled run_fails running_state fails_accepted running_alive failed_terminal

abbrev run_is_cancelled : Event
run_is_cancelled = event_of EventType.run_cancelled (
    field "cancelled_movement_ids" (arr (cons (str "m1") nil)) (
      field "cancelled_attempt_ids" (arr (cons (str "a1") nil))
        (field "obsoleted_decision_ids" (arr nil) end)))

cancellation_accepted : (apply run_is_cancelled evaluated_state).0 ≡ ok tt
unfolding terminal apply validate_payload partitur.RunState.Payload.Names.payload_fields
    partitur.RunState.Payload.Validate.payload_valid partitur.RunState.Decode.fields
    partitur.Json.get partitur.Json.names partitur.RunState.Decode.named_types
    partitur.RunState.Apply.project partitur.RunState.Apply.require_causation is_derived_event
    dispatch partitur.RunState.Apply.note_applied partitur.RunState.Event.is_observational_event
    partitur.RunState.Waiting.close_all_pending_decisions
    partitur.RunState.Waiting.refresh_waiting_human partitur.RunState.Waiting.hold_movements
    partitur.RunState.Waiting.any_blocking partitur.RunState.Waiting.release_movements
    partitur.RunState.Handlers.Run.require_cancellation
    partitur.RunState.Waiting.pending_decision_ids
    partitur.RunState.Waiting.cancellable_movement_ids
    partitur.RunState.Waiting.cancellable_attempt_ids partitur.RunState.Waiting.live_movements
    partitur.RunState.Waiting.live_attempts partitur.RunState.Types.ended
    partitur.RunState.Payload.Types.string_array
    partitur.RunState.Payload.Values.payload_values_valid
    partitur.RunState.Handlers.Run.cancel_movements partitur.RunState.Handlers.Run.cancel_attempts
    partitur.RunState.Decode.optional_names partitur.Json.must_strings partitur.Json.must_string
    partitur.Json.optional_uint partitur.Json.must_array partitur.Dict.keys partitur.Prelude.sort
cancellation_accepted = refl

apply-cancelled_example :
    (attempt_over (lookup "a1" (apply run_is_cancelled evaluated_state).1.attempts) ≡ true)
    × (movement_over (lookup "a1" (apply run_is_cancelled evaluated_state).1.movements) ≡ true)
apply-cancelled_example =
    apply-cancelled run_is_cancelled evaluated_state "a1" refl cancellation_accepted

attempt_accepted : (apply attempt_done evaluated_state).0 ≡ ok tt
unfolding apply validate_payload partitur.RunState.Payload.Names.payload_fields
    partitur.RunState.Payload.Validate.payload_valid partitur.RunState.Decode.fields
    partitur.Json.names partitur.RunState.Decode.named_types partitur.Json.get
    partitur.RunState.Apply.project partitur.RunState.Apply.require_causation is_derived_event
    dispatch lookup
attempt_accepted = refl

completed-Passed_example : Passed evaluated_state "a1"
completed-Passed_example =
    completed-Passed attempt_done evaluated_state evaluated_sound refl attempt_accepted

apply-Held_example :
    Held EventType.amendment_quiesce_observed prepared_state (apply round_observed prepared_state).1
apply-Held_example = apply-Held round_observed prepared_state round_accepted refl

abbrev cancellation : AppliedEvent
cancellation = record { type = EventType.run_cancelled; sequence = 0; terminalizes_run = true }

abbrev over_state : State
over_state = record running_state { applied_events = ("c1", cancellation) ∷ [] }

abbrev attempt_dropped : Event
attempt_dropped = record (event_of EventType.attempt_cancelled end) { causation_id = "c1" }

dropped_valid : validate_payload attempt_dropped ≡ ok end
unfolding validate_payload partitur.RunState.Payload.Names.payload_fields
    partitur.RunState.Payload.Validate.payload_valid partitur.RunState.Decode.fields
    partitur.Json.names partitur.RunState.Decode.named_types partitur.Json.get
dropped_valid = refl

dropped_unsupported :
    (apply attempt_dropped over_state).0 ≡ err (unsupported_event_type EventType.attempt_cancelled)
unfolding apply validate_payload partitur.RunState.Payload.Names.payload_fields
    partitur.RunState.Payload.Validate.payload_valid partitur.RunState.Decode.fields
    partitur.Json.names partitur.RunState.Decode.named_types partitur.Json.get
    partitur.RunState.Apply.project partitur.RunState.Apply.require_causation is_derived_event
    lookup dispatch partitur.RunState.Event.is_registry_event
dropped_unsupported = refl

apply-Caused_example : Caused attempt_dropped over_state
apply-Caused_example =
    apply-Caused attempt_dropped end over_state Derived.attempt_cancelled dropped_valid
      dropped_unsupported

apply-AccountStep_example :
    (p : Fields) × (validate_payload interval_opened ≡ ok p)
    × AccountOf EventType.execution_started p running_state (apply interval_opened running_state).1
apply-AccountStep_example = apply-AccountStep interval_opened running_state opened_accepted

abbrev interval_closed : Event
interval_closed = event_of EventType.execution_stopped (
    field "interval_id" (str "i1") (
      field "reason" (str "completed")
        (field "charging" (str "exact") (field "charged_duration" (whole 60000) end))))

abbrev charged_state : State
charged_state = (apply interval_closed (apply interval_opened running_state).1).1

replayed_closed : replay (interval_opened ∷ interval_closed ∷ []) running_state ≡ ok charged_state
unfolding replay apply validate_payload partitur.RunState.Payload.Names.payload_fields
    partitur.RunState.Payload.Validate.payload_valid partitur.RunState.Decode.fields
    partitur.Json.names partitur.RunState.Decode.named_types partitur.Json.get
    partitur.RunState.Apply.project partitur.RunState.Apply.require_causation is_derived_event
    lookup dispatch partitur.RunState.Event.is_registry_event
    partitur.RunState.Decode.optional_names must_int partitur.Json.must_string
    partitur.RunState.Payload.Values.payload_values_valid partitur.RunState.Apply.note_applied
    partitur.RunState.Event.is_observational_event
replayed_closed = refl

replay-charged_example :
    charged_state.consumed_budget_ms ≡ charged (interval_opened ∷ interval_closed ∷ []) (pos 0)
replay-charged_example =
    replay-charged (interval_opened ∷ interval_closed ∷ []) running_state charged_state
      replayed_closed
