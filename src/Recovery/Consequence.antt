-- ===== src/Recovery/Consequence.antt =====
-- internal/recoveryconsequence/consequence.go: the catalogue of consequences, the classification of
-- a failure from the planner's facts, and the event that a consequence is caused by. Reading the
-- journal and appending to it are left out: the events that were read are an argument.
use partitur.Prelude.{
  String, Bool, true, false, ◌&&◌, ◌||◌, not, Option, none, some, List, [], ◌∷◌, str_eq, contains,
  is_some, if◌then◌else◌,
}
use partitur.Dict.{lookup}
use partitur.Json.{Fields, field, end, str, bool, as_object, string_field}
use partitur.RunState.Types.{Disposition}
use partitur.RunState.Event.{
  Event, EventType, decision_requested, execution_stopped, attempt_failed, criterion_completed,
  acceptance_failed, attempt_completed, movement_succeeded, movement_failed, run_failed,
}
use partitur.RunState.State.{State}
use partitur.Successor.{Result, FailureCase, ClassificationInput, classify}
use partitur.Recovery.Names.{CaseId, ActionKind}
use partitur.Recovery.Types.{FailureClassification, AttemptRecovery, AcceptanceRecovery}
use partitur.Recovery.Decision.{Action}

-- The kinds of `catalog`.
unfoldable pub catalogued_kind : CaseId → Option ActionKind
catalogued_kind CaseId.composition_terminal = some ActionKind.append_composition_terminal
catalogued_kind CaseId.realize_disposition = some ActionKind.realize_recorded_disposition
catalogued_kind CaseId.append_question_request = some ActionKind.append_question_request
catalogued_kind CaseId.blocked_proposal_route = some ActionKind.append_blocked_proposal_route
catalogued_kind CaseId.routed_amendment = some ActionKind.append_routed_request
catalogued_kind CaseId.movement_succeeded = some ActionKind.append_movement_succeeded
catalogued_kind CaseId.run_failed = some ActionKind.append_run_failed
catalogued_kind CaseId.final_gate_rejected = some ActionKind.append_final_gate_failure
catalogued_kind CaseId.acceptance_failed = some ActionKind.realize_recorded_disposition
catalogued_kind CaseId.criterion_failed = some ActionKind.append_acceptance_failure
catalogued_kind CaseId.criteria_passed = some ActionKind.append_evaluation_completed
catalogued_kind CaseId.request_human_gate = some ActionKind.append_human_gate_request
catalogued_kind CaseId.human_gate_approved = some ActionKind.append_acceptance_success
catalogued_kind CaseId.human_gate_rejected = some ActionKind.append_gate_rejected_failure
catalogued_kind CaseId.gate_free_completion = some ActionKind.append_acceptance_success
catalogued_kind _ = none

-- `Handles`
unfoldable pub handles : CaseId → Bool
handles c = is_some (catalogued_kind c)

-- The loop over the fallbacks in `Classify`.
unfoldable pub any_unvisited : List String → List String → Bool
any_unvisited visited [] = false
any_unvisited visited (x ∷ xs) = not (contains visited x) || any_unvisited visited xs

abbrev pub has_unvisited_fallback : FailureClassification → Bool
has_unvisited_fallback f = any_unvisited (f.current_performer ∷ f.visited_performers) f.fallbacks

abbrev pub classification_of : FailureClassification → FailureCase → ClassificationInput
classification_of facts f = record {
  failure = f;
  has_unvisited_fallback = has_unvisited_fallback facts;
  retries_consumed = facts.retries_consumed;
  retries_per_movement = facts.retries_per_movement;
  remaining_time_ms = facts.remaining_time_ms;
}

-- `Classify`; `none` is the error of facts that are not about the action's attempt.
unfoldable pub classify_current :
    Option AttemptRecovery → Action → FailureCase → Option (Result Disposition)
classify_current none a f = none
classify_current (some x) a f =
    if str_eq x.attempt_id a.attempt_id
    then some (classify (classification_of x.failure_classification f))
    else none

-- `LatestEventID`: the events are in the order of the journal.
unfoldable pub latest_event_id : (Event → Bool) → List Event → Option String
latest_event_id matches [] = none
latest_event_id matches (e ∷ es) = elim (latest_event_id matches es) [
  | some id ↦ some id
  | none ↦ if matches e then some e.event_id else none
]

abbrev text_at : Fields → String → String
text_at p key = elim (string_field p key) [ some t ↦ t | none ↦ "" ]

-- `payloadString`
abbrev payload_string : Event → String → String
payload_string e key = elim e.payload [
  | none ↦ ""
  | some v ↦ elim (as_object v) [ none ↦ "" | some p ↦ text_at p key ]
]

-- `ActionMovement`
unfoldable pub action_movement : State → Action → Option String
action_movement s a =
    if not (str_eq a.movement_id "")
    then some a.movement_id
    else elim (lookup a.attempt_id s.attempts) [ some x ↦ some x.movement_id | none ↦ none ]

-- `DispositionPayload`
unfoldable pub disposition_payload : Disposition → Fields
disposition_payload d =
    let reason =
      (if str_eq d.terminal_reason ""
        then end
        else field "terminal_reason" (str d.terminal_reason) end) in
    field "charged" (str d.charged) (field "movement_terminal" (bool d.movement_terminal) reason)

abbrev is_execution_started : EventType → Bool
is_execution_started EventType.execution_started = true
is_execution_started _ = false

abbrev is_attempt_failed : EventType → Bool
is_attempt_failed EventType.attempt_failed = true
is_attempt_failed _ = false

abbrev is_performer_selected : EventType → Bool
is_performer_selected EventType.performer_selected = true
is_performer_selected _ = false

abbrev is_attempt_started : EventType → Bool
is_attempt_started EventType.attempt_started = true
is_attempt_started _ = false

abbrev is_adapter_probed : EventType → Bool
is_adapter_probed EventType.adapter_probed = true
is_adapter_probed _ = false

abbrev is_performer_completed : EventType → Bool
is_performer_completed EventType.performer_completed = true
is_performer_completed _ = false

abbrev is_criterion_started : EventType → Bool
is_criterion_started EventType.criterion_started = true
is_criterion_started _ = false

abbrev is_criterion_completed : EventType → Bool
is_criterion_completed EventType.criterion_completed = true
is_criterion_completed _ = false

abbrev is_acceptance_started : EventType → Bool
is_acceptance_started EventType.acceptance_started = true
is_acceptance_started _ = false

abbrev is_acceptance_failed : EventType → Bool
is_acceptance_failed EventType.acceptance_failed = true
is_acceptance_failed _ = false

abbrev is_acceptance_evaluation_completed : EventType → Bool
is_acceptance_evaluation_completed EventType.acceptance_evaluation_completed = true
is_acceptance_evaluation_completed _ = false

abbrev is_attempt_completed : EventType → Bool
is_attempt_completed EventType.attempt_completed = true
is_attempt_completed _ = false

abbrev is_decision_resolved : EventType → Bool
is_decision_resolved EventType.decision_resolved = true
is_decision_resolved _ = false

abbrev is_movement_started : EventType → Bool
is_movement_started EventType.movement_started = true
is_movement_started _ = false

abbrev is_movement_failed : EventType → Bool
is_movement_failed EventType.movement_failed = true
is_movement_failed _ = false

abbrev is_execution_stopped : EventType → Bool
is_execution_stopped EventType.execution_stopped = true
is_execution_stopped _ = false

module _ (events : List Event) (a : Action) where
  abbrev own : Event → Bool
  own e = str_eq e.attempt_id a.attempt_id

  abbrev latest : (EventType → Bool) → Option String
  latest test = latest_event_id (λ e. test e.type && own e) events

  abbrev latest_stop : Option String
  latest_stop =
      latest_event_id
        (λ e. is_execution_stopped e.type && str_eq (payload_string e "reason") "budget_exhausted")
        events

  -- The `switch` on the reason of a failed attempt.
  abbrev failure_source : EventType → Bool
  failure_source =
      if str_eq a.failure_reason "probe_terminated_incomplete"
      then is_attempt_started
      else if str_eq a.failure_reason "attempt_terminated_incomplete"
      then is_adapter_probed
      else if str_eq a.failure_reason "worktree_lost"
          || str_eq a.failure_reason "draft_no_blocking_output"
      then is_performer_completed
      else is_performer_selected

  abbrev latest_of_criterion : (EventType → Bool) → Option String
  latest_of_criterion test =
      latest_event_id
        (λ e. test e.type && (own e && str_eq (payload_string e "criterion_id") a.criterion_id))
        events

  abbrev is_realization : ActionKind → Bool
  is_realization ActionKind.realize_recorded_disposition = true
  is_realization _ = false

  abbrev is_budget_failure : ActionKind → Bool
  is_budget_failure ActionKind.append_budget_failure = true
  is_budget_failure _ = false

  abbrev has_failed : Option AcceptanceRecovery → Bool
  has_failed none = false
  has_failed (some r) = r.failed

  abbrev is_realize_case : CaseId → Bool
  is_realize_case CaseId.realize_disposition = true
  is_realize_case _ = false

  abbrev gate_required : Option AcceptanceRecovery → Bool
  gate_required none = false
  gate_required (some r) = r.gate.required

  unfoldable pub realization_source : CaseId → Option AcceptanceRecovery → Option String
  realization_source c r =
      if has_failed r
      then latest is_acceptance_failed
      else if is_realize_case c
      then latest is_attempt_failed
      else none

  -- The source of a failed movement that no other case names.
  unfoldable pub movement_source : State → Option String
  movement_source s = elim (latest is_attempt_failed) [
    | some id ↦ some id
    | none ↦ elim (action_movement s a) [
      | none ↦ none
      | some m ↦ latest_event_id (λ e. is_movement_started e.type && str_eq e.movement_id m) events
    ]
  ]

  abbrev movement_failure_source : State → CaseId → Option AcceptanceRecovery → Option String
  movement_failure_source s c r =
      if str_eq a.failure_reason "human_gate_rejected"
      then latest_event_id
          (λ e.
            is_decision_resolved e.type
            && (own e && str_eq (payload_string e "decision_id") a.question_decision_id))
          events
      else if is_budget_failure a.kind
      then latest_stop
      else if is_realization a.kind
      then realization_source c r
      else movement_source s

  abbrev run_failure_source : State → Option String
  run_failure_source s =
      if str_eq a.failure_reason "budget_exhausted"
      then latest_stop
      else if not (str_eq a.movement_id "") || not (str_eq a.attempt_id "")
      then elim (action_movement s a) [
        | none ↦ none
        | some m ↦ latest_event_id (λ e. is_movement_failed e.type && str_eq e.movement_id m) events
      ]
      else latest_event_id (λ e. is_movement_failed e.type) events

  -- `sourceAuthority`; `none` is an error.
  unfoldable pub source_authority :
      State → CaseId → Option AcceptanceRecovery → EventType → Option String
  source_authority s c r decision_requested = latest is_acceptance_evaluation_completed
  source_authority s c r execution_stopped = elim s.open_execution [
    | none ↦ none
    | some x ↦
        latest_event_id
          (λ e. is_execution_started e.type && str_eq (payload_string e "interval_id") x.id) events
  ]
  source_authority s c r attempt_failed = latest failure_source
  source_authority s c r criterion_completed = latest_of_criterion is_criterion_started
  source_authority s c r acceptance_failed =
      if str_eq a.failure_reason "recovery_subject_mismatch"
      then latest is_acceptance_started
      else latest_of_criterion is_criterion_completed
  source_authority s c r attempt_completed =
      if gate_required r
      then latest is_decision_resolved
      else latest is_acceptance_evaluation_completed
  source_authority s c r movement_succeeded = latest is_attempt_completed
  source_authority s c r movement_failed = movement_failure_source s c r
  source_authority s c r run_failed = run_failure_source s
  source_authority s c r _ = none
