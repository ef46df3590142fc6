-- ===== src/Recovery/Scheduler.antt =====
-- internal/recovery/planner.go: `PlanBetweenUnit` and `PlanScheduler`.
use partitur.Prelude.{
  String, Bool, true, false, ◌&&◌, ◌||◌, not, Option, none, some, List, [], ◌∷◌, str_eq, is_some,
  is_empty, ℤ, pos, zero, if◌then◌else◌,
}
use partitur.Dict.{lookup}
use partitur.RunState.Types.{MovementState, terminal}
use partitur.RunState.State.{State}
use partitur.RunState.Waiting.{holds, movement_running, movement_settled}
use partitur.RunState.Handlers.Movement.{is_pending, is_ready}
use partitur.Recovery.Names.{CaseId, ActionKind, ActionStep, Continuation}
use partitur.Recovery.Types.{
  CompositionRecovery, ScheduledMovement, PendingSuccessor, Scheduler, Projection, Input,
}
use partitur.Recovery.Decision.{Decision, valid, simple, decide, act}
use partitur.Recovery.Facts.{current_head_attempt_in_flight}

abbrev pub movement_succeeded : MovementState → Bool
movement_succeeded MovementState.succeeded = true
movement_succeeded _ = false

-- A movement that is in none of the states of the map has the state "", which passes no test.
abbrev pub in_state : (MovementState → Bool) → State → String → Bool
in_state test s id = holds test (lookup id s.movements)

abbrev is_zero : ℤ → Bool
is_zero (pos zero) = true
is_zero _ = false

-- `maySelect`
abbrev pub may_select : Scheduler → String → Bool
may_select c id = not (str_eq c.status "draft") || str_eq id c.draft_interview_movement

-- `dependenciesSucceeded`
unfoldable pub dependencies_succeeded : State → List String → Bool
dependencies_succeeded s [] = true
dependencies_succeeded s (need ∷ needs) =
    in_state movement_succeeded s need && dependencies_succeeded s needs

unfoldable pub repo_writes_succeeded : State → List ScheduledMovement → Bool
repo_writes_succeeded s [] = true
repo_writes_succeeded s (m ∷ ms) =
    (m.is_final || not m.repo_write || in_state movement_succeeded s m.id)
    && repo_writes_succeeded s ms

-- `candidatePrecondition`
abbrev pub candidate_precondition : State → Scheduler → Bool
candidate_precondition s c = repo_writes_succeeded s c.movements

unfoldable pub all_settled : State → List ScheduledMovement → Bool
all_settled s [] = true
all_settled s (m ∷ ms) = in_state movement_settled s m.id && all_settled s ms

-- `waivedCompletion`
abbrev pub waived_completion : State → Scheduler → Bool
waived_completion s c = all_settled s c.movements && not (is_empty c.movements)

unfoldable pub first_running : State → List ScheduledMovement → Option String
first_running s [] = none
first_running s (m ∷ ms) =
    let rest = first_running s ms in if in_state movement_running s m.id then some m.id else rest

-- `budgetExhaustion`
unfoldable pub budget_exhaustion : State → Scheduler → Decision
budget_exhaustion s c = elim (first_running s c.movements) [
  | some id ↦
      decide CaseId.budget_exhausted (record (simple ActionKind.append_budget_failure true) {
        movement_id = id;
        failure_reason = "budget_exhausted";
        steps = ActionStep.append_movement_budget_failure ∷ ActionStep.append_run_failed ∷ [];
      })
  | none ↦
      decide CaseId.budget_exhausted
        (record (simple ActionKind.append_run_failed true) { failure_reason = "budget_exhausted" })
]

-- The guards of the first loop of `PlanBetweenUnit`.
unfoldable pub may_become_ready : State → Scheduler → ScheduledMovement → Bool
may_become_ready s c m =
    not (
      not (may_select c m.id)
      || not (in_state is_pending s m.id)
      || not (dependencies_succeeded s m.needs))
    && not (m.is_final && not c.gate_waived && not (is_some s.application_candidate))

-- The first loop.
unfoldable pub first_to_ready :
    State → Scheduler → List ScheduledMovement → Option ScheduledMovement
first_to_ready s c [] = none
first_to_ready s c (m ∷ ms) =
    let rest = first_to_ready s c ms in if may_become_ready s c m then some m else rest

abbrev on_movement : ActionKind → String → Decision
on_movement kind id = decide CaseId.scheduler (record (simple kind true) { movement_id = id })

-- The second loop: the first movement that is ready or running, with its action.
unfoldable pub first_under_way : State → Scheduler → List ScheduledMovement → Option Decision
first_under_way s c [] = none
first_under_way s c (m ∷ ms) =
    let rest = first_under_way s c ms in
    if not (may_select c m.id)
    then rest
    else if in_state is_ready s m.id
    then some (on_movement ActionKind.append_movement_started m.id)
    else if in_state movement_running s m.id
    then some (on_movement ActionKind.select_initial_performer m.id)
    else rest

-- The end of `PlanBetweenUnit`: the last decision is an invalid one, an error for its callers.
unfoldable pub plan_candidate : State → Scheduler → Decision
plan_candidate s c =
    if c.gate_waived && waived_completion s c
    then decide CaseId.scheduler
        (record (simple ActionKind.compose_candidate true) { candidate_carrying = true })
    else if not c.gate_waived
        && (not (is_some s.application_candidate) && candidate_precondition s c)
    then act CaseId.scheduler ActionKind.compose_candidate true
    else record { case = CaseId.scheduler; action = none; halt = none }

abbrev materialize : PendingSuccessor → Decision
materialize x = decide CaseId.scheduler (record (simple ActionKind.materialize_successor true) {
  pending_successor = some x;
  movement_id = x.movement_id;
})

-- What `PlanBetweenUnit` selects when time is left and no successor waits.
unfoldable pub plan_movement : State → Scheduler → Decision
plan_movement s c = elim (first_to_ready s c c.movements) [
  | some m ↦ on_movement ActionKind.append_movement_ready m.id
  | none ↦ elim (first_under_way s c c.movements) [ some d ↦ d | none ↦ plan_candidate s c ]
]

-- `PlanBetweenUnit`
unfoldable pub plan_between_unit : Projection → Decision
plan_between_unit p =
    if is_zero p.scheduler.remaining_time
    then budget_exhaustion p.state p.scheduler
    else elim p.scheduler.pending_successor [
      | some x ↦ materialize x
      | none ↦ plan_movement p.state p.scheduler
    ]

abbrev pub is_budget_exhausted : CaseId → Bool
is_budget_exhausted CaseId.budget_exhausted = true
is_budget_exhausted _ = false

abbrev rerun_composition : CompositionRecovery → Decision
rerun_composition r =
    decide CaseId.recovered_composition
      (record (simple ActionKind.rerun_composition true) { movement_id = r.movement_id })

abbrev recovered : Option CompositionRecovery → Option CompositionRecovery
recovered none = none
recovered (some r) = if r.recovered then some r else none

-- The end of `PlanScheduler`, after the decision between the units.
unfoldable pub plan_recovered : Projection → Decision → Decision
plan_recovered p d =
    if is_budget_exhausted d.case then d else elim (recovered p.composition_recovery) [
      | some r ↦ rerun_composition r
      | none ↦ if not (valid d) then act CaseId.scheduler ActionKind.proceed_scheduler false else d
    ]

-- `PlanScheduler`
unfoldable pub plan_scheduler : Input → Decision
plan_scheduler i =
    if terminal i.projection.state.run
    then act CaseId.terminal ActionKind.terminal_cleanup false
    else if current_head_attempt_in_flight i.projection
    then decide CaseId.continue
        (record (simple ActionKind.proceed_attempt false) { continuation = some Continuation.c2 })
    else plan_recovered i.projection (plan_between_unit i.projection)
