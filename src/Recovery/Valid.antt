-- ===== src/Recovery/Valid.antt =====
-- internal/recovery/planner.go: every table of the planner decides, for each input, on exactly one
-- action or one halt.
use partitur.Prelude.{
  ◌≡◌, arith, Bool, true, false, Bool-cases, inl, inr, [], ◌∷◌, some, String, List,
}
use partitur.RunState.Types.{Acceptance, Authority}
use partitur.RunState.State.{State}
use partitur.Recovery.Names.{CaseId, HaltReason}
use partitur.Recovery.Types.{
  Input, AttemptRecovery, Projection, Scheduler, ScheduledMovement, HandoffState, SweepState,
  SubjectVerification, GateRecovery, Observations, UnjournaledLaunchState, LeaseObservation,
  PrepareObservation,
}
use partitur.Recovery.Decision.{Action, Decision, valid, decide, stop}
use partitur.Recovery.Named.{case_id-named, action_kind-named}
use partitur.Recovery.Plan.{
  plan, plan_lease, plan_authority, plan_evidence, plan_requests, plan_continuation, plan_prepare,
}
use partitur.Recovery.Attempt.{
  plan_attempt, plan_of_attempt, realize_recorded_disposition, plan_blocked, plan_starting,
  plan_running, plan_verifying, plan_ended,
}
use partitur.Recovery.Acceptance.{
  by_subject, plan_evaluated_acceptance, plan_unjournaled_launch, plan_criteria, plan_of_acceptance,
  plan_acceptance,
}
use partitur.Recovery.Scheduler.{
  is_budget_exhausted, first_under_way, plan_candidate, plan_movement, plan_recovered,
  plan_scheduler, plan_between_unit, budget_exhaustion,
}

pub decide-valid : (c : CaseId) (a : Action) → valid (decide c a) ≡ true
unfolding valid
decide-valid c a = ground (arith, case_id-named c, action_kind-named a.kind)

stop-valid : (c : CaseId) (r : HaltReason) → valid (stop c r) ≡ true
unfolding valid
stop-valid c r = ground (arith, case_id-named c)

ruleset decided = (decide-valid, stop-valid)

plan_continuation-valid : (p : Projection) → valid (plan_continuation p) ≡ true
unfolding plan_continuation
plan_continuation-valid p = grind (arith, decided)

plan_requests-valid : (p : Projection) → valid (plan_requests p) ≡ true
unfolding plan_requests
plan_requests-valid p = grind (arith, decided, plan_continuation-valid p)

plan_evidence-valid : (i : Input) → valid (plan_evidence i) ≡ true
unfolding plan_evidence
plan_evidence-valid i = grind (arith, decided, plan_requests-valid i.projection)

plan_prepare-valid : (o : PrepareObservation) → valid (plan_prepare o) ≡ true
unfolding plan_prepare
plan_prepare-valid o = grind (arith, decided)

plan_authority-valid : (i : Input) → valid (plan_authority i) ≡ true
unfolding plan_authority
plan_authority-valid i =
    grind (arith, decided, plan_prepare-valid i.observations.prepare, plan_evidence-valid i)

plan_lease-valid :
    (a : Authority) (l : LeaseObservation) (d : Decision) → plan_lease a l ≡ some d → valid d ≡ true
unfolding plan_lease
plan_lease-valid a l d h = grind (arith, decided)

-- `Plan` decides on exactly one action or one halt, for every input.
pub plan-valid : (i : Input) → valid (plan i) ≡ true
unfolding plan
plan-valid i = grind (
  arith,
  decided,
  plan_authority-valid i,
  plan_lease-valid i.projection.state.authority i.observations.lease,
)

realize-valid :
    (c : CaseId) (a : AttemptRecovery) (x : Scheduler)
    → valid (realize_recorded_disposition c a x) ≡ true
unfolding realize_recorded_disposition
realize-valid c a x = grind (arith, decided)

plan_blocked-valid : (s : State) (a : AttemptRecovery) → valid (plan_blocked s a) ≡ true
unfolding plan_blocked
plan_blocked-valid s a = grind (arith, decided)

plan_starting-valid : (h : HandoffState) (a : AttemptRecovery) → valid (plan_starting h a) ≡ true
unfolding plan_starting
plan_starting-valid h a = grind (arith, decided)

plan_running-valid :
    (w : SweepState) (b : Bool) (a : AttemptRecovery) → valid (plan_running w b a) ≡ true
unfolding plan_running
plan_running-valid w b a = grind (arith, decided)

plan_verifying-valid :
    (i : Input) (a : AttemptRecovery) (d : Decision) → plan_verifying i a ≡ some d → valid d ≡ true
unfolding plan_verifying
plan_verifying-valid i a d h = grind (arith, decided)

plan_ended-valid : (p : Projection) (a : AttemptRecovery) → valid (plan_ended p a) ≡ true
unfolding plan_ended
plan_ended-valid p a = grind (arith, decided)

plan_of_attempt-valid : (i : Input) (a : AttemptRecovery) → valid (plan_of_attempt i a) ≡ true
unfolding plan_of_attempt
plan_of_attempt-valid i a = grind (
  arith,
  decided,
  realize-valid CaseId.realize_disposition a i.projection.scheduler,
  plan_blocked-valid i.projection.state a,
  plan_starting-valid i.observations.handoff a,
  plan_running-valid i.observations.adapter_sweep,
  plan_verifying-valid i a,
  plan_ended-valid i.projection a,
)

-- `PlanAttempt` decides on exactly one action or one halt, for every input.
pub plan_attempt-valid : (i : Input) → valid (plan_attempt i) ≡ true
unfolding plan_attempt
plan_attempt-valid i = grind (arith, decided, plan_of_attempt-valid i)

by_subject-valid :
    (c : CaseId) (v : SubjectVerification) (id : String) (d : Decision)
    → valid d ≡ true
    → valid (by_subject c v id d) ≡ true
unfolding by_subject
by_subject-valid c v id d h = grind (arith, decided)

plan_evaluated-valid :
    (v : SubjectVerification) (a : AttemptRecovery) (x : Acceptance) (g : GateRecovery)
    → valid (plan_evaluated_acceptance v a x g) ≡ true
unfolding plan_evaluated_acceptance
plan_evaluated-valid v a x g = grind (arith, decided, by_subject-valid)

plan_launch-valid :
    (u : UnjournaledLaunchState) (id : String) (d : Decision)
    → plan_unjournaled_launch u id ≡ some d
    → valid d ≡ true
unfolding plan_unjournaled_launch
plan_launch-valid u id d h = grind (arith, decided)

plan_criteria-valid :
    (o : Observations) (a : AttemptRecovery) (x : Acceptance) → valid (plan_criteria o a x) ≡ true
unfolding plan_criteria
plan_criteria-valid o a x =
    grind (arith, decided, by_subject-valid, plan_launch-valid o.unjournaled_launch a.attempt_id)

plan_of_acceptance-valid :
    (i : Input) (a : AttemptRecovery) (x : Acceptance) → valid (plan_of_acceptance i a x) ≡ true
unfolding plan_of_acceptance
plan_of_acceptance-valid i a x = grind (
  arith,
  decided,
  realize-valid CaseId.acceptance_failed a i.projection.scheduler,
  plan_evaluated-valid i.observations.acceptance_subject a x,
  plan_criteria-valid i.observations a x,
)

-- `PlanAcceptance` decides on exactly one action or one halt, for every input.
pub plan_acceptance-valid : (i : Input) → valid (plan_acceptance i) ≡ true
unfolding plan_acceptance
plan_acceptance-valid i = grind (arith, decided, plan_of_acceptance-valid i)

pub budget-valid : (s : State) (c : Scheduler) → valid (budget_exhaustion s c) ≡ true
unfolding budget_exhaustion
budget-valid s c = grind (arith, decided)

pub under_way-valid :
    (s : State) (c : Scheduler) (ms : List ScheduledMovement) (d : Decision)
    → first_under_way s c ms ≡ some d
    → valid d ≡ true
unfolding first_under_way
under_way-valid s c [] d h = absurd (ground arith)
under_way-valid s c (m ∷ ms) d h = grind (arith, decided, under_way-valid s c ms d)

candidate-case : (s : State) (c : Scheduler) → is_budget_exhausted (plan_candidate s c).case ≡ false
unfolding plan_candidate
candidate-case s c = ground arith

plan_movement-valid :
    (s : State) (c : Scheduler)
    → is_budget_exhausted (plan_movement s c).case ≡ true
    → valid (plan_movement s c) ≡ true
unfolding plan_movement
plan_movement-valid s c h =
    grind (arith, decided, under_way-valid s c c.movements, candidate-case s c)

-- `PlanBetweenUnit` may find nothing to do, but not when it says that the budget is exhausted.
plan_between_unit-valid :
    (p : Projection)
    → is_budget_exhausted (plan_between_unit p).case ≡ true
    → valid (plan_between_unit p) ≡ true
unfolding plan_between_unit
plan_between_unit-valid p h =
    grind
      (arith, decided, budget-valid p.state p.scheduler, plan_movement-valid p.state p.scheduler)

plan_recovered-valid :
    (p : Projection) (d : Decision)
    → (is_budget_exhausted d.case ≡ true → valid d ≡ true)
    → valid (plan_recovered p d) ≡ true
unfolding plan_recovered
plan_recovered-valid p d h = elim (Bool-cases (valid d)) [
  | inl good ↦ grind (arith, decided)
  | inr bad ↦ grind (arith, decided)
]

-- `PlanScheduler` decides on exactly one action or one halt, for every input.
pub plan_scheduler-valid : (i : Input) → valid (plan_scheduler i) ≡ true
unfolding plan_scheduler
plan_scheduler-valid i = grind (
  arith,
  decided,
  plan_recovered-valid i.projection (plan_between_unit i.projection)
      (plan_between_unit-valid i.projection),
)

-- Each of the four tables decides, for every input, on exactly one action or one halt.
pub tables-valid :
    (i : Input)
    → (valid (plan i) ≡ true)
      × ((valid (plan_attempt i) ≡ true)
          × ((valid (plan_acceptance i) ≡ true) × (valid (plan_scheduler i) ≡ true)))
tables-valid i =
    (plan-valid i, (plan_attempt-valid i, (plan_acceptance-valid i, plan_scheduler-valid i)))
