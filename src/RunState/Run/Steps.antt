-- ===== src/RunState/Run/Steps.antt =====
-- internal/runstate/apply.go: the run under each event.
use partitur.Prelude.{◌≡◌, Bool, true, arith, false, ap, refl, subst, String, List}
use partitur.Json.{Fields, Value}
use partitur.RunState.Handlers.Decision.{on_decision_requested}
use partitur.RunState.Handlers.Blocked.{record_blocked_decision_sources}
use partitur.RunState.Types.{terminal, RunLifecycle, PendingPrepare}
use partitur.RunState.Event.{
  Event, EventType, run_started, movement_failed, run_cancelled, amendment_approved,
  movement_succeeded, run_succeeded, run_failed, decision_requested, decision_resolved,
  amendment_rejected, amendment_human_rejected,
}
use partitur.RunState.State.{State}
use partitur.RunState.Action.{ok, ◌>>=◌}
use partitur.RunState.Waiting.{
  refresh_waiting_human, close_all_pending_decisions, resumed, any_blocking,
}
use partitur.RunState.Apply.{dispatch, apply}
use partitur.RunState.Apply.Accepted.{apply-keeps, note_applied_lem}
use partitur.RunState.Frame.{
  bind-keeps, state-require_request, state-require_prepared, state-require_head,
  state-require_cancellation, state-require_succeeded, supersede_lem, require_head_lem,
  record_blocked_decision_sources_lem, take_head_lem,
}
use partitur.RunState.Handlers.Movement.{
  on_movement_failed, reject_gate, on_movement_succeeded, require_succeeded,
}
use partitur.RunState.Handlers.Run.{on_run_cancelled, require_cancellation}
use partitur.RunState.Handlers.Prepare.{
  on_amendment_approved, commit_approval, require_prepared, close_approval, require_head, take_head,
  supersede,
}
use partitur.RunState.Footprint.{footprint, pick_lem}
use partitur.RunState.Footprint.Dispatch.{dispatch-Within}
use partitur.RunState.Run.{RunStep, run_edge, run_edge-RunStep}

-- A refresh only pauses or resumes a run that is started and not over.
refresh-run_edge : (s : State) → run_edge s.run (refresh_waiting_human s).run ≡ true
unfolding refresh_waiting_human terminal
refresh-run_edge s = ground arith

-- Closing the decisions resumes a run that waits, and leaves any other.
pub run-close_all_pending_decisions :
    (s : State) → (close_all_pending_decisions s).run ≡ resumed s.run
unfolding close_all_pending_decisions refresh_waiting_human terminal any_blocking
run-close_all_pending_decisions s = ground arith

pub run-close_approval : (p : Fields) (s : State) → (close_approval p s).run ≡ resumed s.run
unfolding close_approval
run-close_approval p s = grind (arith, run-close_all_pending_decisions)

require_cancellation-live :
    (e : Event) (p : Fields) (s : State)
    → (require_cancellation e p s).0 ≡ ok tt
    → run_edge s.run RunLifecycle.cancelled ≡ true
unfolding require_cancellation terminal
require_cancellation-live e p s h = ground arith

require_succeeded-running :
    (e : Event) (p : Fields) (s : State) {b : Bool}
    → (require_succeeded e p s).0 ≡ ok b
    → s.run ≡ RunLifecycle.running
unfolding require_succeeded
require_succeeded-running e p s h = ground arith

run-require_head :
    (e : Event) (p : Fields) (x : PendingPrepare) (s t : State)
    → (require_head e p x s).0 ≡ ok t
    → t.run ≡ s.run
run-require_head e p x s t h = ap (λ (u : State). u.run) (require_head_lem e p x s t h)

run-take_head : (e : Event) (p : Fields) (s : State) → (take_head e p s).run ≡ s.run
run-take_head e p s = ap (λ (u : State). u.run) (take_head_lem e p s)

run-supersede : (e : Event) (ids : List String) (s : State) → (supersede e ids s).1.run ≡ s.run
run-supersede e ids s = ap (λ (u : State). u.run) (supersede_lem e ids s)

run-record_blocked_decision_sources :
    (e : Event) (vs : List Value) (s : State) → (record_blocked_decision_sources e vs s).run ≡ s.run
run-record_blocked_decision_sources e vs s =
    ap (λ (u : State). u.run) (record_blocked_decision_sources_lem e vs s)

module _ (e : Event) (p : Fields) (s : State) where
  reject_gate-run_edge : run_edge s.run (reject_gate e p s).1.run ≡ true
  unfolding reject_gate close_all_pending_decisions refresh_waiting_human terminal
  reject_gate-run_edge = ground arith

  movement_failed-run_edge : run_edge s.run (on_movement_failed e p s).1.run ≡ true
  unfolding on_movement_failed
  movement_failed-run_edge = ground (arith, reject_gate-run_edge)

  movement_succeeded-run_edge : run_edge s.run (on_movement_succeeded e p s).1.run ≡ true
  unfolding on_movement_succeeded terminal
  movement_succeeded-run_edge =
      grind
        (arith, state-require_succeeded, require_succeeded-running, run-close_all_pending_decisions)

  run_cancelled-run_edge : run_edge s.run (on_run_cancelled e p s).1.run ≡ true
  unfolding on_run_cancelled terminal
  run_cancelled-run_edge = grind (
    arith, state-require_cancellation, require_cancellation-live, run-close_all_pending_decisions,
  )

run-commit_approval :
    (e : Event) (p : Fields) (new s : State)
    → run_edge new.run (commit_approval e p new s).1.run ≡ true
unfolding commit_approval
run-commit_approval e p new s = grind (arith, run-take_head, run-supersede, run-close_approval)

run_edge_refl : (r : RunLifecycle) → run_edge r r ≡ true
run_edge_refl RunLifecycle.running = refl
run_edge_refl RunLifecycle.not_started = refl
run_edge_refl RunLifecycle.waiting_human = refl
run_edge_refl RunLifecycle.succeeded = refl
run_edge_refl RunLifecycle.failed = refl
run_edge_refl RunLifecycle.cancelled = refl

amendment_approved-run_edge :
    (e : Event) (p : Fields) (s : State) → run_edge s.run (on_amendment_approved e p s).1.run ≡ true
unfolding on_amendment_approved
amendment_approved-run_edge e p s =
    bind-keeps (require_prepared e p) (λ x. require_head e p x >>= commit_approval e p) s
      (λ t. run_edge s.run t.run ≡ true) (state-require_prepared e p s) (run_edge_refl s.run)
      (λ x _.
        bind-keeps (require_head e p x) (commit_approval e p) s (λ t. run_edge s.run t.run ≡ true)
          (state-require_head e p s x) (run_edge_refl s.run)
          (λ new h.
            subst (λ r. run_edge r (commit_approval e p new s).1.run ≡ true)
              (run-require_head e p x s new h) (run-commit_approval e p new s)))

-- No event but those that have the run in their footprint writes it.
pub run-dispatch :
    (t : EventType) (e : Event) (p : Fields) (s : State)
    → (footprint t).run ≡ false
    → (dispatch t e p s).1.run ≡ s.run
run-dispatch t e p s h =
    pick_lem (footprint t).run h (ap (λ (u : State). u.run) (dispatch-Within t e p s))

decision_requested-run_edge :
    (e : Event) (p : Fields) (s : State) → run_edge s.run (on_decision_requested e p s).1.run ≡ true
unfolding on_decision_requested
decision_requested-run_edge e p s = grind (arith, state-require_request, refresh-run_edge)

dispatch-run_edge :
    (t : EventType) (e : Event) (p : Fields) (s : State)
    → run_edge s.run (dispatch t e p s).1.run ≡ true
unfolding dispatch terminal
dispatch-run_edge run_started e p s = ground arith
dispatch-run_edge movement_failed e p s = movement_failed-run_edge e p s
dispatch-run_edge movement_succeeded e p s = movement_succeeded-run_edge e p s
dispatch-run_edge run_cancelled e p s = run_cancelled-run_edge e p s
dispatch-run_edge amendment_approved e p s = amendment_approved-run_edge e p s
dispatch-run_edge run_succeeded e p s = grind (arith, run-close_all_pending_decisions)
dispatch-run_edge run_failed e p s = grind (arith, run-close_all_pending_decisions)
dispatch-run_edge decision_requested e p s = decision_requested-run_edge e p s
dispatch-run_edge decision_resolved e p s = grind (arith, refresh-run_edge)
dispatch-run_edge amendment_rejected e p s = grind (arith, refresh-run_edge)
dispatch-run_edge amendment_human_rejected e p s = grind (arith, refresh-run_edge)
dispatch-run_edge t e p s = rw (run-dispatch t e p s refl) (run_edge_refl s.run)

-- Every event, accepted or refused, leaves the run as it was or moves it along an edge of the
-- lifecycle diagram.
pub apply-RunStep : (e : Event) (s : State) → RunStep s.run (apply e s).1.run
apply-RunStep e s = run_edge-RunStep s.run (apply e s).1.run (
    apply-keeps e s (λ t. run_edge s.run t.run ≡ true) (run_edge_refl s.run)
      (λ p. dispatch-run_edge e.type e p s)
      (λ b t h. rw (ap (λ (u : State). u.run) (note_applied_lem e b t)) h))
