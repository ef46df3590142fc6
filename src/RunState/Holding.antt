-- ===== src/RunState/Holding.antt =====
-- internal/runstate/apply.go: how the run and its pending decisions go together, which
-- `refreshWaitingHuman` restores after each change.
use partitur.Prelude.{
  ◌≡◌, ◌∙◌, ◌⊎◌, inl, inr, arith, refl, Bool, true, false, ◌||◌, not, bool_ne, ap, sym, subst,
}
use partitur.Dict.{Dict}
use partitur.Json.{Fields}
use partitur.RunState.Types.{terminal, RunLifecycle, PendingDecision}
use partitur.RunState.Event.{
  Event, EventType, run_started, run_succeeded, run_failed, run_cancelled, movement_succeeded,
  movement_failed, decision_requested, decision_resolved, amendment_rejected,
  amendment_human_rejected, amendment_approved,
}
use partitur.RunState.State.{State}
use partitur.RunState.Action.{ok}
use partitur.RunState.Waiting.{
  is_not_started, is_waiting, any_blocking, refresh_waiting_human, close_all_pending_decisions,
}
use partitur.RunState.Handlers.Run.{
  on_run_started, on_run_succeeded, on_run_failed, on_run_cancelled,
}
use partitur.RunState.Handlers.Movement.{on_movement_succeeded, on_movement_failed, reject_gate}
use partitur.RunState.Handlers.Decision.{on_decision_requested, on_decision_resolved}
use partitur.RunState.Handlers.Amendment.{on_amendment_rejected, on_amendment_human_rejected}
use partitur.RunState.Handlers.Prepare.{on_amendment_approved, commit_approval, close_approval}
use partitur.RunState.Apply.{dispatch, apply}
use partitur.RunState.Apply.Accepted.{apply-Accepted, note_applied_lem}
use partitur.RunState.Footprint.{footprint, pick_lem}
use partitur.RunState.Footprint.Dispatch.{dispatch-Within}
use partitur.RunState.Frame.{state-require_succeeded}

-- The run is over or not started, or it waits just if a pending decision blocks.
abbrev pub waits_at : RunLifecycle → Dict PendingDecision → Bool
waits_at run decisions =
    terminal run || is_not_started run || not (bool_ne (is_waiting run) (any_blocking decisions))

abbrev pub waits_for_blocking : State → Bool
waits_for_blocking s = waits_at s.run s.pending_decisions

-- Whatever the decisions were, a refresh makes the run wait for them.
refresh-waits_for_blocking : (s : State) → waits_for_blocking (refresh_waiting_human s) ≡ true
unfolding refresh_waiting_human terminal
refresh-waits_for_blocking s = ground arith

close-waits_for_blocking : (s : State) → waits_for_blocking (close_all_pending_decisions s) ≡ true
unfolding close_all_pending_decisions
close-waits_for_blocking s = grind (arith, refresh-waits_for_blocking)

module _ (e : Event) (p : Fields) (s : State) where
  resolved-waits :
      (on_decision_resolved e p s).0 ≡ ok tt
      → waits_for_blocking (on_decision_resolved e p s).1 ≡ true
  unfolding on_decision_resolved
  resolved-waits h = grind (arith, refresh-waits_for_blocking)

  requested-waits :
      (on_decision_requested e p s).0 ≡ ok tt
      → waits_for_blocking (on_decision_requested e p s).1 ≡ true
  unfolding on_decision_requested
  requested-waits h = grind (arith, refresh-waits_for_blocking)

  rejected-waits : waits_for_blocking (on_amendment_rejected e p s).1 ≡ true
  unfolding on_amendment_rejected
  rejected-waits = grind (arith, refresh-waits_for_blocking)

  human_rejected-waits :
      (on_amendment_human_rejected e p s).0 ≡ ok tt
      → waits_for_blocking (on_amendment_human_rejected e p s).1 ≡ true
  unfolding on_amendment_human_rejected
  human_rejected-waits h = grind (arith, refresh-waits_for_blocking)

  close_approval-waits : (u : State) → waits_for_blocking (close_approval p u) ≡ true
  unfolding close_approval
  close_approval-waits u = grind (arith, close-waits_for_blocking)

  commit-waits :
      (u t : State)
      → (commit_approval e p u t).0 ≡ ok tt
      → waits_for_blocking (commit_approval e p u t).1 ≡ true
  unfolding commit_approval
  commit-waits u t h = grind (arith, close_approval-waits)

  approved-waits :
      (on_amendment_approved e p s).0 ≡ ok tt
      → waits_for_blocking (on_amendment_approved e p s).1 ≡ true
  unfolding on_amendment_approved
  approved-waits h = grind (arith, commit-waits)

  ended-waits :
      (on_run_succeeded e p s).0 ≡ ok tt → waits_for_blocking (on_run_succeeded e p s).1 ≡ true
  unfolding on_run_succeeded
  ended-waits h = grind (arith, close-waits_for_blocking)

  failed-waits : (on_run_failed e p s).0 ≡ ok tt → waits_for_blocking (on_run_failed e p s).1 ≡ true
  unfolding on_run_failed
  failed-waits h = grind (arith, close-waits_for_blocking)

  cancelled-waits :
      (on_run_cancelled e p s).0 ≡ ok tt → waits_for_blocking (on_run_cancelled e p s).1 ≡ true
  unfolding on_run_cancelled
  cancelled-waits h = grind (arith, close-waits_for_blocking)

  movement_succeeded-waits :
      (on_movement_succeeded e p s).0 ≡ ok tt
      → waits_for_blocking s ≡ true
      → waits_for_blocking (on_movement_succeeded e p s).1 ≡ true
  unfolding on_movement_succeeded
  movement_succeeded-waits h old = grind (arith, close-waits_for_blocking, state-require_succeeded)

  -- The run and the decisions are the old ones, or the run has failed.
  reject_gate_cases :
      (((reject_gate e p s).1.run ≡ s.run)
        × ((reject_gate e p s).1.pending_decisions ≡ s.pending_decisions))
      ⊎ (((reject_gate e p s).1.run ≡ RunLifecycle.failed))
  unfolding reject_gate close_all_pending_decisions refresh_waiting_human terminal
  reject_gate_cases = ground arith

  movement_failed_cases :
      (((on_movement_failed e p s).1.run ≡ s.run)
        × ((on_movement_failed e p s).1.pending_decisions ≡ s.pending_decisions))
      ⊎ (((on_movement_failed e p s).1.run ≡ RunLifecycle.failed))
  unfolding on_movement_failed
  movement_failed_cases = ground (arith, reject_gate_cases)

  movement_failed-waits :
      waits_for_blocking s ≡ true → waits_for_blocking (on_movement_failed e p s).1 ≡ true
  unfolding terminal
  movement_failed-waits old = elim movement_failed_cases [
    | inl (same_run, same_decisions) ↦
        subst (λ r. waits_at r (on_movement_failed e p s).1.pending_decisions ≡ true) (sym same_run)
          (subst (λ d. waits_at s.run d ≡ true) (sym same_decisions) old)
    | inr failed ↦
        subst (λ r. waits_at r (on_movement_failed e p s).1.pending_decisions ≡ true) (sym failed)
          refl
  ]

  started-not_started : (on_run_started e p s).0 ≡ ok tt → is_not_started s.run ≡ true
  unfolding on_run_started
  started-not_started h = ground arith

dispatch-waits_for_blocking :
    (t : EventType) (e : Event) (p : Fields) (s : State)
    → is_not_started s.run ≡ false
    → waits_for_blocking s ≡ true
    → (dispatch t e p s).0 ≡ ok tt
    → waits_for_blocking (dispatch t e p s).1 ≡ true
unfolding dispatch
dispatch-waits_for_blocking run_started e p s started old h =
    let not_started = started-not_started e p s h in absurd (ground arith)
dispatch-waits_for_blocking run_succeeded e p s started old h = ended-waits e p s h
dispatch-waits_for_blocking run_failed e p s started old h = failed-waits e p s h
dispatch-waits_for_blocking run_cancelled e p s started old h = cancelled-waits e p s h
dispatch-waits_for_blocking movement_succeeded e p s started old h =
    movement_succeeded-waits e p s h old
dispatch-waits_for_blocking movement_failed e p s started old h = movement_failed-waits e p s old
dispatch-waits_for_blocking decision_requested e p s started old h = requested-waits e p s h
dispatch-waits_for_blocking decision_resolved e p s started old h = resolved-waits e p s h
dispatch-waits_for_blocking amendment_rejected e p s started old h = rejected-waits e p s
dispatch-waits_for_blocking amendment_human_rejected e p s started old h =
    human_rejected-waits e p s h
dispatch-waits_for_blocking amendment_approved e p s started old h = approved-waits e p s h
dispatch-waits_for_blocking t e p s started old h =
    let new = dispatch-Within t e p s in
    subst (λ r. waits_at r (dispatch t e p s).1.pending_decisions ≡ true)
      (sym (pick_lem (footprint t).run refl (ap (λ (u : State). u.run) new)))
      (subst (λ d. waits_at s.run d ≡ true)
        (sym (pick_lem (footprint t).decisions refl (ap (λ (u : State). u.pending_decisions) new)))
        old)

-- From a started run that waits just if a pending decision blocks, every accepted event leads to
-- a run that is over or that waits just if a pending decision blocks.
pub apply-waits_for_blocking :
    (e : Event) (s : State)
    → is_not_started s.run ≡ false
    → waits_for_blocking s ≡ true
    → (apply e s).0 ≡ ok tt
    → waits_for_blocking (apply e s).1 ≡ true
apply-waits_for_blocking e s started old h =
    let a = apply-Accepted e s h in
    let d = (dispatch e.type e a.payload s).1 in
    subst (λ (u : State). waits_for_blocking u ≡ true)
      (sym (a.result ∙ note_applied_lem e (terminal s.run) d))
      (dispatch-waits_for_blocking e.type e a.payload s started old a.handled)
