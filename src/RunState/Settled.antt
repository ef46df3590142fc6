-- ===== src/RunState/Settled.antt =====
-- internal/runstate/apply.go: the decisions at the end of a run, by way of
-- `closeAllPendingDecisions`.
use partitur.Prelude.{◌≡◌, ◌∙◌, ◌⊎◌, inl, inr, arith, refl, true, false, [], ap, sym}
use partitur.Json.{Fields}
use partitur.RunState.Types.{terminal}
use partitur.RunState.Event.{
  Event, EventType, run_started, run_succeeded, run_failed, run_cancelled, movement_succeeded,
  movement_failed, decision_requested, decision_resolved, amendment_rejected,
  amendment_human_rejected, amendment_approved,
}
use partitur.RunState.State.{State}
use partitur.RunState.Action.{ok}
use partitur.RunState.Waiting.{refresh_waiting_human, close_all_pending_decisions}
use partitur.RunState.Handlers.Run.{
  on_run_started, on_run_succeeded, on_run_failed, on_run_cancelled,
}
use partitur.RunState.Handlers.Movement.{on_movement_succeeded, on_movement_failed, reject_gate}
use partitur.RunState.Handlers.Decision.{on_decision_requested, on_decision_resolved}
use partitur.RunState.Handlers.Amendment.{on_amendment_rejected, on_amendment_human_rejected}
use partitur.RunState.Handlers.Prepare.{on_amendment_approved, commit_approval, close_approval}
use partitur.RunState.Apply.{dispatch, apply}
use partitur.RunState.Apply.Accepted.{apply-Accepted, note_applied_lem}
use partitur.RunState.Footprint.{footprint, pick_lem}
use partitur.RunState.Footprint.Dispatch.{dispatch-Within}
use partitur.RunState.Frame.{
  state-require_succeeded, state-require_request, close_all_pending_decisions_lem,
}

close-settled : (s : State) → (close_all_pending_decisions s).pending_decisions ≡ []
close-settled s = ap (λ (u : State). u.pending_decisions) (close_all_pending_decisions_lem s)

-- A refresh does not end a run.
refresh-terminal : (s : State) → terminal (refresh_waiting_human s).run ≡ terminal s.run
unfolding refresh_waiting_human terminal
refresh-terminal s = ground arith

module _ (e : Event) (p : Fields) (s : State) where
  succeeded-settled :
      (on_run_succeeded e p s).0 ≡ ok tt → (on_run_succeeded e p s).1.pending_decisions ≡ []
  unfolding on_run_succeeded
  succeeded-settled h = grind (arith, close-settled)

  failed-settled : (on_run_failed e p s).0 ≡ ok tt → (on_run_failed e p s).1.pending_decisions ≡ []
  unfolding on_run_failed
  failed-settled h = grind (arith, close-settled)

  cancelled-settled :
      (on_run_cancelled e p s).0 ≡ ok tt → (on_run_cancelled e p s).1.pending_decisions ≡ []
  unfolding on_run_cancelled
  cancelled-settled h = grind (arith, close-settled)

  movement_succeeded-settled :
      (on_movement_succeeded e p s).0 ≡ ok tt
      → ((on_movement_succeeded e p s).1.run ≡ s.run)
        ⊎ ((on_movement_succeeded e p s).1.pending_decisions ≡ [])
  unfolding on_movement_succeeded
  movement_succeeded-settled h = grind (arith, close-settled, state-require_succeeded)

  reject_gate-settled :
      ((reject_gate e p s).1.run ≡ s.run) ⊎ ((reject_gate e p s).1.pending_decisions ≡ [])
  unfolding reject_gate close_all_pending_decisions refresh_waiting_human
  reject_gate-settled = ground arith

  movement_failed-settled :
      ((on_movement_failed e p s).1.run ≡ s.run)
      ⊎ ((on_movement_failed e p s).1.pending_decisions ≡ [])
  unfolding on_movement_failed
  movement_failed-settled = ground (arith, reject_gate-settled)

  approval-settled : (u : State) → (close_approval p u).pending_decisions ≡ []
  unfolding close_approval
  approval-settled u = grind (arith, close-settled)

  commit-settled :
      (u t : State)
      → (commit_approval e p u t).0 ≡ ok tt
      → (commit_approval e p u t).1.pending_decisions ≡ []
  unfolding commit_approval
  commit-settled u t h = grind (arith, approval-settled)

  approved-settled :
      (on_amendment_approved e p s).0 ≡ ok tt
      → (on_amendment_approved e p s).1.pending_decisions ≡ []
  unfolding on_amendment_approved
  approved-settled h = grind (arith, commit-settled)

  requested-terminal : terminal (on_decision_requested e p s).1.run ≡ terminal s.run
  unfolding on_decision_requested
  requested-terminal = grind (arith, state-require_request, refresh-terminal)

  resolved-terminal : terminal (on_decision_resolved e p s).1.run ≡ terminal s.run
  unfolding on_decision_resolved
  resolved-terminal = grind (arith, refresh-terminal)

  rejected-terminal : terminal (on_amendment_rejected e p s).1.run ≡ terminal s.run
  unfolding on_amendment_rejected
  rejected-terminal = grind (arith, refresh-terminal)

  human_rejected-terminal : terminal (on_amendment_human_rejected e p s).1.run ≡ terminal s.run
  unfolding on_amendment_human_rejected
  human_rejected-terminal = grind (arith, refresh-terminal)

  started-terminal :
      (on_run_started e p s).0 ≡ ok tt → terminal (on_run_started e p s).1.run ≡ false
  unfolding on_run_started terminal
  started-terminal h = ground arith

  -- The event did not end the run, or it has left no decision pending.
  dispatch-settled :
      (t : EventType)
      → (dispatch t e p s).0 ≡ ok tt
      → (terminal (dispatch t e p s).1.run ≡ terminal s.run)
        ⊎ ((terminal (dispatch t e p s).1.run ≡ false)
            ⊎ ((dispatch t e p s).1.pending_decisions ≡ []))
  unfolding dispatch
  dispatch-settled run_started h = inr (inl (started-terminal h))
  dispatch-settled run_succeeded h = inr (inr (succeeded-settled h))
  dispatch-settled run_failed h = inr (inr (failed-settled h))
  dispatch-settled run_cancelled h = inr (inr (cancelled-settled h))
  dispatch-settled movement_succeeded h = elim (movement_succeeded-settled h) [
    | inl same ↦ inl (ap terminal same)
    | inr none_left ↦ inr (inr none_left)
  ]
  dispatch-settled movement_failed h = elim movement_failed-settled [
    | inl same ↦ inl (ap terminal same)
    | inr none_left ↦ inr (inr none_left)
  ]
  dispatch-settled decision_requested h = inl requested-terminal
  dispatch-settled decision_resolved h = inl resolved-terminal
  dispatch-settled amendment_rejected h = inl rejected-terminal
  dispatch-settled amendment_human_rejected h = inl human_rejected-terminal
  dispatch-settled amendment_approved h = inr (inr (approved-settled h))
  dispatch-settled t h = inl (
      ap terminal
        (pick_lem (footprint t).run refl (ap (λ (u : State). u.run) (dispatch-Within t e p s))))

-- An accepted event that ends a run leaves no decision pending.
pub apply-settled :
    (e : Event) (s : State)
    → (apply e s).0 ≡ ok tt
    → terminal s.run ≡ false
    → terminal (apply e s).1.run ≡ true
    → (apply e s).1.pending_decisions ≡ []
apply-settled e s h before after =
    let a = apply-Accepted e s h in
    let d = (dispatch e.type e a.payload s).1 in
    let same = a.result ∙ note_applied_lem e (terminal s.run) d in
    let ended = sym (ap (λ (u : State). terminal u.run) same) ∙ after in
    ap (λ (u : State). u.pending_decisions) same
    ∙ elim (dispatch-settled e a.payload s e.type a.handled) [
      | inl kept ↦ absurd (ground arith)
      | inr (inl running) ↦ absurd (ground arith)
      | inr (inr none_left) ↦ none_left
    ]
