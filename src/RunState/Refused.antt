-- ===== src/RunState/Refused.antt =====
-- internal/runstate/apply.go: the state that is returned beside an error.
use partitur.Prelude.{◌≡◌, ◌⊎◌, inl, arith, refl, Bool, true, false}
use partitur.Json.{Fields}
use partitur.RunState.Event.{
  Event, EventType, run_cancelled, amendment_approved, movement_failed, composition_conflicted,
  composition_failed, performer_selected, artifact_recorded, change_set_recorded,
  decision_requested, amendment_routed_human, amendment_approval_prepared, movement_succeeded,
}
use partitur.RunState.State.{State}
use partitur.RunState.Action.{Error, ok, err, lift, ◌>>=◌, Result}
use partitur.RunState.Payload.Validate.{validate_payload}
use partitur.RunState.Handlers.Movement.{reject_gate}
use partitur.RunState.Apply.{dispatch, project, apply}
use partitur.RunState.Apply.Accepted.{state-require_causation}
use partitur.RunState.Frame.{
  state-require_selection, state-require_artifact, state-require_change_set, state-require_request,
  state-require_routable, state-require_preparable, state-require_succeeded,
  state-require_composition_source,
}

-- The events whose handlers still check something after their first write.
abbrev pub writes_before_check : EventType → Bool
writes_before_check run_cancelled = true
writes_before_check amendment_approved = true
writes_before_check _ = false

module _ (e : Event) (p : Fields) (s : State) where
  reject_gate_result : ((reject_gate e p s).1 ≡ s) ⊎ ((reject_gate e p s).0 ≡ ok tt)
  unfolding reject_gate
  reject_gate_result = ground arith

  dispatch_refused :
      (t : EventType)
      → writes_before_check t ≡ false
      → ((dispatch t e p s).1 ≡ s) ⊎ ((dispatch t e p s).0 ≡ ok tt)
  unfolding dispatch
  dispatch_refused performer_selected c = ground (arith, state-require_selection e s)
  dispatch_refused artifact_recorded c = ground (arith, state-require_artifact e p s)
  dispatch_refused change_set_recorded c = ground (arith, state-require_change_set e s)
  dispatch_refused decision_requested c = ground (arith, state-require_request e p s)
  dispatch_refused amendment_routed_human c = ground (arith, state-require_routable e p s)
  dispatch_refused amendment_approval_prepared c = ground (arith, state-require_preparable e p s)
  dispatch_refused movement_succeeded c = ground (arith, state-require_succeeded e p s)
  dispatch_refused movement_failed c = ground (arith, reject_gate_result)
  dispatch_refused composition_conflicted c = inl (state-require_composition_source e p s)
  dispatch_refused composition_failed c = inl (state-require_composition_source e p s)
  dispatch_refused _ c = ground arith

  project_refused :
      (x : Error)
      → writes_before_check e.type ≡ false
      → (project e p s).0 ≡ err x
      → (project e p s).1 ≡ s
  unfolding project
  project_refused x c h = ground (arith, dispatch_refused e.type c, state-require_causation e s)

-- An event that is refused, for whatever reason, leaves the state as it was, unless it is a
-- cancellation or an approval: their last checks stand after their first writes.
pub apply_refused :
    (e : Event) (s : State) (x : Error)
    → writes_before_check e.type ≡ false
    → (apply e s).0 ≡ err x
    → (apply e s).1 ≡ s
unfolding apply
apply_refused e s x c h = go (validate_payload e) h
  where
    go :
        (r : Result Fields)
        → ((lift r >>= project e) s).0 ≡ err x
        → ((lift r >>= project e) s).1 ≡ s
    go (ok p) h = project_refused e p s x c h
    go (err y) h = refl
