-- ===== src/Recovery/Journaled.antt =====
-- internal/recovery/planner.go beside internal/runstate/apply.go: the events that the planner asks for
-- are accepted where `Plan` has gone on to the table that asks.
use partitur.Prelude.{◌≡◌, refl, sym, ap, subst, arith, true, false, some, [], str_eq, is_some}
use partitur.Dict.{lookup}
use partitur.Json.{obj, end}
use partitur.RunState.Types.{Attempt, AttemptState}
use partitur.RunState.Event.{
  Event, EventType, is_derived_event, attempt_completed, movement_ready, movement_started,
}
use partitur.RunState.Action.{ok}
use partitur.RunState.Payload.Names.{payload_fields}
use partitur.RunState.Payload.Validate.{validate_payload, payload_valid}
use partitur.RunState.Apply.{dispatch, apply}
use partitur.RunState.Apply.Accepted.{apply_accepts}
use partitur.Recovery.Names.{ActionKind}
use partitur.Recovery.Types.{Input}
use partitur.Recovery.Decision.{Action}
use partitur.Recovery.Plan.{plan}
use partitur.Recovery.Acceptance.{plan_acceptance}
use partitur.Recovery.Scheduler.{plan_scheduler}
use partitur.Recovery.Clear.{proceeds, plan-Clear}
use partitur.Recovery.Evaluated.{success_handled}
use partitur.Recovery.Readied.{readied_handled, started_handled}

-- The event has this type, and the payload {}.
pub record Bare (e : Event) (t : EventType) : Type 0 where
  pub type : e.type ≡ t
  pub payload : e.payload ≡ some (obj end)

-- A payload without fields is a valid one of the type.
abbrev TakesNothing : EventType → Type 0
TakesNothing t =
    (payload_fields t ≡ some ([], []))
    × (payload_valid t end ([], []) ≡ true)
    × (is_derived_event t ≡ false)

validated :
    (e : Event) → e.payload ≡ some (obj end) → TakesNothing e.type → validate_payload e ≡ ok end
unfolding validate_payload
validated e given (known, valid, original) = ground arith

bare-accepted :
    (i : Input) (e : Event) (t : EventType)
    → Bare e t
    → TakesNothing t
    → proceeds (plan i) ≡ true
    → (dispatch t e end i.projection.state).0 ≡ ok tt
    → (apply e i.projection.state).0 ≡ ok tt
bare-accepted i e t bare takes on handled =
    let own = subst TakesNothing (sym bare.type) takes in
    let clear = (plan-Clear i).0 on in
    apply_accepts e end i.projection.state (validated e bare.payload own) own.2
      (ap is_some clear.prepare)
      (subst (λ u. (dispatch u e end i.projection.state).0 ≡ ok tt) (sym bare.type) handled)

completed-TakesNothing : TakesNothing attempt_completed
unfolding payload_fields payload_valid is_derived_event partitur.RunState.Decode.fields
    partitur.Json.names partitur.RunState.Decode.named_types partitur.Json.get
completed-TakesNothing = (refl, refl, refl)

ready-TakesNothing : TakesNothing movement_ready
unfolding payload_fields payload_valid is_derived_event partitur.RunState.Decode.fields
    partitur.Json.names partitur.RunState.Decode.named_types partitur.Json.get
ready-TakesNothing = (refl, refl, refl)

started-TakesNothing : TakesNothing movement_started
unfolding payload_fields payload_valid is_derived_event partitur.RunState.Decode.fields
    partitur.Json.names partitur.RunState.Decode.named_types partitur.Json.get
started-TakesNothing = (refl, refl, refl)

module _ (i : Input) (a : Action) (e : Event) (on : proceeds (plan i) ≡ true) where
  -- Where Plan goes on and PlanAcceptance asks for a success, Apply accepts the attempt.completed
  -- event with an empty payload for the attempt, if the projection has the attempt as verifying and
  -- the attempt has an identifier.
  pub success-accepted :
      (found : Attempt)
      → (plan_acceptance i).action ≡ some a
      → a.kind ≡ ActionKind.append_acceptance_success
      → Bare e attempt_completed
      → e.attempt_id ≡ a.attempt_id
      → str_eq e.attempt_id "" ≡ false
      → lookup e.attempt_id i.projection.state.attempts ≡ some found
      → found.state ≡ AttemptState.verifying
      → (apply e i.projection.state).0 ≡ ok tt
  unfolding dispatch
  success-accepted found d k bare same named here verifying =
      bare-accepted i e attempt_completed bare completed-TakesNothing on
        (success_handled i a e end found d k same named here verifying)

  -- Where Plan goes on and PlanScheduler makes a movement ready, Apply accepts the movement.ready
  -- event with an empty payload for the movement, if the movement has an identifier.
  pub readied-accepted :
      (plan_scheduler i).action ≡ some a
      → a.kind ≡ ActionKind.append_movement_ready
      → Bare e movement_ready
      → e.movement_id ≡ a.movement_id
      → str_eq e.movement_id "" ≡ false
      → (apply e i.projection.state).0 ≡ ok tt
  unfolding dispatch
  readied-accepted d k bare same named =
      bare-accepted i e movement_ready bare ready-TakesNothing on
        (readied_handled i a e end d k same named)

  -- The same of movement.started.
  started-accepted :
      (plan_scheduler i).action ≡ some a
      → a.kind ≡ ActionKind.append_movement_started
      → Bare e movement_started
      → e.movement_id ≡ a.movement_id
      → str_eq e.movement_id "" ≡ false
      → (apply e i.projection.state).0 ≡ ok tt
  unfolding dispatch
  started-accepted d k bare same named =
      bare-accepted i e movement_started bare started-TakesNothing on
        (started_handled i a e end d k same named)
