-- ===== src/RunState/Accounting.antt =====
-- The budget: execution intervals of internal/runstate/apply.go and what they are charged.
use partitur.Prelude.{
  ◌≡◌, ◌∙◌, arith, refl, true, ℤ, pos, ltb_ℤ, add_int64, Option, none, some, ap, sym, subst, Bool,
  false, eq_iff,
}
use partitur.Json.{Fields, must_int, must_string}
use partitur.RunState.Types.{terminal, ExecutionInterval}
use partitur.RunState.Event.{
  Event, EventType, execution_started, execution_stopped, execution_elapsed_checkpointed,
}
use partitur.RunState.State.{State}
use partitur.RunState.Action.{ok}
use partitur.RunState.Payload.Validate.{validate_payload}
use partitur.RunState.Apply.{dispatch, apply}
use partitur.RunState.Apply.Accepted.{apply-Accepted, note_applied_lem}
use partitur.RunState.Footprint.{footprint, pick_lem}
use partitur.RunState.Footprint.Dispatch.{dispatch-Within}
use partitur.RunState.Handlers.Execution.{
  on_execution_started, on_execution_stopped, on_execution_elapsed_checkpointed,
}

abbrev pub measures : EventType → Bool
measures execution_started = true
measures execution_elapsed_checkpointed = true
measures execution_stopped = true
measures _ = false

-- What an event with this payload does to the open interval and the consumed budget.
pub data AccountStep (t : EventType) (p : Fields) (old : Option ExecutionInterval) (consumed : ℤ)
    : Option ExecutionInterval → ℤ → Type 0 where
  idle : measures t ≡ false → AccountStep t p old consumed old consumed
  start :
      {x : ExecutionInterval}
      → t ≡ execution_started
      → old ≡ none
      → x.id ≡ must_string p "interval_id"
      → x.remaining_at_start ≡ must_int p "remaining_at_start"
      → x.latest_checkpoint_ms ≡ pos 0
      → AccountStep t p old consumed (some x) consumed
  checkpoint :
      {x y : ExecutionInterval}
      → t ≡ execution_elapsed_checkpointed
      → old ≡ some x
      → x.id ≡ must_string p "interval_id"
      → y.id ≡ x.id
      → y.remaining_at_start ≡ x.remaining_at_start
      → y.latest_checkpoint_ms ≡ must_int p "cumulative_elapsed_ms"
      → ltb_ℤ x.latest_checkpoint_ms y.latest_checkpoint_ms ≡ true
      → AccountStep t p old consumed (some y) consumed
  stop :
      {x : ExecutionInterval}
      → t ≡ execution_stopped
      → old ≡ some x
      → x.id ≡ must_string p "interval_id"
      → AccountStep t p old consumed none (add_int64 consumed (must_int p "charged_duration"))

abbrev pub AccountOf : EventType → Fields → State → State → Type 0
AccountOf k p s t =
    AccountStep k p s.open_execution s.consumed_budget_ms t.open_execution t.consumed_budget_ms

step_at :
    (k : EventType) (p : Fields) (s t : State) {o : Option ExecutionInterval} {b : ℤ}
    → t.open_execution ≡ o
    → t.consumed_budget_ms ≡ b
    → AccountStep k p s.open_execution s.consumed_budget_ms o b
    → AccountOf k p s t
step_at k p s t ho hb step =
    subst (λ o. AccountStep k p s.open_execution s.consumed_budget_ms o t.consumed_budget_ms)
      (sym ho) (subst (AccountStep k p s.open_execution s.consumed_budget_ms _) (sym hb) step)

module _ (e : Event) (p : Fields) (s : State) where
  checkpointed :
      (x : Option ExecutionInterval)
      → s.open_execution ≡ x
      → (on_execution_elapsed_checkpointed e p s).0 ≡ ok tt
      → AccountOf execution_elapsed_checkpointed p s (on_execution_elapsed_checkpointed e p s).1
  unfolding on_execution_elapsed_checkpointed
  checkpointed none o h = absurd (ground arith)
  checkpointed (some x) o h =
      step_at execution_elapsed_checkpointed p s (on_execution_elapsed_checkpointed e p s).1
        {o = some (record x {
          latest_checkpoint_ms = must_int p "cumulative_elapsed_ms";
          latest_checkpoint_event_id = e.event_id;
        })}
        (ground arith) (ground arith)
        (checkpoint refl o ((eq_iff x.id (must_string p "interval_id")).0 (ground arith)) refl refl
          refl (ground arith))

  stopped :
      (x : Option ExecutionInterval)
      → s.open_execution ≡ x
      → (on_execution_stopped e p s).0 ≡ ok tt
      → AccountOf execution_stopped p s (on_execution_stopped e p s).1
  unfolding on_execution_stopped
  stopped none o h = absurd (ground arith)
  stopped (some x) o h =
      step_at execution_stopped p s (on_execution_stopped e p s).1 (ground arith) (ground arith)
        (stop refl o ((eq_iff x.id (must_string p "interval_id")).0 (ground arith)))

  started :
      (x : Option ExecutionInterval)
      → (on_execution_started e p s).1.open_execution ≡ x
      → (on_execution_started e p s).0 ≡ ok tt
      → AccountOf execution_started p s (on_execution_started e p s).1
  unfolding on_execution_started
  started none o h = absurd (ground arith)
  started (some x) o h =
      step_at execution_started p s (on_execution_started e p s).1 o (ground arith)
        (start refl (ground arith) (ground arith) (ground arith) (ground arith))

dispatch-AccountStep :
    (t : EventType) (e : Event) (p : Fields) (s : State)
    → (dispatch t e p s).0 ≡ ok tt
    → AccountOf t p s (dispatch t e p s).1
unfolding dispatch
dispatch-AccountStep execution_started e p s h =
    started e p s (on_execution_started e p s).1.open_execution refl h
dispatch-AccountStep execution_elapsed_checkpointed e p s h =
    checkpointed e p s s.open_execution refl h
dispatch-AccountStep execution_stopped e p s h = stopped e p s s.open_execution refl h
dispatch-AccountStep t e p s h =
    let new = dispatch-Within t e p s in
    step_at t p s (dispatch t e p s).1
      (pick_lem (footprint t).execution refl (ap (λ (u : State). u.open_execution) new))
      (pick_lem (footprint t).execution refl (ap (λ (u : State). u.consumed_budget_ms) new))
      (idle refl)

-- An accepted event of the three that measure execution opens the interval of its payload where none
-- is open, advances the checkpoint of the open one strictly to what its payload says, or closes the
-- open one and adds the charged duration of its payload to the consumed budget; every other accepted
-- event leaves the open interval and the budget as they are.
pub apply-AccountStep :
    (e : Event) (s : State)
    → (apply e s).0 ≡ ok tt
    → (p : Fields) × (validate_payload e ≡ ok p) × AccountOf e.type p s (apply e s).1
apply-AccountStep e s h =
    let a = apply-Accepted e s h in
    let d = (dispatch e.type e a.payload s).1 in
    (
      a.payload,
      a.validated,
      subst (AccountOf e.type a.payload s) (sym (a.result ∙ note_applied_lem e (terminal s.run) d))
          (dispatch-AccountStep e.type e a.payload s a.handled),
    )
