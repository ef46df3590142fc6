-- ===== src/RunState/Budget.antt =====
-- internal/runstate/apply.go under internal/runstore/journal.go: the budget that a journal consumes.
use partitur.Prelude.{
  ◌≡◌, refl, sym, ap, ◌∙◌, subst, arith, Bool, true, false, ℤ, add_int64, Option, none, some, List,
  [], ◌∷◌, if◌then◌else◌,
}
use partitur.Json.{Fields, end, as_object, must_int}
use partitur.RunState.Types.{ExecutionInterval}
use partitur.RunState.Event.{Event, EventType, execution_stopped}
use partitur.RunState.State.{State}
use partitur.RunState.Action.{ok}
use partitur.RunState.Payload.Validate.{validate_payload}
use partitur.RunState.Apply.{apply}
use partitur.RunState.Accounting.{AccountStep, apply-AccountStep, measures}
use partitur.RunState.Replay.{replay, Journey, done, event, replay-Journey}

abbrev is_stop : EventType → Bool
is_stop execution_stopped = true
is_stop _ = false

-- The payload as it stands in the journal.
abbrev raw_payload : Event → Fields
raw_payload e = elim e.payload [
  | none ↦ end
  | some v ↦ elim (as_object v) [ none ↦ end | some p ↦ p ]
]

-- The charged durations of the stopped intervals of a journal, added one by one as int64 to what was
-- consumed before.
unfoldable pub charged : List Event → ℤ → ℤ
charged [] consumed = consumed
charged (e ∷ es) consumed = charged es (
    if is_stop e.type
    then add_int64 consumed (must_int (raw_payload e) "charged_duration")
    else consumed)

raw_payload_lem : (e : Event) (p : Fields) → validate_payload e ≡ ok p → raw_payload e ≡ p
unfolding validate_payload
raw_payload_lem e p h = ground arith

not_stop : (t : EventType) → measures t ≡ false → is_stop t ≡ false
not_stop execution_stopped h = absurd (ground arith)
not_stop _ h = refl

step_lem :
    (t : EventType) (p : Fields) (old new : Option ExecutionInterval) (b c : ℤ)
    → AccountStep t p old b new c
    → c ≡ (if is_stop t then add_int64 b (must_int p "charged_duration") else b)
step_lem t p old new b c (AccountStep.idle h) = ground (arith, not_stop t)
step_lem t p old new b c (AccountStep.start same _ _ _ _) =
    subst (λ u. b ≡ (if is_stop u then add_int64 b (must_int p "charged_duration") else b))
      (sym same) refl
step_lem t p old new b c (AccountStep.checkpoint same _ _ _ _ _ _) =
    subst (λ u. b ≡ (if is_stop u then add_int64 b (must_int p "charged_duration") else b))
      (sym same) refl
step_lem t p old new b c (AccountStep.stop same _ _) =
    subst
      (λ u.
        add_int64 b (must_int p "charged_duration")
        ≡ (if is_stop u then add_int64 b (must_int p "charged_duration") else b))
      (sym same) refl

event_lem :
    (e : Event) (s : State)
    → (apply e s).0 ≡ ok tt
    → (apply e s).1.consumed_budget_ms ≡ (
        if is_stop e.type
        then add_int64 s.consumed_budget_ms (must_int (raw_payload e) "charged_duration")
        else s.consumed_budget_ms)
event_lem e s h =
    let (p, valid, step) = apply-AccountStep e s h in
    subst
      (λ q. (apply e s).1.consumed_budget_ms ≡ (
        if is_stop e.type
        then add_int64 s.consumed_budget_ms (must_int q "charged_duration")
        else s.consumed_budget_ms))
      (sym (raw_payload_lem e p valid))
      (step_lem e.type p s.open_execution (apply e s).1.open_execution s.consumed_budget_ms
        (apply e s).1.consumed_budget_ms step)

journey_lem :
    (es : List Event) (s t : State)
    → Journey es s t
    → t.consumed_budget_ms ≡ charged es s.consumed_budget_ms
unfolding charged
journey_lem [] s t done = refl
journey_lem (e ∷ es) s t (event accepted rest) =
    journey_lem es (apply e s).1 t rest ∙ ap (charged es) (event_lem e s accepted)

-- The budget that a journal has consumed, where it replays, is what was consumed before and the
-- charged durations of its execution.stopped events, added one by one as int64: nothing else in a
-- journal charges or returns any of it.
pub replay-charged :
    (es : List Event) (s t : State)
    → replay es s ≡ ok t
    → t.consumed_budget_ms ≡ charged es s.consumed_budget_ms
replay-charged es s t h = journey_lem es s t (replay-Journey es s t h)
