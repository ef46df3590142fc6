-- ===== src/Recovery/Causes.antt =====
-- internal/recoveryconsequence/consequence.go: a failure that is classified from the planner's
-- facts is realized from them, and a consequence is caused by an event of the journal.
use partitur.Prelude.{
  ◌≡◌, refl, arith, String, Bool, true, false, ◌||◌, Option, some, List, [], ◌∷◌, str_eq, eq_iff,
  is_some,
}
use partitur.RunState.Types.{Disposition}
use partitur.RunState.Event.{Event, EventType}
use partitur.RunState.State.{State}
use partitur.Successor.{ok, FailureCase, Realization, realize, next_unvisited}
use partitur.Successor.Proofs.{Replays, replay_input, classify-realize}
use partitur.Recovery.Names.{CaseId}
use partitur.Recovery.Types.{AttemptRecovery, AcceptanceRecovery}
use partitur.Recovery.Decision.{Action}
use partitur.Recovery.Consequence.{
  any_unvisited, classification_of, classify_current, latest_event_id, realization_source,
  movement_source, source_authority,
}

any_unvisited_lem :
    (visited xs : List String) → any_unvisited visited xs ≡ is_some (next_unvisited visited xs)
unfolding any_unvisited next_unvisited
any_unvisited_lem visited [] = refl
any_unvisited_lem visited (x ∷ xs) = ground (arith, any_unvisited_lem visited xs)

-- What is decided of a failure from the facts of the current attempt is replayed from the same facts
-- with the same charge and reason: it selects a successor or ends the movement, and never finds the
-- fallback that it counted on gone.
pub classified-realized :
    (x : AttemptRecovery) (a : Action) (f : FailureCase) (d : Disposition)
    → str_eq x.failure_classification.current_performer "" ≡ false
    → classify_current (some x) a f ≡ some (ok d)
    → (r : Realization) × ((realize (
            replay_input d x.failure_classification.current_performer
              x.failure_classification.fallbacks x.failure_classification.visited_performers)
          ≡ ok r)
        × Replays d r)
unfolding classify_current
classified-realized x a f d named h =
    let facts = x.failure_classification in
    classify-realize facts.current_performer facts.fallbacks facts.visited_performers
      (classification_of facts f) d named
      (any_unvisited_lem (facts.current_performer ∷ facts.visited_performers) facts.fallbacks)
      (ground arith)

-- One of the events has this identifier.
unfoldable pub names_event : List Event → String → Bool
names_event [] id = false
names_event (e ∷ es) id = str_eq e.event_id id || names_event es id

latest_event_id-names_event :
    (matches : Event → Bool) (es : List Event) (id : String)
    → latest_event_id matches es ≡ some id
    → names_event es id ≡ true
unfolding latest_event_id names_event
latest_event_id-names_event matches [] id h = absurd (ground arith)
latest_event_id-names_event matches (e ∷ es) id h =
    ground (arith, latest_event_id-names_event matches es id, (eq_iff e.event_id id).1)

module _ (es : List Event) (a : Action) where
  realization-names_event :
      (c : CaseId) (r : Option AcceptanceRecovery) (id : String)
      → realization_source es a c r ≡ some id
      → names_event es id ≡ true
  unfolding realization_source
  realization-names_event c r id h = grind (arith, latest_event_id-names_event)

  movement-names_event :
      (s : State) (id : String) → movement_source es a s ≡ some id → names_event es id ≡ true
  unfolding movement_source
  movement-names_event s id h = grind (arith, latest_event_id-names_event)

-- Whatever a recovery's consequence is said to be caused by is an event of the journal that was read.
pub source_authority-names_event :
    (es : List Event) (a : Action) (s : State) (c : CaseId) (r : Option AcceptanceRecovery)
    (t : EventType) (id : String)
    → source_authority es a s c r t ≡ some id
    → names_event es id ≡ true
unfolding source_authority
source_authority-names_event es a s c r EventType.decision_requested id h =
    grind (arith, latest_event_id-names_event)
source_authority-names_event es a s c r EventType.execution_stopped id h =
    grind (arith, latest_event_id-names_event)
source_authority-names_event es a s c r EventType.attempt_failed id h =
    grind (arith, latest_event_id-names_event)
source_authority-names_event es a s c r EventType.criterion_completed id h =
    grind (arith, latest_event_id-names_event)
source_authority-names_event es a s c r EventType.acceptance_failed id h =
    grind (arith, latest_event_id-names_event)
source_authority-names_event es a s c r EventType.attempt_completed id h =
    grind (arith, latest_event_id-names_event)
source_authority-names_event es a s c r EventType.movement_succeeded id h =
    grind (arith, latest_event_id-names_event)
source_authority-names_event es a s c r EventType.movement_failed id h = grind (
  arith,
  latest_event_id-names_event,
  realization-names_event es a c r id,
  movement-names_event es a s id,
)
source_authority-names_event es a s c r EventType.run_failed id h =
    grind (arith, latest_event_id-names_event)
source_authority-names_event es a s c r t id h = absurd (ground arith)
