-- ===== src/RunState/Guards.antt =====
-- internal/runstate/apply.go: `requireMovement…`, `requireAttempt…`, and the updates of single
-- entries that the handlers share.
use partitur.Prelude.{String, Bool, true, false, ◌&&◌, Option, none, some, str_eq}
use partitur.Dict.{lookup, insert, has}
use partitur.Json.{Fields, must_string}
use partitur.RunState.Types.{
  MovementState, Attempt, AttemptState, ApplicationProjection, PromotionProjection,
}
use partitur.RunState.Event.{Event}
use partitur.RunState.State.{State}
use partitur.RunState.Action.{
  Action, gets, raise_if, raise_unless, some_or, invalid, transition, ◌>>=◌, ◌>>◌, modify,
}
use partitur.RunState.Waiting.{holds}

-- `requireMovementOneOf`: the wanted states are given by a test.
abbrev pub require_movement : (MovementState → Bool) → Event → Action (Unit {0})
require_movement legal e = do
  raise_if (str_eq e.movement_id "") (invalid e "movement_id is required")
  found ← gets (λ s. lookup e.movement_id s.movements)
  raise_unless (holds legal found) (transition e "movement is not in a legal source state")

abbrev attempt_in : (AttemptState → Bool) → Option Attempt → Option Attempt
attempt_in legal none = none
attempt_in legal (some a) = elim (legal a.state) [ true ↦ some a | false ↦ none ]

-- `requireAttemptOneOf`
abbrev pub require_attempt : (AttemptState → Bool) → Event → Action Attempt
require_attempt legal e = do
  raise_if (str_eq e.attempt_id "") (invalid e "attempt_id is required")
  found ← gets (λ s. lookup e.attempt_id s.attempts)
  some_or (attempt_in legal found) (transition e "attempt is not in a legal source state")

abbrev pub is_starting : AttemptState → Bool
is_starting AttemptState.starting = true
is_starting _ = false

abbrev pub is_attempt_running : AttemptState → Bool
is_attempt_running AttemptState.running = true
is_attempt_running _ = false

abbrev pub is_verifying : AttemptState → Bool
is_verifying AttemptState.verifying = true
is_verifying _ = false

abbrev pub is_completed : AttemptState → Bool
is_completed AttemptState.completed = true
is_completed _ = false

abbrev pub is_running_or_verifying : AttemptState → Bool
is_running_or_verifying AttemptState.running = true
is_running_or_verifying AttemptState.verifying = true
is_running_or_verifying _ = false

-- The attempts that may still fail: starting, running or verifying.
abbrev pub is_live_attempt : AttemptState → Bool
is_live_attempt AttemptState.starting = true
is_live_attempt AttemptState.running = true
is_live_attempt AttemptState.verifying = true
is_live_attempt _ = false

abbrev pub put_movement : String → MovementState → State → State
put_movement id m s = record s { movements = insert id m s.movements }

abbrev pub put_attempt : String → Attempt → State → State
put_attempt id a s = record s { attempts = insert id a s.attempts }

-- `attempt.State = …; state.Attempts[event.AttemptID] = attempt`
abbrev pub move_attempt : Event → Attempt → AttemptState → Action (Unit {0})
move_attempt e a to = modify (put_attempt e.attempt_id (record a { state = to }))

abbrev pub require_own_attempt : Event → Attempt → Action (Unit {0})
require_own_attempt e a =
    raise_unless (str_eq a.movement_id e.movement_id)
      (invalid e "attempt does not belong to movement")

abbrev pub require_probed : Event → Action (Unit {0})
require_probed e = do
  probed ← gets (λ s. has e.attempt_id s.adapter_observations)
  raise_unless probed (transition e "adapter is not probed")

-- `matchesApplicationTransaction`
unfoldable pub matches_application_transaction : ApplicationProjection → Fields → Bool
matches_application_transaction a p =
    str_eq a.transaction_id (must_string p "txn_id")
    && str_eq a.candidate_id (must_string p "candidate_id")

-- `matchesPromotionTransaction`
unfoldable pub matches_promotion_transaction : PromotionProjection → Fields → Bool
matches_promotion_transaction a p =
    str_eq a.transaction_id (must_string p "txn_id")
    && str_eq a.candidate_id (must_string p "candidate_id")
