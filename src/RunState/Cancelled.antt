-- ===== src/RunState/Cancelled.antt =====
-- internal/runstate/apply.go: the attempts and movements after a cancellation.
use partitur.Prelude.{
  ◌≡◌, ◌∙◌, arith, refl, Bool, true, not, ◌||◌, Option, none, some, List, [], ◌∷◌, String, str_eq,
  contains, sort, insert_sorted, ap, sym, subst,
}
use partitur.Dict.{Dict, lookup, insert, lookup-insert}
use partitur.Json.{Fields}
use partitur.RunState.Types.{Attempt, AttemptState, MovementState, ended, terminal}
use partitur.RunState.Event.{Event, EventType, run_cancelled}
use partitur.RunState.State.{State}
use partitur.RunState.Action.{ok}
use partitur.RunState.Waiting.{
  live_attempts, live_movements, cancellable_attempt_ids, cancellable_movement_ids,
  movement_cancellable, close_all_pending_decisions, refresh_waiting_human, hold_movements,
}
use partitur.RunState.Handlers.Run.{
  cancel_attempts, cancel_movements, attempt_moved, on_run_cancelled,
}
use partitur.RunState.Apply.{dispatch, apply}
use partitur.RunState.Apply.Accepted.{apply-Accepted, note_applied_lem}
use partitur.RunState.Frame.{state-require_cancellation}

contains-insert_sorted :
    (x : String) (xs : List String) (s : String)
    → contains (insert_sorted x xs) s ≡ (str_eq x s || contains xs s)
unfolding insert_sorted
contains-insert_sorted x [] s = refl
contains-insert_sorted x (y ∷ ys) s = ground (arith, contains-insert_sorted x ys s)

contains-sort : (xs : List String) (s : String) → contains (sort xs) s ≡ contains xs s
unfolding sort
contains-sort [] s = refl
contains-sort (x ∷ xs) s = ground (arith, contains-insert_sorted x (sort xs) s, contains-sort xs s)

-- The attempt has ended, or is not there.
abbrev pub attempt_over : Option Attempt → Bool
attempt_over none = true
attempt_over (some a) = ended a.state

over-insert :
    (k id : String) (a : Attempt) (d : Dict Attempt)
    → ended a.state ≡ true
    → attempt_over (lookup k (insert id a d)) ≡ (str_eq id k || attempt_over (lookup k d))
over-insert k id a d h = grind (arith, lookup-insert id k a d)

moved_ended : (o : Option Attempt) → ended (attempt_moved AttemptState.cancelled o).state ≡ true
unfolding ended
moved_ended none = refl
moved_ended (some a) = refl

over-cancel_attempts :
    (k : String) (ids : List String) (d : Dict Attempt)
    → attempt_over (lookup k (cancel_attempts ids d))
      ≡ (contains ids k || attempt_over (lookup k d))
unfolding cancel_attempts
over-cancel_attempts k [] d = refl
over-cancel_attempts k (id ∷ ids) d =
    let moved = attempt_moved AttemptState.cancelled (lookup id d) in
    ground (
      arith,
      over-cancel_attempts k ids (insert id moved d),
      over-insert k id moved d (moved_ended (lookup id d)),
    )

live-over :
    (k : String) (d : Dict Attempt)
    → (contains (live_attempts d) k || attempt_over (lookup k d)) ≡ true
unfolding live_attempts lookup
live-over k [] = refl
live-over k ((id, a) ∷ d) = grind (arith, live-over k d)

-- The movement cannot be cancelled, or is not there.
abbrev pub movement_over : Option MovementState → Bool
movement_over none = true
movement_over (some m) = not (movement_cancellable m)

movement_over-insert :
    (k id : String) (d : Dict MovementState)
    → movement_over (lookup k (insert id MovementState.cancelled d))
      ≡ (str_eq id k || movement_over (lookup k d))
movement_over-insert k id d = grind (arith, lookup-insert id k MovementState.cancelled d)

over-cancel_movements :
    (k : String) (ids : List String) (d : Dict MovementState)
    → movement_over (lookup k (cancel_movements ids d))
      ≡ (contains ids k || movement_over (lookup k d))
unfolding cancel_movements
over-cancel_movements k [] d = refl
over-cancel_movements k (id ∷ ids) d = ground (
  arith,
  over-cancel_movements k ids (insert id MovementState.cancelled d),
  movement_over-insert k id d,
)

live-movement_over :
    (k : String) (d : Dict MovementState)
    → (contains (live_movements d) k || movement_over (lookup k d)) ≡ true
unfolding live_movements lookup
live-movement_over k [] = refl
live-movement_over k ((id, m) ∷ d) = grind (arith, live-movement_over k d)

module _ (e : Event) (p : Fields) (s : State) where
  cancelled-attempts :
      (on_run_cancelled e p s).0 ≡ ok tt
      → (on_run_cancelled e p s).1.attempts ≡ cancel_attempts (cancellable_attempt_ids s) s.attempts
  unfolding on_run_cancelled close_all_pending_decisions refresh_waiting_human
  cancelled-attempts h = ground (arith, state-require_cancellation e p s)

  cancelled-movements :
      (on_run_cancelled e p s).0 ≡ ok tt
      → (on_run_cancelled e p s).1.movements
        ≡ cancel_movements (cancellable_movement_ids s) s.movements
  unfolding on_run_cancelled close_all_pending_decisions refresh_waiting_human hold_movements
      terminal
  cancelled-movements h = ground (arith, state-require_cancellation e p s)

over-cancellable_attempts :
    (k : String) (s : State)
    → attempt_over (lookup k (cancel_attempts (cancellable_attempt_ids s) s.attempts)) ≡ true
unfolding cancellable_attempt_ids
over-cancellable_attempts k s =
    over-cancel_attempts k (sort (live_attempts s.attempts)) s.attempts
    ∙ ap (λ b. b || attempt_over (lookup k s.attempts)) (contains-sort (live_attempts s.attempts) k)
    ∙ live-over k s.attempts

over-cancellable_movements :
    (k : String) (s : State)
    → movement_over (lookup k (cancel_movements (cancellable_movement_ids s) s.movements)) ≡ true
unfolding cancellable_movement_ids
over-cancellable_movements k s =
    over-cancel_movements k (sort (live_movements s.movements)) s.movements
    ∙ ap (λ b. b || movement_over (lookup k s.movements))
        (contains-sort (live_movements s.movements) k)
    ∙ live-movement_over k s.movements

dispatch-cancelled :
    (t : EventType) (e : Event) (p : Fields) (s : State) (k : String)
    → t ≡ run_cancelled
    → (dispatch t e p s).0 ≡ ok tt
    → (attempt_over (lookup k (dispatch t e p s).1.attempts) ≡ true)
      × (movement_over (lookup k (dispatch t e p s).1.movements) ≡ true)
unfolding dispatch
dispatch-cancelled run_cancelled e p s k c h = (
  ap (λ d. attempt_over (lookup k d)) (cancelled-attempts e p s h) ∙ over-cancellable_attempts k s,
  ap (λ d. movement_over (lookup k d)) (cancelled-movements e p s h)
      ∙ over-cancellable_movements k s,
)
dispatch-cancelled t e p s k c h = absurd (ground arith)

-- After an accepted cancellation, whatever the identifier, its attempt has ended or does not
-- exist, and its movement can no longer be cancelled or does not exist.
pub apply-cancelled :
    (e : Event) (s : State) (k : String)
    → e.type ≡ run_cancelled
    → (apply e s).0 ≡ ok tt
    → (attempt_over (lookup k (apply e s).1.attempts) ≡ true)
      × (movement_over (lookup k (apply e s).1.movements) ≡ true)
apply-cancelled e s k c h =
    let a = apply-Accepted e s h in
    let d = (dispatch e.type e a.payload s).1 in
    subst
      (λ (u : State).
        (attempt_over (lookup k u.attempts) ≡ true) × (movement_over (lookup k u.movements) ≡ true))
      (sym (a.result ∙ note_applied_lem e (terminal s.run) d))
      (dispatch-cancelled e.type e a.payload s k c a.handled)
