-- ===== src/Recovery/Progress.antt =====
-- internal/recovery/planner.go: a compiled lifecycle that is not finished always has a next effect.
use partitur.Prelude.{
  ◌≡◌, refl, arith, String, Bool, true, false, ◌&&◌, ◌||◌, not, List, [], ◌∷◌, str_eq, eq_iff,
  is_some, is_empty, contains, subst, if◌then◌else◌, Bool-cases, inl, inr,
}
use partitur.RunState.Types.{MovementState}
use partitur.RunState.State.{State}
use partitur.RunState.Waiting.{movement_running}
use partitur.RunState.Handlers.Movement.{is_pending, is_ready}
use partitur.Recovery.Types.{Scheduler, ScheduledMovement, Projection}
use partitur.Recovery.Decision.{valid}
use partitur.Recovery.Scheduler.{
  in_state, movement_succeeded, may_become_ready, first_to_ready, first_under_way,
  dependencies_succeeded, repo_writes_succeeded, all_settled, plan_candidate, plan_movement,
  plan_between_unit,
}
use partitur.Recovery.Valid.{under_way-valid, budget-valid, decide-valid}

abbrev schedulable : MovementState → Bool
schedulable MovementState.pending = true
schedulable MovementState.ready = true
schedulable MovementState.running = true
schedulable MovementState.succeeded = true
schedulable _ = false

abbrev is_inapplicable : MovementState → Bool
is_inapplicable MovementState.inapplicable = true
is_inapplicable _ = false

-- The movement is under way or has succeeded, or it is left out and does not write.
abbrev well_placed : State → ScheduledMovement → Bool
well_placed s m =
    in_state schedulable s m.id || (in_state is_inapplicable s m.id && not m.repo_write)

abbrev all_within : List String → List String → Bool
all_within done [] = true
all_within done (n ∷ ns) = contains done n && all_within done ns

-- The movements come after those that they need, none of which is left out; and a final one comes
-- last.
unfoldable pub in_order : State → List String → List ScheduledMovement → Bool
in_order s done [] = true
in_order s done (m ∷ ms) =
    let next = (if in_state is_inapplicable s m.id then done else m.id ∷ done) in
    well_placed s m
    && (all_within done m.needs && ((not m.is_final || is_empty ms) && in_order s next ms))

abbrev open_candidate : State → Scheduler → Bool
open_candidate s c = not c.gate_waived && not (is_some s.application_candidate)

-- There is a movement to make ready or one under way, or they are all settled, or all that
-- an application candidate, which is wanted, is made of.
progress : State → Scheduler → List ScheduledMovement → Bool
progress s c ms =
    is_some (first_to_ready s c ms)
    || (is_some (first_under_way s c ms)
        || (all_settled s ms || (open_candidate s c && repo_writes_succeeded s ms)))

contained-succeeded :
    (s : State) (done : List String) (n : String)
    → dependencies_succeeded s done ≡ true
    → contains done n ≡ true
    → in_state movement_succeeded s n ≡ true
unfolding dependencies_succeeded
contained-succeeded s [] n h e = absurd (ground arith)
contained-succeeded s (d ∷ done) n h e = elim (Bool-cases (str_eq d n)) [
  | inl same ↦
      subst (λ j. in_state movement_succeeded s j ≡ true) ((eq_iff d n).0 same) (ground arith)
  | inr other ↦ contained-succeeded s done n (ground arith) (ground arith)
]

within-succeeded :
    (s : State) (done needs : List String)
    → dependencies_succeeded s done ≡ true
    → all_within done needs ≡ true
    → dependencies_succeeded s needs ≡ true
unfolding dependencies_succeeded
within-succeeded s done [] h e = refl
within-succeeded s done (n ∷ ns) h e =
    grind (arith, contained-succeeded s done n, within-succeeded s done ns)

module _ (s : State) (c : Scheduler) (not_draft : str_eq c.status "draft" ≡ false) where
  pending-progress :
      (done : List String) (m : ScheduledMovement) (ms : List ScheduledMovement)
      → dependencies_succeeded s done ≡ true
      → in_order s done (m ∷ ms) ≡ true
      → in_state is_pending s m.id ≡ true
      → progress s c (m ∷ ms) ≡ true
  unfolding progress in_order first_to_ready may_become_ready repo_writes_succeeded
  pending-progress done m ms h o e = let ready = within-succeeded s done m.needs h in ground arith

  under_way-progress :
      (m : ScheduledMovement) (ms : List ScheduledMovement)
      → (in_state is_ready s m.id || in_state movement_running s m.id) ≡ true
      → progress s c (m ∷ ms) ≡ true
  unfolding progress first_under_way
  under_way-progress m ms e = ground arith

  settled-progress :
      (m : ScheduledMovement) (ms : List ScheduledMovement)
      → in_state movement_succeeded s m.id || (in_state is_inapplicable s m.id && not m.repo_write)
        ≡ true
      → progress s c ms ≡ true
      → progress s c (m ∷ ms) ≡ true
  unfolding progress first_to_ready first_under_way all_settled repo_writes_succeeded
      may_become_ready
  settled-progress m ms e h = ground arith

  -- What the walk over the movements finds, when those before have succeeded.
  walk :
      (done : List String) (ms : List ScheduledMovement)
      → dependencies_succeeded s done ≡ true
      → in_order s done ms ≡ true
      → progress s c ms ≡ true
  unfolding progress in_order all_settled dependencies_succeeded
  walk done [] h o = ground arith
  walk done (m ∷ ms) h o = grind (
    arith,
    pending-progress done m ms h o,
    under_way-progress m ms,
    settled-progress m ms,
    walk done ms,
    walk (m.id ∷ done) ms,
  )

settled-writes :
    (s : State) (done : List String) (ms : List ScheduledMovement)
    → in_order s done ms ≡ true
    → all_settled s ms ≡ true
    → repo_writes_succeeded s ms ≡ true
unfolding in_order all_settled repo_writes_succeeded
settled-writes s done [] o h = refl
settled-writes s done (m ∷ ms) o h =
    grind (arith, settled-writes s done ms, settled-writes s (m.id ∷ done) ms)

-- Nothing is left: a lifecycle with a gate has its candidate, and one without has no movements.
abbrev finished : State → Scheduler → Bool
finished s c =
    all_settled s c.movements
    && (if c.gate_waived then is_empty c.movements else is_some s.application_candidate)

candidate-valid :
    (s : State) (c : Scheduler)
    → in_order s [] c.movements ≡ true
    → finished s c ≡ false
    → all_settled s c.movements || (open_candidate s c && repo_writes_succeeded s c.movements)
      ≡ true
    → valid (plan_candidate s c) ≡ true
unfolding plan_candidate
candidate-valid s c o f h = grind (arith, decide-valid, settled-writes s [] c.movements o)

movement-valid :
    (s : State) (c : Scheduler)
    → in_order s [] c.movements ≡ true
    → finished s c ≡ false
    → progress s c c.movements ≡ true
    → valid (plan_movement s c) ≡ true
unfolding plan_movement progress
movement-valid s c o f h =
    grind (arith, decide-valid, under_way-valid s c c.movements, candidate-valid s c o f)

-- Of a compiled lifecycle that is no draft, whose movements come after those that they need, with
-- the final one last, and whose movements are each pending, ready, running or succeeded (or left
-- out, if they write nothing and are not needed), `PlanBetweenUnit` finds a next effect, unless
-- all is settled and the candidate recorded.
pub plan_between_unit-progress :
    (p : Projection)
    → str_eq p.scheduler.status "draft" ≡ false
    → in_order p.state [] p.scheduler.movements ≡ true
    → finished p.state p.scheduler ≡ false
    → valid (plan_between_unit p) ≡ true
unfolding plan_between_unit dependencies_succeeded
plan_between_unit-progress p d o f =
    let found = walk p.state p.scheduler d [] p.scheduler.movements refl o in
    grind (
      arith,
      decide-valid,
      budget-valid p.state p.scheduler,
      movement-valid p.state p.scheduler o f found,
    )
