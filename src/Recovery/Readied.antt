-- ===== src/Recovery/Readied.antt =====
-- internal/recovery/planner.go: what the scheduler's table makes ready or starts, and that
-- internal/runstate/apply.go accepts the event.
use mathlib.Core.List.{Mem, mem-cons_self, mem-cons_of_mem}
use partitur.Prelude.{
  Option-cases, Bool-cases, ◌≡◌, refl, arith, String, true, false, some, List, [], ◌∷◌, str_eq,
  is_some, sym, subst, ◌⊎◌, inl, inr,
}
use partitur.Json.{Fields}
use partitur.RunState.Event.{Event}
use partitur.RunState.State.{State}
use partitur.RunState.Action.{ok}
use partitur.RunState.Handlers.Movement.{
  is_pending, is_ready, on_movement_ready, on_movement_started,
}
use partitur.Recovery.Names.{ActionKind}
use partitur.Recovery.Types.{Input, Projection, Scheduler, ScheduledMovement}
use partitur.Recovery.Decision.{Action, Decision}
use partitur.Recovery.Scheduler.{
  in_state, may_select, may_become_ready, first_to_ready, first_under_way, dependencies_succeeded,
  budget_exhaustion, plan_candidate, plan_movement, plan_between_unit, plan_recovered,
  plan_scheduler,
}

-- A movement of the list with this identifier, which passes the guards of a movement that becomes
-- ready.
pub record Eligible (s : State) (c : Scheduler) (id : String) : Type 0 where
  pub movement : ScheduledMovement
  pub named : movement.id ≡ id
  pub selected : may_select c id ≡ true
  pub pending : in_state is_pending s id ≡ true
  pub dependencies : dependencies_succeeded s movement.needs ≡ true
  pub candidate :
      (movement.is_final ≡ false)
      ⊎ ((c.gate_waived ≡ true) ⊎ (is_some s.application_candidate ≡ true))
  pub scheduled : Mem movement c.movements

first_to_ready_lem :
    (s : State) (c : Scheduler) (ms : List ScheduledMovement) (m : ScheduledMovement)
    → first_to_ready s c ms ≡ some m
    → (may_become_ready s c m ≡ true) × Mem m ms
unfolding first_to_ready
first_to_ready_lem s c [] m h = absurd (ground arith)
first_to_ready_lem s c (x ∷ ms) m h = elim (Bool-cases (may_become_ready s c x)) [
  | inl chosen ↦
      let same : x ≡ m = ground arith in
      (
        subst (λ y. may_become_ready s c y ≡ true) same chosen,
        subst (λ y. Mem y (x ∷ ms)) same mem-cons_self,
      )
  | inr skipped ↦
      let (guards, scheduled) = first_to_ready_lem s c ms m (ground arith) in
      (guards, mem-cons_of_mem x scheduled)
]

-- The guards of the first loop, taken apart.
eligible :
    (s : State) (c : Scheduler) (m : ScheduledMovement)
    → may_become_ready s c m ≡ true
    → Mem m c.movements
    → Eligible s c m.id
unfolding may_become_ready
eligible s c m h scheduled = record {
  movement = m;
  named = refl;
  selected = ground arith;
  pending = ground arith;
  dependencies = ground arith;
  candidate = ground arith;
  scheduled = scheduled;
}

module _ (s : State) (c : Scheduler) (a : Action) where
  under_way-ready :
      (ms : List ScheduledMovement) (d : Decision)
      → first_under_way s c ms ≡ some d
      → d.action ≡ some a
      → ¬ (a.kind ≡ ActionKind.append_movement_ready)
  unfolding first_under_way
  under_way-ready [] d h e k = absurd (ground arith)
  under_way-ready (m ∷ ms) d h e k = grind (arith, under_way-ready ms d)

  under_way-started :
      (ms : List ScheduledMovement) (d : Decision)
      → first_under_way s c ms ≡ some d
      → d.action ≡ some a
      → a.kind ≡ ActionKind.append_movement_started
      → in_state is_ready s a.movement_id ≡ true
  unfolding first_under_way
  under_way-started [] d h e k = absurd (ground arith)
  under_way-started (m ∷ ms) d h e k = grind (arith, under_way-started ms d)

  movement-readied :
      (plan_movement s c).action ≡ some a
      → a.kind ≡ ActionKind.append_movement_ready
      → Eligible s c a.movement_id
  unfolding plan_movement plan_candidate
  movement-readied e k = elim (Option-cases (first_to_ready s c c.movements)) [
    | inl nothing ↦ absurd (grind (arith, under_way-ready c.movements))
    | inr (m, found) ↦
        let own : a.movement_id ≡ m.id = grind arith in
        let (guards, scheduled) = first_to_ready_lem s c c.movements m found in
        subst (Eligible s c) (sym own) (eligible s c m guards scheduled)
  ]

  movement-started :
      (plan_movement s c).action ≡ some a
      → a.kind ≡ ActionKind.append_movement_started
      → in_state is_ready s a.movement_id ≡ true
  unfolding plan_movement plan_candidate
  movement-started e k = grind (arith, under_way-started c.movements)

module _ (p : Projection) (a : Action) where
  between-readied :
      (plan_between_unit p).action ≡ some a
      → a.kind ≡ ActionKind.append_movement_ready
      → Eligible p.state p.scheduler a.movement_id
  unfolding plan_between_unit budget_exhaustion
  between-readied e k = movement-readied p.state p.scheduler a (grind arith) k

  between-started :
      (plan_between_unit p).action ≡ some a
      → a.kind ≡ ActionKind.append_movement_started
      → in_state is_ready p.state a.movement_id ≡ true
  unfolding plan_between_unit budget_exhaustion
  between-started e k = movement-started p.state p.scheduler a (grind arith) k

-- A movement's event comes from the decision between the units.
scheduler-between :
    (i : Input) (a : Action)
    → (plan_scheduler i).action ≡ some a
    → (a.kind ≡ ActionKind.append_movement_ready) ⊎ (a.kind ≡ ActionKind.append_movement_started)
    → (plan_between_unit i.projection).action ≡ some a
unfolding plan_scheduler plan_recovered
scheduler-between i a e k = ground arith

-- The scheduler's table makes a movement ready only if it is one of the movements, a draft lets it
-- run, it is pending, all that it needs has succeeded, and, if it is the final one and the gate is
-- not waived, the application candidate is recorded.
pub plan_scheduler-Eligible :
    (i : Input) (a : Action)
    → (plan_scheduler i).action ≡ some a
    → a.kind ≡ ActionKind.append_movement_ready
    → Eligible i.projection.state i.projection.scheduler a.movement_id
plan_scheduler-Eligible i a e k = between-readied i.projection a (scheduler-between i a e (inl k)) k

module _ (i : Input) (a : Action) (e : Event) (p : Fields) where
  -- The handler of movement.ready accepts the movement that the scheduler's table makes ready, if it
  -- has an identifier.
  pub readied_handled :
      (plan_scheduler i).action ≡ some a
      → a.kind ≡ ActionKind.append_movement_ready
      → e.movement_id ≡ a.movement_id
      → str_eq e.movement_id "" ≡ false
      → (on_movement_ready e p i.projection.state).0 ≡ ok tt
  unfolding on_movement_ready
  readied_handled d k same named =
      let pending = (plan_scheduler-Eligible i a d k).pending in
      let own = subst (λ id. in_state is_pending i.projection.state id ≡ true) (sym same) pending in
      ground arith

  -- The same of movement.started.
  pub started_handled :
      (plan_scheduler i).action ≡ some a
      → a.kind ≡ ActionKind.append_movement_started
      → e.movement_id ≡ a.movement_id
      → str_eq e.movement_id "" ≡ false
      → (on_movement_started e p i.projection.state).0 ≡ ok tt
  unfolding on_movement_started
  started_handled d k same named =
      let ready = between-started i.projection a (scheduler-between i a d (inr k)) k in
      let own = subst (λ id. in_state is_ready i.projection.state id ≡ true) (sym same) ready in
      ground arith
