-- ===== src/RunState/Derived.antt =====
-- What `Apply` of internal/runstate/apply.go does with the four derived events: it checks what they
-- are caused by, and does not project them.
use partitur.Prelude.{
  ◌≡◌, refl, subst, arith, true, false, some, ◌<◌, ◌==◌, ◌⊎◌, inl, inr, Option-cases, Bool-cases,
  str_eq,
}
use partitur.Dict.{lookup}
use partitur.Json.{Fields}
use partitur.RunState.Event.{Event, EventType, is_derived_event}
use partitur.RunState.State.{State, AppliedEvent}
use partitur.RunState.Action.{ok, err, unsupported_event_type, lift, ◌>>=◌}
use partitur.RunState.Payload.Validate.{validate_payload}
use partitur.RunState.Apply.{
  project, apply, require_causation, causes, is_run_cancelled, is_amendment_approved,
}

-- The four derived events of the registry.
pub data Derived : EventType → Type 0 where
  movement_cancelled : Derived EventType.movement_cancelled
  attempt_cancelled : Derived EventType.attempt_cancelled
  attempt_superseded : Derived EventType.attempt_superseded
  decision_obsoleted : Derived EventType.decision_obsoleted

-- What each of them may be caused by.
pub data Cause : EventType → AppliedEvent → Type 0 where
  of_movement :
      {x : AppliedEvent} → x.type ≡ EventType.run_cancelled → Cause EventType.movement_cancelled x
  of_attempt :
      {x : AppliedEvent} → x.type ≡ EventType.run_cancelled → Cause EventType.attempt_cancelled x
  by_approval :
      {x : AppliedEvent}
      → x.type ≡ EventType.amendment_approved
      → Cause EventType.attempt_superseded x
  of_decision :
      {x : AppliedEvent}
      → (x.type ≡ EventType.amendment_approved) ⊎ (x.terminalizes_run ≡ true)
      → Cause EventType.decision_obsoleted x

-- The event that it names was applied before it, and may cause it.
pub record Caused (e : Event) (s : State) : Type 0 where
  pub source : AppliedEvent
  pub named : str_eq e.causation_id "" ≡ false
  pub applied : lookup e.causation_id s.applied_events ≡ some source
  pub earlier : (e.seq ≡ 0) ⊎ (source.sequence < e.seq)
  pub cause : Cause e.type source

cancelled_lem : (t : EventType) → is_run_cancelled t ≡ true → t ≡ EventType.run_cancelled
cancelled_lem EventType.run_cancelled h = refl
cancelled_lem _ h = absurd (ground arith)

approved_lem : (t : EventType) → is_amendment_approved t ≡ true → t ≡ EventType.amendment_approved
approved_lem EventType.amendment_approved h = refl
approved_lem _ h = absurd (ground arith)

causes-Cause : (t : EventType) (x : AppliedEvent) → Derived t → causes t x ≡ true → Cause t x
causes-Cause t x movement_cancelled h = of_movement (cancelled_lem x.type h)
causes-Cause t x attempt_cancelled h = of_attempt (cancelled_lem x.type h)
causes-Cause t x attempt_superseded h = by_approval (approved_lem x.type h)
causes-Cause t x decision_obsoleted h =
    of_decision {x = x} (elim (Bool-cases (is_amendment_approved x.type)) [
      | inl approved ↦ inl (approved_lem x.type approved)
      | inr other ↦ inr (ground arith)
    ])

derived_lem : (t : EventType) → Derived t → is_derived_event t ≡ true
unfolding is_derived_event
derived_lem t movement_cancelled = refl
derived_lem t attempt_cancelled = refl
derived_lem t attempt_superseded = refl
derived_lem t decision_obsoleted = refl

module _ (e : Event) (s : State) (d : Derived e.type) where
  checked_lem : (require_causation e s).0 ≡ ok tt → Caused e s
  unfolding require_causation
  checked_lem h = elim (Option-cases (lookup e.causation_id s.applied_events)) [
    | inl missing ↦ absurd (ground (arith, derived_lem e.type d))
    | inr (x, applied) ↦ record {
      source = x;
      named = ground (arith, derived_lem e.type d);
      applied = applied;
      earlier = elim (Bool-cases (e.seq == 0)) [
        | inl first ↦ inl (ground arith)
        | inr later ↦ inr (ground (arith, derived_lem e.type d))
      ];
      cause = causes-Cause e.type x d (ground (arith, derived_lem e.type d));
    }
  ]

  project_lem :
      (p : Fields)
      → (project e p s).0 ≡ err (unsupported_event_type e.type)
      → (require_causation e s).0 ≡ ok tt
  unfolding project require_causation
  project_lem p h = ground (arith, derived_lem e.type d)

-- A derived event with a valid payload that `Apply` refuses as unsupported, and not as invalid or as
-- barred by a prepare, names an event that was applied before it and that may cause it: a
-- cancellation of the run for a cancelled movement or attempt, an approval for a superseded attempt,
-- and an approval or an event that ended the run for an obsoleted decision.
pub apply-Caused :
    (e : Event) (p : Fields) (s : State)
    → Derived e.type
    → validate_payload e ≡ ok p
    → (apply e s).0 ≡ err (unsupported_event_type e.type)
    → Caused e s
unfolding apply
apply-Caused e p s d valid h =
    let projected =
      subst (λ r. ((lift r >>= project e) s).0 ≡ err (unsupported_event_type e.type)) valid h in
    checked_lem e s d (project_lem e s d p projected)
