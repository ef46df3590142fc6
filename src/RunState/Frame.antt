-- ===== src/RunState/Frame.antt =====
-- What the parts of the handlers leave alone: the checks leave the whole state, and each loop and
-- helper all fields but those that it is about.
use partitur.Prelude.{◌≡◌, arith, String, List, [], ◌∷◌, refl, ap, ◌∙◌, some, none}
use partitur.Dict.{Dict}
use partitur.Json.{Fields, Value}
use partitur.RunState.Types.{MovementState, MovementSeed, PendingPrepare}
use partitur.RunState.Event.{Event}
use partitur.RunState.State.{State}
use partitur.RunState.Action.{Action, Result, ok, err, ◌>>=◌}
use partitur.RunState.Waiting.{refresh_waiting_human, close_all_pending_decisions}
use partitur.RunState.Handlers.Movement.{require_succeeded, require_composition_source}
use partitur.RunState.Handlers.Attempt.{require_selection, require_artifact, require_change_set}
use partitur.RunState.Handlers.Amendment.{require_route_source, require_routable}
use partitur.RunState.Handlers.Run.{require_cancellation}
use partitur.RunState.Handlers.Decision.{require_question_source, require_request}
use partitur.RunState.Handlers.Blocked.{record_source, record_blocked_decision_sources}
use partitur.RunState.Handlers.Prepare.{
  require_preparable, require_prepared, require_head, supersede, close_approval, take_head,
}
use partitur.RunState.Handlers.Head.{reconcile_from, reconciled_head}

abbrev bind_result : {A B : Type 0} → (A → Action B) → State → Result A → Result B × State
bind_result f t x = elim x [ ok a ↦ f a t | err y ↦ (err y, t) ]

-- After an action that leaves the state alone, what holds of the state holds of the rest's.
pub bind-keeps :
    {A B : Type 0} (m : Action A) (f : A → Action B) (s : State) (R : State → Type 0)
    → (m s).1 ≡ s
    → R s
    → ((a : A) → (m s).0 ≡ ok a → R (f a s).1)
    → R ((m >>= f) s).1
bind-keeps {A} {B} m f s R same r k = go (m s).0 refl
  where
    go : (x : Result A) → (m s).0 ≡ x → R (bind_result f (m s).1 x).1
    go (ok a) h = rw same (k a h)
    go (err y) h = rw same r

-- An action that leaves the state alone, and an accepted rest on the value that it gave.
pub record Bound {A B : Type 0} (m : Action A) (f : A → Action B) (s : State) (b : B) : Type 0 where
  pub value : A
  pub first : (m s).0 ≡ ok value
  pub rest : (f value s).0 ≡ ok b
  pub state : ((m >>= f) s).1 ≡ (f value s).1

pub bind-Bound :
    {A B : Type 0} (m : Action A) (f : A → Action B) (s : State) (b : B)
    → (m s).1 ≡ s
    → ((m >>= f) s).0 ≡ ok b
    → Bound m f s b
bind-Bound {A} {B} m f s b same h = go (m s).0 refl h
  where
    go : (x : Result A) → (m s).0 ≡ x → (bind_result f (m s).1 x).0 ≡ ok b → Bound m f s b
    go (ok a) first h = record {
      value = a;
      first = first;
      rest = rw⁻¹ same h;
      state = ap (λ r. (bind_result f (m s).1 r).1) first ∙ ap (λ t. (f a t).1) same;
    }
    go (err y) first h = absurd (ground arith)

module _ (e : Event) (p : Fields) (s : State) where
  pub state-require_prepared : (require_prepared e p s).1 ≡ s
  unfolding require_prepared
  state-require_prepared = ground arith

  pub state-require_head : (x : PendingPrepare) → (require_head e p x s).1 ≡ s
  unfolding require_head
  state-require_head x = ground arith

  pub state-require_cancellation : (require_cancellation e p s).1 ≡ s
  unfolding require_cancellation
  state-require_cancellation = ground arith

  pub state-require_succeeded : (require_succeeded e p s).1 ≡ s
  unfolding require_succeeded
  state-require_succeeded = ground arith

  pub state-require_composition_source : (require_composition_source e p s).1 ≡ s
  unfolding require_composition_source
  state-require_composition_source = ground arith

pub state-require_selection : (e : Event) (s : State) → (require_selection e s).1 ≡ s
unfolding require_selection
state-require_selection e s = ground arith

pub state-require_route_source :
    (e : Event) (p : Fields) (s : State) → (require_route_source e p s).1 ≡ s
unfolding require_route_source
state-require_route_source e p s = ground arith

pub state-require_routable : (e : Event) (p : Fields) (s : State) → (require_routable e p s).1 ≡ s
unfolding require_routable
state-require_routable e p s = grind (arith, state-require_route_source)

pub state-require_preparable :
    (e : Event) (p : Fields) (s : State) → (require_preparable e p s).1 ≡ s
unfolding require_preparable
state-require_preparable e p s = ground arith

pub state-require_artifact : (e : Event) (p : Fields) (s : State) → (require_artifact e p s).1 ≡ s
unfolding require_artifact
state-require_artifact e p s = ground arith

pub state-require_change_set : (e : Event) (s : State) → (require_change_set e s).1 ≡ s
unfolding require_change_set
state-require_change_set e s = ground arith

state-require_question_source :
    (e : Event) (p : Fields) (s : State) → (require_question_source e p s).1 ≡ s
unfolding require_question_source
state-require_question_source e p s = ground arith

pub state-require_request : (e : Event) (p : Fields) (s : State) → (require_request e p s).1 ≡ s
unfolding require_request
state-require_request e p s = grind (arith, state-require_question_source)

pub refresh_waiting_human_lem :
    (s : State)
    → refresh_waiting_human s ≡ record s {
      run = (refresh_waiting_human s).run;
      movements = (refresh_waiting_human s).movements;
    }
unfolding refresh_waiting_human
refresh_waiting_human_lem s = ground arith

pub close_all_pending_decisions_lem :
    (s : State)
    → close_all_pending_decisions s ≡ record s {
      run = (close_all_pending_decisions s).run;
      movements = (close_all_pending_decisions s).movements;
      pending_decisions = [];
    }
unfolding close_all_pending_decisions refresh_waiting_human
close_all_pending_decisions_lem s = ground arith

pub supersede_lem :
    (e : Event) (ids : List String) (s : State)
    → (supersede e ids s).1 ≡ record s { attempts = (supersede e ids s).1.attempts }
unfolding supersede
supersede_lem e [] s = refl
supersede_lem e (id ∷ ids) s = grind (arith, supersede_lem e ids)

reconcile_from_lem :
    (old : Dict MovementState) (head : List MovementSeed) (s : State)
    → reconcile_from old head s ≡ record s {
      movements = (reconcile_from old head s).movements;
      movement_order = (reconcile_from old head s).movement_order;
      repo_write_movements = (reconcile_from old head s).repo_write_movements;
      dependency_movements = (reconcile_from old head s).dependency_movements;
      final_movements = (reconcile_from old head s).final_movements;
    }
unfolding reconcile_from
reconcile_from_lem old [] s = refl
reconcile_from_lem old (m ∷ ms) s = grind (arith, reconcile_from_lem old ms)

pub reconciled_head_lem :
    (head : List MovementSeed) (s t : State)
    → reconciled_head head s ≡ some t
    → t ≡ record s {
      movements = t.movements;
      movement_order = t.movement_order;
      repo_write_movements = t.repo_write_movements;
      dependency_movements = t.dependency_movements;
      final_movements = t.final_movements;
    }
unfolding reconciled_head
reconciled_head_lem head s t h = grind (arith, reconcile_from_lem)

record_source_lem :
    (e : Event) (d : Fields) (s : State)
    → record_source e d s ≡ record s {
      question_sources = (record_source e d s).question_sources;
      proposal_route_sources = (record_source e d s).proposal_route_sources;
    }
unfolding record_source
record_source_lem e d s = ground arith

pub record_blocked_decision_sources_lem :
    (e : Event) (vs : List Value) (s : State)
    → record_blocked_decision_sources e vs s ≡ record s {
      question_sources = (record_blocked_decision_sources e vs s).question_sources;
      proposal_route_sources = (record_blocked_decision_sources e vs s).proposal_route_sources;
    }
unfolding record_blocked_decision_sources
record_blocked_decision_sources_lem e [] s = refl
record_blocked_decision_sources_lem e (v ∷ vs) s =
    grind (arith, record_source_lem, record_blocked_decision_sources_lem e vs)

-- The state of the approved head is the old one but for its movements.
pub require_head_lem :
    (e : Event) (p : Fields) (x : PendingPrepare) (s t : State)
    → (require_head e p x s).0 ≡ ok t
    → t ≡ record s {
      movements = t.movements;
      movement_order = t.movement_order;
      repo_write_movements = t.repo_write_movements;
      dependency_movements = t.dependency_movements;
      final_movements = t.final_movements;
    }
unfolding require_head
require_head_lem e p x s t h = grind (arith, reconciled_head_lem)

pub take_head_lem :
    (e : Event) (p : Fields) (s : State)
    → take_head e p s ≡ record s {
      movements = (take_head e p s).movements;
      score_head = (take_head e p s).score_head;
      resolved_decisions = [];
    }
unfolding take_head
take_head_lem e p s = ground arith

pub close_approval_lem :
    (p : Fields) (s : State)
    → close_approval p s ≡ record s {
      run = (close_approval p s).run;
      movements = (close_approval p s).movements;
      authority = (close_approval p s).authority;
      pending_prepare = none;
      pending_decisions = [];
      routed_amendments = (close_approval p s).routed_amendments;
    }
unfolding close_approval
close_approval_lem p s = grind (arith, close_all_pending_decisions_lem)
