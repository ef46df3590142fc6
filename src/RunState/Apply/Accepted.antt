-- ===== src/RunState/Apply/Accepted.antt =====
-- What an accepted event has passed, and where its state comes from.
use partitur.Prelude.{◌≡◌, refl, Bool, true, false, arith, is_some, ◌⊎◌, inl, inr, subst, sym}
use partitur.Json.{Fields}
use partitur.RunState.Types.{terminal}
use partitur.RunState.Event.{Event, is_derived_event, prepare_pending_mutation}
use partitur.RunState.State.{State}
use partitur.RunState.Action.{Result, ok, err, lift, ◌>>=◌}
use partitur.RunState.Payload.Validate.{validate_payload}
use partitur.RunState.Apply.{dispatch, require_causation, note_applied, project, apply}

-- Its handler has accepted it, and `Apply` adds the note of the event.
pub record Accepted (e : Event) (s : State) : Type 0 where
  pub payload : Fields
  pub validated : validate_payload e ≡ ok payload
  pub barrier : (is_some s.pending_prepare ≡ false) ⊎ (prepare_pending_mutation e.type ≡ true)
  pub handled : (dispatch e.type e payload s).0 ≡ ok tt
  pub result : (apply e s).1 ≡ note_applied e (terminal s.run) (dispatch e.type e payload s).1

-- The note changes nothing else.
pub note_applied_lem :
    (e : Event) (b : Bool) (s : State)
    → note_applied e b s ≡ record s { applied_events = (note_applied e b s).applied_events }
unfolding note_applied
note_applied_lem e b s = ground arith

module _ (e : Event) (s : State) where
  pub state-require_causation : (require_causation e s).1 ≡ s
  unfolding require_causation
  state-require_causation = ground arith

  module _ (p : Fields) (h : (project e p s).0 ≡ ok tt) where
    project_handled : (dispatch e.type e p s).0 ≡ ok tt
    unfolding project
    project_handled = ground (arith, state-require_causation)

    project_barrier : (is_some s.pending_prepare ≡ false) ⊎ (prepare_pending_mutation e.type ≡ true)
    unfolding project
    project_barrier = ground (arith, state-require_causation)

    project_result : (project e p s).1 ≡ note_applied e (terminal s.run) (dispatch e.type e p s).1
    unfolding project
    project_result = ground (arith, state-require_causation)

  -- An accepted event was valid, passed the barrier of a pending prepare, and was accepted by its
  -- handler in the state that it found.
  pub apply-Accepted : (apply e s).0 ≡ ok tt → Accepted e s
  unfolding apply
  apply-Accepted h = go (validate_payload e) refl h
    where
      go :
          (r : Result Fields)
          → validate_payload e ≡ r
          → ((lift r >>= project e) s).0 ≡ ok tt
          → Accepted e s
      go (err x) valid h = absurd (ground arith)
      go (ok p) valid h = record {
        payload = p;
        validated = valid;
        barrier = project_barrier p h;
        handled = project_handled p h;
        result = rw valid (project_result p h);
      }

-- A valid event that is not derived, with no prepare pending, is accepted if its handler does.
project_accepts :
    (e : Event) (p : Fields) (s : State)
    → is_derived_event e.type ≡ false
    → is_some s.pending_prepare ≡ false
    → (dispatch e.type e p s).0 ≡ ok tt
    → (project e p s).0 ≡ ok tt
unfolding project require_causation
project_accepts e p s original free handled = ground arith

pub apply_accepts :
    (e : Event) (p : Fields) (s : State)
    → validate_payload e ≡ ok p
    → is_derived_event e.type ≡ false
    → is_some s.pending_prepare ≡ false
    → (dispatch e.type e p s).0 ≡ ok tt
    → (apply e s).0 ≡ ok tt
unfolding apply
apply_accepts e p s valid original free handled =
    rw valid (project_accepts e p s original free handled)

-- Where the state comes from that is returned, of an accepted or a refused event: the one that
-- was given, the handler's, or the handler's with the note of the event.
pub data Source (e : Event) (s : State) (t : State) : Type 0 where
  given : t ≡ s → Source e s t
  handler : (p : Fields) → t ≡ (dispatch e.type e p s).1 → Source e s t
  noted :
      (p : Fields) → t ≡ note_applied e (terminal s.run) (dispatch e.type e p s).1 → Source e s t

module _ (e : Event) (s : State) where
  project_source :
      (p : Fields)
      → ((project e p s).1 ≡ s)
        ⊎ (((project e p s).1 ≡ (dispatch e.type e p s).1)
            ⊎ ((project e p s).1 ≡ note_applied e (terminal s.run) (dispatch e.type e p s).1))
  unfolding project
  project_source p = ground (arith, state-require_causation e s)

  project-Source : (p : Fields) → Source e s (project e p s).1
  project-Source p = elim (project_source p) [
    | inl same ↦ given same
    | inr (inl h) ↦ handler p h
    | inr (inr h) ↦ noted p h
  ]

  pub apply-Source : Source e s (apply e s).1
  unfolding apply
  apply-Source = go (validate_payload e)
    where
      go : (r : Result Fields) → Source e s ((lift r >>= project e) s).1
      go (ok p) = project-Source p
      go (err x) = given refl

  -- What holds of the state, and that handlers and the note keep, holds of the returned state.
  pub apply-keeps :
      (R : State → Type 0)
      → R s
      → ((p : Fields) → R (dispatch e.type e p s).1)
      → ((b : Bool) (t : State) → R t → R (note_applied e b t))
      → R (apply e s).1
  apply-keeps R old handled note = elim apply-Source [
    | given h ↦ subst R (sym h) old
    | handler p h ↦ subst R (sym h) (handled p)
    | noted p h ↦ subst R (sym h) (note (terminal s.run) (dispatch e.type e p s).1 (handled p))
  ]
