-- ===== src/RunState/Action.antt =====
-- A handler of `Apply`: it reads and replaces the state, and may stop with an error. The source
-- returns its copy of the state beside the error too, so what was written before stays written.
use partitur.Prelude.{String, Bool, true, false, Option, none, some}
use partitur.RunState.Event.{EventType, Event}
use partitur.RunState.State.{State}

-- The errors of apply.go by the sentinel that they wrap, with the event type and the reason.
pub data Error : Type 0 where
  unsupported_event_type : EventType → Error
  invalid_event : EventType → String → Error
  illegal_transition : EventType → String → Error

pub data Result {ℓ} (A : Type ℓ) : Type ℓ where
  ok : A → Result A
  err : Error → Result A

abbrev pub Action : Type 0 → Type 0
Action A = State → Result A × State

module _ {A : Type 0} where
  abbrev pub pure : A → Action A
  pure a s = (ok a, s)

  abbrev pub raise : Error → Action A
  raise e s = (err e, s)

  abbrev pub gets : (State → A) → Action A
  gets f s = (ok (f s), s)

  abbrev pub lift : Result A → Action A
  lift r s = (r, s)

  abbrev pub some_or : Option A → Error → Action A
  some_or none e = raise e
  some_or (some a) e = pure a

infixl 5 ◌>>=◌ ◌>>◌
abbrev pub ◌>>=◌ : {A B : Type 0} → Action A → (A → Action B) → Action B
◌>>=◌ m f s = elim (m s).0 [ ok a ↦ f a (m s).1 | err e ↦ (err e, (m s).1) ]

abbrev pub ◌>>◌ : {A B : Type 0} → Action A → Action B → Action B
m >> k = m >>= λ _. k

abbrev pub modify : (State → State) → Action (Unit {0})
modify f s = (ok tt, f s)

-- `if condition { return state, … }`
abbrev pub raise_if : Bool → Error → Action (Unit {0})
raise_if c e s = elim c [ true ↦ (err e, s) | false ↦ (ok tt, s) ]

abbrev pub raise_unless : Bool → Error → Action (Unit {0})
raise_unless c e s = elim c [ true ↦ (ok tt, s) | false ↦ (err e, s) ]

abbrev pub when : Bool → Action (Unit {0}) → Action (Unit {0})
when c m s = elim c [ true ↦ m s | false ↦ (ok tt, s) ]

-- `transition(event, reason)` and `invalid(event, reason)`
abbrev pub transition : Event → String → Error
transition e reason = illegal_transition e.type reason

abbrev pub invalid : Event → String → Error
invalid e reason = invalid_event e.type reason
