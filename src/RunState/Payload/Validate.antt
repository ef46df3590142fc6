-- ===== src/RunState/Payload/Validate.antt =====
-- internal/runstate/apply.go: `validatePayload` and `ValidateEvent`.
use partitur.Prelude.{String, Bool, true, false, ◌&&◌, Option, none, some, List}
use partitur.Json.{Fields, as_object}
use partitur.RunState.Decode.{fields}
use partitur.RunState.Event.{Event, EventType, is_registry_event}
use partitur.RunState.Action.{Result, ok, err, Error, unsupported_event_type, invalid}
use partitur.RunState.Payload.Names.{payload_fields}
use partitur.RunState.Payload.Types.{payload_typed}
use partitur.RunState.Payload.Nested.{payload_nested_valid}
use partitur.RunState.Payload.Values.{payload_values_valid}

-- The four checks of a payload whose field names are known.
unfoldable pub payload_valid : EventType → Fields → List String × List String → Bool
unfolding payload_typed payload_nested_valid payload_values_valid
payload_valid t p (required, optional) =
    fields p required optional
    && payload_typed t p
    && payload_nested_valid t p
    && payload_values_valid t p

abbrev pub unknown_type : Event → Error
unknown_type e = elim (is_registry_event e.type) [
  | true ↦ unsupported_event_type e.type
  | false ↦ invalid e "event type is not in the registry"
]

abbrev checked : Event → Fields → Option (List String × List String) → Result Fields
checked e p none = err (unknown_type e)
checked e p (some known) = elim (payload_valid e.type p known) [
  | true ↦ ok p
  | false ↦ err (invalid e "payload")
]

abbrev as_payload : Event → Option Fields → Result Fields
as_payload e none = err (invalid e "payload must be an object")
as_payload e (some p) = checked e p (payload_fields e.type)

-- `validatePayload`
unfoldable pub validate_payload : Event → Result Fields
validate_payload e = elim e.payload [
  | none ↦ err (invalid e "payload")
  | some v ↦ as_payload e (as_object v)
]
