-- ===== src/RunState/Handlers/Blocked.antt =====
-- internal/runstate/apply.go: what a blocked attempt raises, and which routes it may raise.
use partitur.Prelude.{
  String, Bool, true, false, ◌&&◌, not, Option, none, some, List, [], ◌∷◌, str_eq, is_some, bool_ne,
  if◌then◌else◌,
}
use partitur.Dict.{Dict, lookup, insert}
use partitur.Json.{
  Value, Fields, str, bool, field, end, get, has_field, as_object, must_string, must_bool,
}
use partitur.RunState.Types.{SourceEnvelope}
use partitur.RunState.Event.{Event}
use partitur.RunState.State.{State}
use partitur.RunState.Decode.{object_of}

abbrev envelope_of : Event → SourceEnvelope
envelope_of e = record {
  run_id = e.run_id;
  score_revision = e.score_revision;
  movement_id = e.movement_id;
  part_id = e.part_id;
  attempt_id = e.attempt_id;
}

-- `object[name] = value`
unfoldable pub put_field : String → Value → Fields → Fields
put_field name w end = field name w end
put_field name w (field k v fs) =
    if str_eq k name then field k w fs else field k v (put_field name w fs)

-- The payload that `recordBlockedDecisionSources` builds from a route.
unfoldable pub route_payload : Fields → Fields → Fields
unfolding put_field
route_payload decision route = put_field "blocking" (bool true) (
    put_field "decision_id" (str (must_string decision "decision_id")) (
      put_field "emitted_id" (str (must_string decision "emitted_id"))
        (put_field "proposal_id" (str (must_string decision "proposal_id")) route)))

abbrev add_question : Event → Fields → State → State
add_question e d s = record s {
  question_sources =
      insert (must_string d "decision_id")
        (record {
          envelope = envelope_of e;
          emitted_id = must_string d "emitted_id";
          question = must_string d "question";
        })
        s.question_sources;
}

abbrev add_route : Event → Fields → Option Fields → State → State
add_route e d none s = s
add_route e d (some route) s = record s {
  proposal_route_sources =
      insert (must_string d "proposal_id")
        (record { envelope = envelope_of e; payload = route_payload d route })
        s.proposal_route_sources;
}

abbrev object_field : Fields → String → Option Fields
object_field p name = elim (get p name) [ none ↦ none | some v ↦ as_object v ]

-- The body of the loop of `recordBlockedDecisionSources`.
unfoldable pub record_source : Event → Fields → State → State
record_source e d s =
    if str_eq (must_string d "kind") "question"
    then add_question e d s
    else if str_eq (must_string d "kind") "proposal"
    then add_route e d (object_field d "route") s
    else s

-- `recordBlockedDecisionSources`
unfoldable pub record_blocked_decision_sources : Event → List Value → State → State
unfolding record_source
record_blocked_decision_sources e [] s = s
record_blocked_decision_sources e (v ∷ vs) s =
    record_blocked_decision_sources e vs (record_source e (object_of v) s)

abbrev binds_other : String → Option String → Bool
binds_other proposal_id none = false
binds_other proposal_id (some other) = not (str_eq other proposal_id)

-- The body of the loop of `validateBlockedProposalRoutes`.
unfoldable pub route_allowed : Dict String → Fields → Bool
route_allowed rejected_amendments d =
    let rejected = lookup (must_string d "decision_id") rejected_amendments in
    let routed = has_field d "route" in
    if not (str_eq (must_string d "kind") "proposal")
    then true
    else if binds_other (must_string d "proposal_id") rejected
    then false
    else if not (must_bool d "blocking")
    then not routed
    else bool_ne routed (is_some rejected)

-- `validateBlockedProposalRoutes`
unfoldable pub routes_allowed : Dict String → List Value → Bool
unfolding route_allowed
routes_allowed rejected [] = true
routes_allowed rejected (v ∷ vs) =
    route_allowed rejected (object_of v) && routes_allowed rejected vs
