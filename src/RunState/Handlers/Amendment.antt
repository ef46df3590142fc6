-- ===== src/RunState/Handlers/Amendment.antt =====
-- internal/runstate/apply.go: the amendment events of `Apply` before an approval is prepared.
use partitur.Prelude.{
  String, true, false, ◌&&◌, ◌||◌, not, Option, none, some, [], ◌∷◌, ◌++◌, str_eq, ◌==◌, is_some,
}
use partitur.Dict.{lookup, insert, remove, has}
use partitur.Json.{Fields, must_string, must_bool, must_uint, string_field, value_eq, obj}
use partitur.RunState.Types.{ResolvedDecision, RoutedAmendment, terminal}
use partitur.RunState.Event.{Event}
use partitur.RunState.State.{State}
use partitur.RunState.Action.{
  Action, gets, some_or, ◌>>=◌, ◌>>◌, modify, raise_if, raise_unless, when, transition, invalid,
}
use partitur.RunState.Waiting.{is_not_started, refresh_waiting_human}
use partitur.RunState.Handlers.Decision.{require_envelope}

-- The list `ResolvedDecisions` with a rejection at its end.
unfoldable pub rejection : Event → String → String → ResolvedDecision
rejection e decision_id reason = record {
  decision_id = decision_id;
  movement_id = e.movement_id;
  score_revision = e.score_revision;
  sequence = e.seq;
  kind = "amendment_rejected";
  answer = "";
  reason = reason;
}

abbrev reject_decision : Event → Fields → Option String → State → State
reject_decision e p none s = s
reject_decision e p (some decision_id) s = record s {
  resolved_decisions =
      s.resolved_decisions ++ rejection e decision_id (must_string p "reason") ∷ [];
  pending_decisions = remove decision_id s.pending_decisions;
  rejected_amendments = insert decision_id (must_string p "proposal_id") s.rejected_amendments;
}

-- `case EventAmendmentRejected`
unfoldable pub on_amendment_rejected : Event → Fields → Action (Unit {0})
on_amendment_rejected e p = do
  modify (reject_decision e p (string_field p "decision_id"))
  modify (λ s.
      refresh_waiting_human
        (record s { routed_amendments = remove (must_string p "proposal_id") s.routed_amendments }))

-- `validateBlockedProposalRouteSource`
unfoldable pub require_route_source : Event → Fields → Action (Unit {0})
require_route_source e p = do
  found ← gets (λ s. lookup (must_string p "proposal_id") s.proposal_route_sources)
  src ← some_or found (transition e "blocking adapter proposal has no attempt.blocked source")
  require_envelope e src.envelope
  raise_unless (value_eq (obj p) (obj src.payload))
      (invalid e "blocking proposal route payload does not match attempt.blocked")

-- The checks of `case EventAmendmentRoutedHuman`.
unfoldable pub require_routable : Event → Fields → Action (Unit {0})
require_routable e p = do
  run ← gets (λ s. s.run)
  raise_if (is_not_started run || terminal run) (transition e "run is not nonterminal")
  requested ← gets (λ s. s.cancel_requested)
  head ← gets (λ s. s.score_head)
  raise_if
      (requested
        || not (head.revision == must_uint p "base_revision")
        || not (str_eq head.semantic_hash (must_string p "base_hash")))
      (transition e "amendment is not admissible at the current head")
  routed ← gets (λ s. has (must_string p "proposal_id") s.routed_amendments)
  raise_if routed (transition e "proposal is already routed")
  when (is_some (string_field p "emitted_id") && must_bool p "blocking") (require_route_source e p)

-- `case EventAmendmentRoutedHuman`
unfoldable pub on_amendment_routed_human : Event → Fields → Action (Unit {0})
on_amendment_routed_human e p = do
  require_routable e p
  modify (λ s. record s {
    routed_amendments =
        insert (must_string p "proposal_id")
          (record {
            proposal_id = must_string p "proposal_id";
            decision_id = must_string p "decision_id";
            decision_type = must_string p "decision_type";
            blocking = must_bool p "blocking";
            base_revision = must_uint p "base_revision";
            base_hash = must_string p "base_hash";
            classifier_version = must_uint p "classifier_version";
          })
          s.routed_amendments;
  })

abbrev routed_decision : String → Option RoutedAmendment → Option RoutedAmendment
routed_decision id none = none
routed_decision id (some r) = elim (str_eq r.decision_id id) [ true ↦ some r | false ↦ none ]

-- `case EventAmendmentHumanRejected`
unfoldable pub on_amendment_human_rejected : Event → Fields → Action (Unit {0})
on_amendment_human_rejected e p = do
  found ← gets (λ s. lookup (must_string p "proposal_id") s.routed_amendments)
  routed ←
      some_or (routed_decision (must_string p "decision_id") found)
        (transition e "matching proposal is not routed")
  raise_unless
      (routed.base_revision == must_uint p "base_revision"
        && str_eq routed.base_hash (must_string p "base_hash")
        && routed.classifier_version == must_uint p "classifier_version")
      (invalid e "rejection binding does not match routed amendment")
  modify (λ s. refresh_waiting_human (record s {
    routed_amendments = remove (must_string p "proposal_id") s.routed_amendments;
    pending_decisions = remove routed.decision_id s.pending_decisions;
    resolved_decisions =
        s.resolved_decisions ++ rejection e routed.decision_id "human_rejected" ∷ [];
  }))
