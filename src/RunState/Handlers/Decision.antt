-- ===== src/RunState/Handlers/Decision.antt =====
-- internal/runstate/apply.go: the decision events of `Apply`.
use partitur.Prelude.{
  String, Bool, true, false, ◌&&◌, ◌||◌, not, Option, none, some, List, [], ◌∷◌, ◌++◌, str_eq, ◌==◌,
  bool_ne, if◌then◌else◌,
}
use partitur.Dict.{lookup, insert, remove, has}
use partitur.Json.{Fields, must_object, must_string, must_array, must_bool, string_field}
use partitur.RunState.Types.{
  AttemptState, PendingDecision, HumanGateResolution, RoutedAmendment, FindingReference,
  SourceEnvelope,
}
use partitur.RunState.Event.{Event}
use partitur.RunState.Action.{
  Action, gets, some_or, ◌>>=◌, ◌>>◌, modify, raise_if, raise_unless, when, transition, invalid,
}
use partitur.RunState.Waiting.{refresh_waiting_human}
use partitur.RunState.Guards.{require_attempt, is_attempt_running, move_attempt, require_probed}
use partitur.RunState.Decode.{finding_references, contains_finding_reference}
use partitur.RunState.Handlers.Blocked.{record_blocked_decision_sources, routes_allowed}

-- `case EventAttemptBlocked`
unfoldable pub on_attempt_blocked : Event → Fields → Action (Unit {0})
on_attempt_blocked e p = do
  attempt ← require_attempt is_attempt_running e
  require_probed e
  allowed ← gets (λ s. routes_allowed s.rejected_amendments (must_array p "raised"))
  raise_unless allowed (invalid e "raised")
  modify (record_blocked_decision_sources e (must_array p "raised"))
  move_attempt e attempt AttemptState.blocked

-- `decisionBlocking`
unfoldable pub decision_blocking : Fields → Bool
decision_blocking p =
    if str_eq (must_string p "decision_type") "amendment" then must_bool p "blocking" else true

-- The comparisons of an event's envelope with a source's, in the source's order.
abbrev pub require_envelope : Event → SourceEnvelope → Action (Unit {0})
require_envelope e src = do
  raise_unless (str_eq e.run_id src.run_id) (invalid e "run does not match attempt.blocked")
  raise_unless (e.score_revision == src.score_revision)
      (invalid e "score revision does not match attempt.blocked")
  raise_unless (str_eq e.movement_id src.movement_id)
      (invalid e "movement does not match attempt.blocked")
  raise_unless (str_eq e.part_id src.part_id) (invalid e "part does not match attempt.blocked")
  raise_unless (str_eq e.attempt_id src.attempt_id)
      (invalid e "attempt does not match attempt.blocked")

-- `validateQuestionRequestSource`
unfoldable pub require_question_source : Event → Fields → Action (Unit {0})
require_question_source e p = do
  found ← gets (λ s. lookup (must_string p "decision_id") s.question_sources)
  src ← some_or found (transition e "question has no attempt.blocked source")
  require_envelope e src.envelope
  raise_unless (str_eq (must_string p "emitted_id") src.emitted_id)
      (invalid e "question request emitted id does not match attempt.blocked")
  raise_unless (str_eq (must_string p "question") src.question)
      (invalid e "question request text does not match attempt.blocked")

abbrev routed_as : Fields → Option RoutedAmendment → Bool
routed_as p none = false
routed_as p (some r) =
    str_eq r.decision_id (must_string p "decision_id")
    && str_eq r.decision_type (must_string p "decision_type")
    && not (bool_ne r.blocking (decision_blocking p))

abbrev is_amendment_type : String → Bool
is_amendment_type t = str_eq t "amendment" || str_eq t "finalization"

abbrev require_routed : Event → Fields → Action (Unit {0})
require_routed e p = do
  found ← gets (λ s. lookup (must_string p "proposal_id") s.routed_amendments)
  raise_unless (routed_as p found) (transition e "decision does not match a routed amendment")

abbrev gated : Fields → Option String → PendingDecision → PendingDecision
gated p none d = d
gated p (some gate) d = record d {
  gate_id = gate;
  subject_tree = must_string p "subject_tree";
  blocking_findings = finding_references (must_array p "blocking_findings");
}

-- The pending decision that a request describes.
unfoldable pub decision_of : Event → Fields → PendingDecision
decision_of e p = gated p (string_field p "gate_id") (record {
  id = must_string p "decision_id";
  type = must_string p "decision_type";
  blocking = decision_blocking p;
  movement_id = e.movement_id;
  attempt_id = e.attempt_id;
  score_revision = e.score_revision;
  proposal_id = must_string p "proposal_id";
  gate_id = "";
  subject_tree = "";
  blocking_findings = [];
})

-- The checks of `case EventDecisionRequested`.
unfoldable pub require_request : Event → Fields → Action (Unit {0})
require_request e p = do
  pending ← gets (λ s. has (must_string p "decision_id") s.pending_decisions)
  raise_if pending (transition e "decision is already pending")
  when (str_eq (must_string p "decision_type") "question") (require_question_source e p)
  when (is_amendment_type (must_string p "decision_type")) (require_routed e p)

-- `case EventDecisionRequested`
unfoldable pub on_decision_requested : Event → Fields → Action (Unit {0})
on_decision_requested e p = do
  require_request e p
  modify (λ s. refresh_waiting_human (record s {
    pending_decisions = insert (must_string p "decision_id") (decision_of e p) s.pending_decisions;
  }))

abbrev decision_typed : String → Option PendingDecision → Option PendingDecision
decision_typed t none = none
decision_typed t (some d) = elim (str_eq d.type t) [ true ↦ some d | false ↦ none ]

abbrev scope_tree : Fields → String
scope_tree p = must_string (must_object p "scope") "subject_tree"

abbrev all_contained : List FindingReference → List FindingReference → Bool
all_contained blocking [] = true
all_contained blocking (r ∷ rs) = contains_finding_reference blocking r && all_contained blocking rs

unfoldable pub gate_resolution : PendingDecision → Fields → HumanGateResolution
gate_resolution d p = record {
  decision_id = must_string p "decision_id";
  movement_id = d.movement_id;
  attempt_id = d.attempt_id;
  score_revision = d.score_revision;
  gate_id = must_string p "gate_id";
  scope_subject_tree = scope_tree p;
  disposition = must_string p "disposition";
  overridden_findings = finding_references (must_array p "overridden_findings");
  override_reason = must_string p "override_reason";
  reason = must_string p "reason";
}

abbrev resolve_gate : Event → Fields → PendingDecision → Action (Unit {0})
resolve_gate e p d = do
  raise_unless (str_eq d.gate_id (must_string p "gate_id") && str_eq d.subject_tree (scope_tree p))
      (invalid e "human gate resolution does not match the pending decision")
  raise_unless
      (all_contained d.blocking_findings (finding_references (must_array p "overridden_findings")))
      (invalid e "human gate override is not a pending blocker")
  modify (λ s. record s {
    resolved_human_gates = insert d.attempt_id (gate_resolution d p) s.resolved_human_gates;
  })

abbrev resolve_answer : Event → Fields → PendingDecision → Action (Unit {0})
resolve_answer e p d = modify (λ s. record s {
  resolved_decisions =
      s.resolved_decisions
      ++ record {
        decision_id = must_string p "decision_id";
        movement_id = d.movement_id;
        score_revision = d.score_revision;
        sequence = e.seq;
        kind = "answer";
        answer = must_string p "answer";
        reason = "";
      }
        ∷ [];
})

-- `case EventDecisionResolved`
unfoldable pub on_decision_resolved : Event → Fields → Action (Unit {0})
on_decision_resolved e p = do
  found ← gets (λ s. lookup (must_string p "decision_id") s.pending_decisions)
  d ←
      some_or (decision_typed (must_string p "decision_type") found)
        (transition e "matching decision is not pending")
  elim (str_eq d.type "human_gate") [ true ↦ resolve_gate e p d | false ↦ resolve_answer e p d ]
  modify (λ s.
      refresh_waiting_human
        (record s { pending_decisions = remove (must_string p "decision_id") s.pending_decisions }))
