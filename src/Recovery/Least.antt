-- ===== src/Recovery/Least.antt =====
-- internal/recovery/planner.go: the choices by least identifier. The order of an association list
-- stands for the order in which Go happens to go through a map.
use partitur.Prelude.{
  String, Bool, ◌||◌, Option, none, some, List, [], ◌∷◌, str_eq, str_ltb, if◌then◌else◌,
}
use Prim.Native.String.{◌++◌ as ◌⧺◌}
use partitur.Dict.{Dict, has}
use partitur.RunState.Types.{PendingDecision, RoutedAmendment}
use partitur.RunState.State.{State}
use partitur.Recovery.Types.{RevisionRestart, CompositionTerminal}

-- The body of the loop of `firstMissingRoutedRequest`, with what is selected so far.
unfoldable pub pick_routed : Dict PendingDecision → String → RoutedAmendment → String → String
pick_routed pending id routed selected =
    if has routed.decision_id pending
    then selected
    else if str_eq selected "" || str_ltb id selected
    then id
    else selected

unfoldable pub select_routed : Dict PendingDecision → Dict RoutedAmendment → String → String
select_routed pending [] selected = selected
select_routed pending ((id, routed) ∷ rs) selected =
    select_routed pending rs (pick_routed pending id routed selected)

-- `firstMissingRoutedRequest`
unfoldable pub first_missing_routed_request : State → Option String
first_missing_routed_request s =
    let selected = select_routed s.pending_decisions s.routed_amendments "" in
    if str_eq selected "" then none else some selected

abbrev no_restart : RevisionRestart
no_restart = record { movement_id = ""; attempt_id = ""; approval_event_id = ""; performer = "" }

abbrev incomplete_restart : RevisionRestart → Bool
incomplete_restart r =
    str_eq r.movement_id ""
    || (str_eq r.attempt_id "" || (str_eq r.approval_event_id "" || str_eq r.performer ""))

unfoldable pub select_restart : List RevisionRestart → RevisionRestart → RevisionRestart
select_restart [] selected = selected
select_restart (r ∷ rs) selected = select_restart rs (
    if incomplete_restart r
    then selected
    else if str_eq selected.movement_id "" || str_ltb r.movement_id selected.movement_id
    then r
    else selected)

-- `firstRevisionRestart`
unfoldable pub first_revision_restart : List RevisionRestart → Option RevisionRestart
first_revision_restart rs =
    let selected = select_restart rs no_restart in
    if str_eq selected.movement_id "" then none else some selected

abbrev no_terminal : CompositionTerminal
no_terminal = record {
  scope = "";
  target_id = "";
  reason = "";
  evidence_event_id = "";
  score_revision = 0;
}

-- `compositionKey`
abbrev pub composition_key : CompositionTerminal → String
composition_key t = t.scope ⧺ ("\0" ⧺ (t.target_id ⧺ ("\0" ⧺ t.reason)))

abbrev incomplete_terminal : CompositionTerminal → Bool
incomplete_terminal t = str_eq t.scope "" || (str_eq t.target_id "" || str_eq t.reason "")

unfoldable pub select_terminal :
    List CompositionTerminal → CompositionTerminal → CompositionTerminal
select_terminal [] selected = selected
select_terminal (t ∷ ts) selected = select_terminal ts (
    if incomplete_terminal t
    then selected
    else if str_eq selected.target_id "" || str_ltb (composition_key t) (composition_key selected)
    then t
    else selected)

-- `firstCompositionTerminal`
unfoldable pub first_composition_terminal : List CompositionTerminal → Option CompositionTerminal
first_composition_terminal ts =
    let selected = select_terminal ts no_terminal in
    if str_eq selected.target_id "" then none else some selected
