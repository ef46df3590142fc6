-- ===== src/Recovery/Decision.antt =====
-- internal/recovery/planner.go: `Action`, `Decision` and the ways that the planner builds them.
use partitur.Prelude.{
  String, Bool, true, false, ◌&&◌, not, Option, none, some, List, [], ◌∷◌, ◌++◌, str_eq, is_some,
}
use partitur.RunState.Types.{Disposition, FindingReference}
use partitur.Recovery.Names.{
  CaseId, case_id, HaltReason, ActionKind, action_kind, ActionStep, Continuation,
}
use partitur.Recovery.Types.{
  BlockedProposalRoute, RevisionRestart, CompositionTerminal, PendingSuccessor,
}

pub record Action : Type 0 where
  pub kind : ActionKind
  pub replan : Bool
  pub blocked_proposal_route : Option BlockedProposalRoute
  pub routed_proposal_id : String
  pub revision_restart : Option RevisionRestart
  pub composition_terminal : Option CompositionTerminal
  pub pending_successor : Option PendingSuccessor
  pub attempt_id : String
  pub question_decision_id : String
  pub criterion_id : String
  pub movement_id : String
  pub subject_tree : String
  pub review_outcome : String
  pub blocking_findings : List FindingReference
  pub failure_kind : String
  pub failure_reason : String
  pub recorded_disposition : Option Disposition
  pub candidate_carrying : Bool
  pub steps : List ActionStep
  pub continuation : Option Continuation

-- `none` is a nil action, and an empty halt reason.
pub record Decision : Type 0 where
  pub case : CaseId
  pub action : Option Action
  pub halt : Option HaltReason

-- `Decision.Valid`
unfoldable pub valid : Decision → Bool
valid d = not (str_eq (case_id d.case) "") && elim d.action [
  | some a ↦ not (str_eq (action_kind a.kind) "") && not (is_some d.halt)
  | none ↦ is_some d.halt
]

-- The action of `action`, whose other fields are zero.
abbrev pub simple : ActionKind → Bool → Action
simple kind replan = record {
  kind = kind;
  replan = replan;
  blocked_proposal_route = none;
  routed_proposal_id = "";
  revision_restart = none;
  composition_terminal = none;
  pending_successor = none;
  attempt_id = "";
  question_decision_id = "";
  criterion_id = "";
  movement_id = "";
  subject_tree = "";
  review_outcome = "";
  blocking_findings = [];
  failure_kind = "";
  failure_reason = "";
  recorded_disposition = none;
  candidate_carrying = false;
  steps = [];
  continuation = none;
}

-- An action that is decided on, whatever its fields.
abbrev pub decide : CaseId → Action → Decision
decide c a = record { case = c; action = some a; halt = none }

-- `action`
abbrev pub act : CaseId → ActionKind → Bool → Decision
act c kind replan = decide c (simple kind replan)

-- `halt`
abbrev pub stop : CaseId → HaltReason → Decision
stop c reason = record { case = c; action = none; halt = some reason }

-- `recoveryFailureAction`
abbrev pub recovery_failure :
    CaseId → ActionKind → String → String → String → List ActionStep → Decision
recovery_failure c kind attempt_id failure_kind reason steps = decide c (record (simple kind true) {
  attempt_id = attempt_id;
  failure_kind = failure_kind;
  failure_reason = reason;
  steps = steps;
})

-- `acceptanceFailureAction`
abbrev pub acceptance_failure : CaseId → String → String → String → Decision
acceptance_failure c attempt_id criterion_id reason =
    decide c (record (simple ActionKind.append_acceptance_failure true) {
      attempt_id = attempt_id;
      criterion_id = criterion_id;
      failure_reason = reason;
      steps = ActionStep.classify_acceptance_failure ∷ [];
    })

-- `verifyAcceptanceSubject`
abbrev pub verify_acceptance_subject : CaseId → ActionKind → String → List ActionStep → Decision
verify_acceptance_subject c kind attempt_id prefix = decide c (record (simple kind true) {
  attempt_id = attempt_id;
  steps = prefix ++ ActionStep.verify_acceptance_subject ∷ [];
})

-- `proceedScheduler`
abbrev pub proceed_scheduler : Decision
proceed_scheduler =
    decide CaseId.continue
      (record (simple ActionKind.proceed_scheduler false) { continuation = some Continuation.c4 })
