-- ===== src/Recovery/Evaluated.antt =====
-- internal/recovery/planner.go: what the acceptance's table asks to record, beside what
-- internal/runstate/apply.go accepts.
use partitur.Prelude.{
  ◌≡◌, refl, arith, String, Bool, true, false, ◌&&◌, ◌||◌, not, some, List, [], ◌∷◌, str_eq,
  is_empty, sym, subst, inl, inr, ◌∙◌, Option-cases,
}
use partitur.Dict.{lookup}
use partitur.Json.{Fields}
use partitur.RunState.Types.{Acceptance, Attempt, AttemptState}
use partitur.RunState.Handlers.Attempt.{on_attempt_completed}
use partitur.RunState.Event.{Event}
use partitur.RunState.Action.{ok}
use partitur.RunState.Outcomes.{all_passed}
use partitur.Recovery.Names.{ActionKind}
use partitur.Recovery.Types.{Input, AttemptRecovery, SubjectVerification, GateRecovery}
use partitur.Recovery.Decision.{Action}
use partitur.Recovery.Facts.{current_head_attempt, passed_among, all_criteria_passed}
use partitur.Recovery.Attempt.{realize_recorded_disposition}
use partitur.Recovery.Acceptance.{
  gate_of, by_subject, plan_evaluated_acceptance, plan_unjournaled_launch, plan_criteria,
  plan_of_acceptance, plan_acceptance,
}

-- The planner and the projection agree on when criteria have passed.
passed_among_lem :
    (a : Acceptance) (ids : List String) → passed_among a ids ≡ all_passed a.criteria ids
unfolding passed_among all_passed
passed_among_lem a [] = refl
passed_among_lem a (id ∷ ids) = ground (arith, passed_among_lem a ids)

all_criteria_passed_lem :
    (a : Acceptance)
    → all_criteria_passed a ≡ true
    → all_passed a.criteria a.planned_criterion_ids ≡ true
unfolding all_passed
all_criteria_passed_lem a h =
    elim a.planned_criterion_ids
        as (λ ids. (is_empty ids || passed_among a ids) ≡ true → all_passed a.criteria ids ≡ true) [
          | [] ↦ λ _. refl
          | id ∷ ids ↦ λ e. sym (passed_among_lem a (id ∷ ids)) ∙ e
        ]
      h

abbrev is_matched : SubjectVerification → Bool
is_matched SubjectVerification.matched = true
is_matched _ = false

-- The gate, if there is one, was requested and resolved by an approval.
abbrev pub gate_open : GateRecovery → Bool
gate_open g = not g.required || (g.requested && (g.resolved && g.approved))

-- The acceptance of the head's attempt that the decision is about, with what was seen of it, and
-- something that holds of it.
pub record Subject (R : Acceptance → Type 0) (i : Input) (a : Action) : Type 0 where
  pub attempt : AttemptRecovery
  pub current : current_head_attempt i.projection ≡ some attempt
  pub own : a.attempt_id ≡ attempt.attempt_id
  pub acceptance : Acceptance
  pub recorded : lookup a.attempt_id i.projection.state.acceptances ≡ some acceptance
  pub started : acceptance.started ≡ true
  pub matched : is_matched i.observations.acceptance_subject ≡ true
  pub tree : a.subject_tree ≡ acceptance.subject_tree
  pub evidence : R acceptance

module _ (i : Input) (x : AttemptRecovery) (acc : Acceptance) (a : Action) where
  of_evaluation :
      (plan_of_acceptance i x acc).action ≡ some a
      → a.kind ≡ ActionKind.append_evaluation_completed
      → (is_matched i.observations.acceptance_subject ≡ true)
        × ((all_criteria_passed acc ≡ true)
            × ((a.attempt_id ≡ x.attempt_id) × (a.subject_tree ≡ acc.subject_tree)))
  unfolding plan_of_acceptance plan_evaluated_acceptance plan_criteria by_subject
      plan_unjournaled_launch realize_recorded_disposition
  of_evaluation d k = ground arith

  of_success :
      (plan_of_acceptance i x acc).action ≡ some a
      → a.kind ≡ ActionKind.append_acceptance_success
      → (is_matched i.observations.acceptance_subject ≡ true)
        × ((acc.evaluation_completed && gate_open (gate_of i.projection.acceptance) ≡ true)
            × ((a.attempt_id ≡ x.attempt_id) × (a.subject_tree ≡ acc.subject_tree)))
  unfolding plan_of_acceptance plan_evaluated_acceptance plan_criteria by_subject
      plan_unjournaled_launch realize_recorded_disposition
  of_success d k = ground arith

-- The decision of `PlanAcceptance` that is not to go on is about the head's attempt.
of_acceptance :
    (i : Input) (a : Action)
    → (plan_acceptance i).action ≡ some a
    → ¬ (a.kind ≡ ActionKind.proceed_scheduler)
    → (x : AttemptRecovery) × ((current_head_attempt i.projection ≡ some x)
        × ((acc : Acceptance) × ((lookup x.attempt_id i.projection.state.acceptances ≡ some acc)
              × ((acc.started ≡ true) × ((plan_of_acceptance i x acc).action ≡ some a)))))
unfolding plan_acceptance
of_acceptance i a d k = elim (Option-cases (current_head_attempt i.projection)) [
  | inl nothing ↦ absurd (ground arith)
  | inr (x, current) ↦ elim (Option-cases (lookup x.attempt_id i.projection.state.acceptances)) [
    | inl nothing ↦ absurd (ground arith)
    | inr (acc, recorded) ↦ (x, (current, (acc, (recorded, (ground arith, ground arith)))))
  ]
]

module _ (i : Input) (a : Action) where
  subject :
      (R : Acceptance → Type 0) (x : AttemptRecovery) (acc : Acceptance)
      → current_head_attempt i.projection ≡ some x
      → a.attempt_id ≡ x.attempt_id
      → lookup x.attempt_id i.projection.state.acceptances ≡ some acc
      → acc.started ≡ true
      → is_matched i.observations.acceptance_subject ≡ true
      → a.subject_tree ≡ acc.subject_tree
      → R acc
      → Subject R i a
  subject R x acc current own recorded started matched tree evidence = record {
    attempt = x;
    current = current;
    own = own;
    acceptance = acc;
    recorded = subst (λ id. lookup id i.projection.state.acceptances ≡ some acc) (sym own) recorded;
    started = started;
    matched = matched;
    tree = tree;
    evidence = evidence;
  }

  -- `PlanAcceptance` asks for the completion of an evaluation only if each planned criterion of the
  -- attempt's acceptance has completed with PASS, and the subject was seen to match.
  pub evaluation-all_passed :
      (plan_acceptance i).action ≡ some a
      → a.kind ≡ ActionKind.append_evaluation_completed
      → Subject (λ acc. all_passed acc.criteria acc.planned_criterion_ids ≡ true) i a
  evaluation-all_passed d k =
      let (x, (current, (acc, (recorded, (started, decided))))) =
        of_acceptance i a d (λ e. ground arith) in
      let (matched, (passed, (own, tree))) = of_evaluation i x acc a decided k in
      subject _ x acc current own recorded started matched tree (all_criteria_passed_lem acc passed)

  -- It asks for the success only if the evaluation is completed, the subject was seen to match, and
  -- the human gate, where one is required, was requested and resolved by an approval.
  pub success-gate_open :
      (plan_acceptance i).action ≡ some a
      → a.kind ≡ ActionKind.append_acceptance_success
      → Subject
          (λ acc. acc.evaluation_completed && gate_open (gate_of i.projection.acceptance) ≡ true)
          i
          a
  success-gate_open d k =
      let (x, (current, (acc, (recorded, (started, decided))))) =
        of_acceptance i a d (λ e. ground arith) in
      let (matched, (passed, (own, tree))) = of_success i x acc a decided k in
      subject _ x acc current own recorded started matched tree passed

  -- The handler of attempt.completed accepts the success of an attempt that the projection has as
  -- verifying and that has an identifier.
  pub success_handled :
      (e : Event) (p : Fields) (found : Attempt)
      → (plan_acceptance i).action ≡ some a
      → a.kind ≡ ActionKind.append_acceptance_success
      → e.attempt_id ≡ a.attempt_id
      → str_eq e.attempt_id "" ≡ false
      → lookup e.attempt_id i.projection.state.attempts ≡ some found
      → found.state ≡ AttemptState.verifying
      → (on_attempt_completed e p i.projection.state).0 ≡ ok tt
  unfolding on_attempt_completed
  success_handled e p found d k same named here verifying =
      let s = success-gate_open d k in
      let done = s.evidence in
      let recorded : lookup e.attempt_id i.projection.state.acceptances ≡ some s.acceptance =
        subst (λ id. lookup id i.projection.state.acceptances ≡ some s.acceptance) (sym same)
          s.recorded in
      ground arith
