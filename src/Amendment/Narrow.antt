-- ===== src/Amendment/Narrow.antt =====
-- internal/amendment/evaluator.go: what is approved without a human narrows the authority.
use partitur.Prelude.{
  ◌≡◌, arith, ap, sym, ◌∙◌, String, Bool, true, false, ◌&&◌, ◌||◌, not, none, some, str_eq,
  is_empty, Option-cases, inl, inr,
}
use partitur.Json.{Value}
use partitur.RunState.State.{State}
use partitur.RunState.Waiting.{is_running, is_waiting}
use partitur.Score.Document.{Score}
use partitur.Score.Views.{effective_policy}
use partitur.Score.Impact.{Impact, claim_contains}
use partitur.Score.Narrower.{does_not_rise}
use partitur.Score.Grants.{adds_no_grant}
use partitur.Amendment.Types.{Kind, EnvelopeClass, Input, Outcome, Toolchain}
use partitur.Amendment.Classes.{
  amendment_policy_changed, classify, guard_passes, only_paths, only_one_grant_removal,
  only_one_budget_decrease,
}
use partitur.Amendment.Candidate.{candidate_condition}
use partitur.Amendment.Evaluate.{
  is_stale, evaluate_policy, evaluate_impact, evaluate_patched, evaluate_patch, evaluate_base,
  evaluate,
}

-- No path, grant or side effect is added, and no budget rises.
abbrev pub narrows : Impact → Bool
narrows i =
    is_empty i.allowed_paths.added
    && (is_empty i.side_effects.added
        && (adds_no_grant i.grants
            && (does_not_rise i.active_wall_clock_min && does_not_rise i.retries_per_movement)))

-- An impact that has an envelope class narrows the authority.
classify-narrows : (i : Impact) (c : EnvelopeClass) → classify i ≡ some c → narrows i ≡ true
unfolding classify only_paths only_one_grant_removal only_one_budget_decrease adds_no_grant
classify-narrows i c h = ground arith

-- The impact has an envelope class, whose guard passes.
abbrev within_envelope : Score → Score → State → Impact → Bool
within_envelope base patched s impact = elim (classify impact) [
  | none ↦ false
  | some c ↦ guard_passes c base patched s impact
]

abbrev policy_allows : Input → Score → Impact → Bool
policy_allows i base impact =
    not (str_eq base.status "draft")
    && (not (str_eq (effective_policy base).amendment_auto "off")
        && (not (amendment_policy_changed impact) && not (i.requires_decision || i.finalization)))

abbrev is_current : Toolchain → Input → Bool
is_current t i =
    (is_running i.state.run || is_waiting i.state.run)
    && (not i.state.cancel_requested && not (is_stale t i))

-- The facts that stand behind an approval that no human has made.
pub record Unattended (t : Toolchain) (i : Input) (o : Outcome) : Type 0 where
  pub base : Score
  pub given : i.base ≡ some base
  pub patched : Score
  pub made : o.patched ≡ some patched
  pub impact : Impact
  pub found : o.impact ≡ some impact
  pub compared : t.compare base patched ≡ some impact
  pub current : is_current t i ≡ true
  pub policy : policy_allows i base impact ≡ true
  pub narrow : narrows impact ≡ true
  pub guard : within_envelope base patched i.state impact ≡ true
  pub claim : not i.has_claimed_impact || claim_contains i.claimed_impact impact ≡ true
  pub executed : i.attempts_changed patched i.state ≡ some false
  pub candidate : str_eq (candidate_condition t patched i.state) "" ≡ true

within-narrows :
    (base patched : Score) (s : State) (impact : Impact)
    → within_envelope base patched s impact ≡ true
    → narrows impact ≡ true
within-narrows base patched s impact h = elim (Option-cases (classify impact)) [
  | inl nothing ↦ absurd (ground arith)
  | inr (c, found) ↦ classify-narrows impact c found
]

module _ (t : Toolchain) (i : Input) (base patched : Score) (impact : Impact) where
  policy_lem :
      (evaluate_policy i base patched impact).kind ≡ Kind.approved
      → (policy_allows i base impact ≡ true) × (within_envelope base patched i.state impact ≡ true)
  unfolding evaluate_policy
  policy_lem h = ground arith

  policy-patched :
      ((evaluate_policy i base patched impact).patched ≡ some patched)
      × ((evaluate_policy i base patched impact).impact ≡ some impact)
  unfolding evaluate_policy
  policy-patched = ground arith

  impact_lem :
      (o : Outcome)
      → evaluate_impact t i base patched impact ≡ some o
      → o.kind ≡ Kind.approved
      → i.human_decision ≡ false
      → (o ≡ evaluate_policy i base patched impact)
        × ((not i.has_claimed_impact || claim_contains i.claimed_impact impact ≡ true)
            × ((i.attempts_changed patched i.state ≡ some false)
                × (str_eq (candidate_condition t patched i.state) "" ≡ true)))
  unfolding evaluate_impact
  impact_lem o h k human = ground arith

  from_impact :
      (o : Outcome)
      → i.base ≡ some base
      → t.compare base patched ≡ some impact
      → is_current t i ≡ true
      → evaluate_impact t i base patched impact ≡ some o
      → o.kind ≡ Kind.approved
      → i.human_decision ≡ false
      → Unattended t i o
  from_impact o given compared current h k human =
      let (same, (claim, (executed, candidate))) = impact_lem o h k human in
      let (policy, guard) = policy_lem (ap (λ r. r.kind) (sym same) ∙ k) in
      let (made, found) = policy-patched in
      record {
        base = base;
        given = given;
        patched = patched;
        made = ap (λ r. r.patched) same ∙ made;
        impact = impact;
        found = ap (λ r. r.impact) same ∙ found;
        compared = compared;
        current = current;
        policy = policy;
        narrow = within-narrows base patched i.state impact guard;
        guard = guard;
        claim = claim;
        executed = executed;
        candidate = candidate;
      }

module _ (t : Toolchain) (i : Input) (base : Score) where
  -- An approval is never an early return, so the patched value compiles and has an impact.
  patched_lem :
      (text : String) (v : Value) (o : Outcome)
      → evaluate_patched t i base text v ≡ some o
      → o.kind ≡ Kind.approved
      → (patched : Score) × (impact : Impact) × (t.compare base patched ≡ some impact)
        × (evaluate_impact t i base patched impact ≡ some o)
  unfolding evaluate_patched
  patched_lem text v o h k = elim (Option-cases (t.compile_value v)) [
    | inl nothing ↦ absurd (ground arith)
    | inr (patched, compiled) ↦ elim (Option-cases (t.compare base patched)) [
      | inl nothing ↦ absurd (ground arith)
      | inr (impact, compared) ↦ (patched, impact, compared, ground arith)
    ]
  ]

  patch_lem :
      (o : Outcome)
      → evaluate_patch t i base ≡ some o
      → o.kind ≡ Kind.approved
      → (text : String) × (v : Value) × (evaluate_patched t i base text v ≡ some o)
  unfolding evaluate_patch
  patch_lem o h k = elim (Option-cases (t.projection base)) [
    | inl nothing ↦ absurd (ground arith)
    | inr (base_value, projected) ↦ elim (Option-cases (t.encode base_value)) [
      | inl nothing ↦ absurd (ground arith)
      | inr (text, encoded) ↦ elim (Option-cases (t.apply_patch base_value i.operations)) [
        | inl nothing ↦ absurd (ground arith)
        | inr (v, applied) ↦ (text, v, ground arith)
      ]
    ]
  ]

  base_lem :
      (o : Outcome)
      → evaluate_base t i base ≡ some o
      → o.kind ≡ Kind.approved
      → (is_current t i ≡ true) × (evaluate_patch t i base ≡ some o)
  unfolding evaluate_base
  base_lem o h k = ground arith

-- An amendment that the evaluator approves without a human's decision was compared with the current
-- base of a run that is running or waiting and not being cancelled; the policy of the base is not
-- off, no part of the amendment's own policy changes and no decision is asked for; its impact adds
-- no path, grant or side effect and raises no budget, stays within what was claimed, has a class
-- whose guard passes, changes no executed attempt, and leaves the application candidate valid.
pub evaluate-Unattended :
    (t : Toolchain) (i : Input) (o : Outcome)
    → evaluate t i ≡ some o
    → o.kind ≡ Kind.approved
    → i.human_decision ≡ false
    → Unattended t i o
unfolding evaluate
evaluate-Unattended t i o h k human = elim (Option-cases i.base) [
  | inl nothing ↦ absurd (ground arith)
  | inr (base, given) ↦
      let (current, h₁) = base_lem t i base o (ground arith) k in
      let (text, v, h₂) = patch_lem t i base o h₁ k in
      let (patched, impact, compared, h₃) = patched_lem t i base text v o h₂ k in
      from_impact t i base patched impact o given compared current h₃ k human
]
