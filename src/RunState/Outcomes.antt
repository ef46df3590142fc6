-- ===== src/RunState/Outcomes.antt =====
-- internal/runstate/apply.go: the acceptance of an attempt and its criteria.
use partitur.Prelude.{
  ◌≡◌, ◌∙◌, ap, sym, if◌then◌else◌, subst, arith, refl, Bool, true, false, ◌&&◌, ◌||◌, not, String,
  List, [], ◌∷◌, str_eq, eq_iff, none, some, Option-cases, inl, inr,
}
use partitur.Dict.{
  Dict, lookup, insert, lookup-insert, all_values, all_values-insert, all_values-lookup,
}
use partitur.Json.{Fields, Value, must_string}
use partitur.RunState.Types.{Acceptance, FindingReference, CriterionRecord}
use partitur.RunState.Event.{
  Event, EventType, acceptance_started, criterion_started, criterion_completed,
  acceptance_evaluation_completed, attempt_completed,
}
use partitur.RunState.State.{State}
use partitur.RunState.Action.{ok}
use partitur.RunState.Apply.{dispatch, apply}
use partitur.RunState.Apply.Accepted.{apply-Accepted, apply-keeps, note_applied_lem}
use partitur.RunState.Footprint.{footprint, pick_lem}
use partitur.RunState.Footprint.Dispatch.{dispatch-Within}
use partitur.RunState.Handlers.Attempt.{on_attempt_completed}
use partitur.RunState.Handlers.Acceptance.{
  criterion_or_zero, acceptance_or_zero, outcome_matches, outcomes_match, on_acceptance_started,
  on_criterion_started, on_criterion_completed, on_acceptance_evaluation_completed,
}

-- The criterion's launch has completed, with the outcome PASS.
abbrev pub has_passed : Dict CriterionRecord → String → Bool
has_passed criteria id =
    let found = criterion_or_zero (lookup id criteria) in
    found.completed && str_eq found.outcome "PASS"

unfoldable pub all_passed : Dict CriterionRecord → List String → Bool
all_passed criteria [] = true
all_passed criteria (id ∷ ids) = has_passed criteria id && all_passed criteria ids

-- A criterion completes after it has started.
abbrev pub in_order : CriterionRecord → Bool
in_order r = not r.completed || r.started

-- The criteria complete in order, and once evaluated, all that were planned have passed.
unfoldable pub is_sound : Acceptance → Bool
is_sound a =
    all_values in_order a.criteria
    && (not a.evaluation_completed || all_passed a.criteria a.planned_criterion_ids)

abbrev pub all_sound : State → Bool
all_sound s = all_values is_sound s.acceptances

matched-has_passed :
    (a : Acceptance) (id : String) (o : Fields)
    → outcome_matches a id o ≡ true
    → has_passed a.criteria id ≡ true
unfolding outcome_matches
matched-has_passed a id o h =
    let same = eq_iff (must_string o "criterion_id") id in
    subst (λ j. has_passed a.criteria j ≡ true) (same.0 (ground arith)) (ground arith)

outcomes-all_passed :
    (a : Acceptance) (ids : List String) (vs : List Value)
    → outcomes_match a ids vs ≡ true
    → all_passed a.criteria ids ≡ true
unfolding outcomes_match all_passed
outcomes-all_passed a [] vs h = refl
outcomes-all_passed a (id ∷ ids) [] h = absurd (ground arith)
outcomes-all_passed a (id ∷ ids) (v ∷ vs) h =
    grind (arith, matched-has_passed a id, outcomes-all_passed a ids vs)

has_passed-insert :
    (k id : String) (r : CriterionRecord) (c : Dict CriterionRecord)
    → has_passed c k ≡ false
    → has_passed c id ≡ true
    → has_passed (insert k r c) id ≡ true
has_passed-insert k id r c hk h =
    elim (str_eq k id) as (λ b. str_eq k id ≡ b → has_passed (insert k r c) id ≡ true) [
      | true ↦ λ e.
          let passed = subst (λ j. has_passed c j ≡ false) ((eq_iff k id).0 e) hk in
          absurd (ground arith)
      | false ↦ λ e.
          subst
            (λ o.
              ((criterion_or_zero o).completed && str_eq (criterion_or_zero o).outcome "PASS")
              ≡ true)
            (sym (lookup-insert k id r c ∙ ap (λ b. if b then some r else lookup id c) e)) h
    ]
      refl

-- A criterion that has not passed is none of those that all have.
all_passed-insert :
    (k : String) (r : CriterionRecord) (c : Dict CriterionRecord) (ids : List String)
    → has_passed c k ≡ false
    → all_passed c ids ≡ true
    → all_passed (insert k r c) ids ≡ true
unfolding all_passed
all_passed-insert k r c [] hk h = refl
all_passed-insert k r c (id ∷ ids) hk h =
    grind (arith, has_passed-insert k id r c, all_passed-insert k r c ids)

in_order-lookup :
    (k : String) (c : Dict CriterionRecord)
    → all_values in_order c ≡ true
    → in_order (criterion_or_zero (lookup k c)) ≡ true
in_order-lookup k c h =
    elim (lookup k c) as (λ o. lookup k c ≡ o → in_order (criterion_or_zero o) ≡ true) [
      | none ↦ λ _. refl
      | some r ↦ λ e. all_values-lookup in_order k r c h e
    ]
      refl

is_sound-lookup :
    (k : String) (d : Dict Acceptance)
    → all_values is_sound d ≡ true
    → is_sound (acceptance_or_zero (lookup k d)) ≡ true
unfolding all_values is_sound
is_sound-lookup k d h =
    elim (lookup k d) as (λ o. lookup k d ≡ o → is_sound (acceptance_or_zero o) ≡ true) [
      | none ↦ λ _. refl
      | some a ↦ λ e. all_values-lookup is_sound k a d h e
    ]
      refl

is_sound-evaluated :
    (a : Acceptance) (vs : List Value) (r : String) (fs : List FindingReference)
    → is_sound a ≡ true
    → outcomes_match a a.planned_criterion_ids vs ≡ true
    → is_sound
        (record a { evaluation_completed = true; review_outcome = r; blocking_findings = fs })
      ≡ true
unfolding is_sound
is_sound-evaluated a vs r fs h m =
    let passed = outcomes-all_passed a a.planned_criterion_ids vs m in ground arith

-- A criterion that has not passed may be replaced by one that is in order.
is_sound-criterion :
    (a : Acceptance) (k : String) (r : CriterionRecord)
    → is_sound a ≡ true
    → has_passed a.criteria k ≡ false
    → in_order r ≡ true
    → is_sound (record a { criteria = insert k r a.criteria }) ≡ true
unfolding is_sound
is_sound-criterion a k r h hk hr =
    grind (arith, all_values-insert in_order k r a.criteria, all_passed-insert k r a.criteria)

is_sound-fresh :
    (tree spec : String) (ids : List String)
    → is_sound (record {
      started = true;
      evaluation_completed = false;
      subject_tree = tree;
      spec_hash = spec;
      planned_criterion_ids = ids;
      criteria = [];
      review_outcome = "";
      blocking_findings = [];
    })
      ≡ true
unfolding is_sound all_values
is_sound-fresh tree spec ids = refl

is_sound-completed :
    (a : Acceptance) (k : String) (r : CriterionRecord)
    → is_sound a ≡ true
    → (criterion_or_zero (lookup k a.criteria)).completed ≡ false
    → r.started ≡ true
    → is_sound (record a { criteria = insert k r a.criteria }) ≡ true
is_sound-completed a k r h running started =
    is_sound-criterion a k r h (ground arith) (ground arith)

sound-in_order :
    (a : Acceptance) (k : String)
    → is_sound a ≡ true
    → in_order (criterion_or_zero (lookup k a.criteria)) ≡ true
unfolding is_sound
sound-in_order a k h = in_order-lookup k a.criteria (ground arith)

is_sound-started :
    (a : Acceptance) (k : String) (r : CriterionRecord)
    → is_sound a ≡ true
    → (criterion_or_zero (lookup k a.criteria)).started ≡ false
    → r.started ≡ true
    → is_sound (record a { criteria = insert k r a.criteria }) ≡ true
is_sound-started a k r h fresh started =
    let ordered = sound-in_order a k h in is_sound-criterion a k r h (ground arith) (ground arith)

module _ (e : Event) (p : Fields) (s : State) (sound : all_sound s ≡ true) where
  own-is_sound : is_sound (acceptance_or_zero (lookup e.attempt_id s.acceptances)) ≡ true
  own-is_sound = is_sound-lookup e.attempt_id s.acceptances sound

  put-all_sound :
      (a : Acceptance)
      → is_sound a ≡ true
      → all_values is_sound (insert e.attempt_id a s.acceptances) ≡ true
  put-all_sound a h = all_values-insert is_sound e.attempt_id a s.acceptances h sound

  started-all_sound : all_sound (on_acceptance_started e p s).1 ≡ true
  unfolding on_acceptance_started
  started-all_sound = grind (arith, put-all_sound, is_sound-fresh)

  evaluated-all_sound : all_sound (on_acceptance_evaluation_completed e p s).1 ≡ true
  unfolding on_acceptance_evaluation_completed
  evaluated-all_sound = grind (arith, put-all_sound, is_sound-evaluated, own-is_sound)

  criterion_started-all_sound : all_sound (on_criterion_started e p s).1 ≡ true
  unfolding on_criterion_started
  criterion_started-all_sound = grind (arith, put-all_sound, is_sound-started, own-is_sound)

  criterion_completed-all_sound : all_sound (on_criterion_completed e p s).1 ≡ true
  unfolding on_criterion_completed
  criterion_completed-all_sound = grind (arith, put-all_sound, is_sound-completed, own-is_sound)

dispatch-all_sound :
    (t : EventType) (e : Event) (p : Fields) (s : State)
    → all_sound s ≡ true
    → all_sound (dispatch t e p s).1 ≡ true
unfolding dispatch
dispatch-all_sound acceptance_started e p s h = started-all_sound e p s h
dispatch-all_sound criterion_started e p s h = criterion_started-all_sound e p s h
dispatch-all_sound criterion_completed e p s h = criterion_completed-all_sound e p s h
dispatch-all_sound acceptance_evaluation_completed e p s h = evaluated-all_sound e p s h
dispatch-all_sound t e p s h =
    let same =
      pick_lem (footprint t).acceptances refl
        (ap (λ (u : State). u.acceptances) (dispatch-Within t e p s)) in
    subst (λ d. all_values is_sound d ≡ true) (sym same) h

-- No event, accepted or refused, makes an acceptance unsound: its criteria complete after they
-- start, and once it is evaluated, each planned criterion has completed with PASS and keeps it.
pub apply-all_sound : (e : Event) (s : State) → all_sound s ≡ true → all_sound (apply e s).1 ≡ true
apply-all_sound e s h =
    apply-keeps e s (λ t. all_sound t ≡ true) h (λ p. dispatch-all_sound e.type e p s h)
      (λ b t h. subst (λ (u : State). all_sound u ≡ true) (sym (note_applied_lem e b t)) h)

sound-all_passed :
    (a : Acceptance)
    → is_sound a ≡ true
    → a.evaluation_completed ≡ true
    → all_passed a.criteria a.planned_criterion_ids ≡ true
unfolding is_sound
sound-all_passed a h evaluated = ground arith

-- The acceptance is on record, was evaluated, and each criterion that was planned has passed.
pub record Passed (s : State) (attempt_id : String) : Type 0 where
  pub acceptance : Acceptance
  pub recorded : lookup attempt_id s.acceptances ≡ some acceptance
  pub evaluated : acceptance.evaluation_completed ≡ true
  pub passed : all_passed acceptance.criteria acceptance.planned_criterion_ids ≡ true

handled-Passed :
    (e : Event) (p : Fields) (s : State)
    → all_sound s ≡ true
    → (on_attempt_completed e p s).0 ≡ ok tt
    → Passed s e.attempt_id
unfolding on_attempt_completed
handled-Passed e p s sound h = elim (Option-cases (lookup e.attempt_id s.acceptances)) [
  | inl missing ↦ absurd (ground arith)
  | inr (a, recorded) ↦
      let of_a : is_sound a ≡ true =
        all_values-lookup is_sound e.attempt_id a s.acceptances sound recorded in
      record {
        acceptance = a;
        recorded = recorded;
        evaluated = ground arith;
        passed = sound-all_passed a of_a (ground arith);
      }
]

completed_lem :
    (t : EventType) (e : Event) (p : Fields) (s : State)
    → t ≡ attempt_completed
    → (dispatch t e p s).0 ≡ ok tt
    → (on_attempt_completed e p s).0 ≡ ok tt
unfolding dispatch
completed_lem t e p s same h = subst (λ u. (dispatch u e p s).0 ≡ ok tt) same h

-- From a state with sound acceptances, an attempt.completed event is accepted only if the acceptance
-- of its attempt is on record and was evaluated, and every criterion of its plan has completed with
-- PASS.
pub completed-Passed :
    (e : Event) (s : State)
    → all_sound s ≡ true
    → e.type ≡ attempt_completed
    → (apply e s).0 ≡ ok tt
    → Passed s e.attempt_id
completed-Passed e s sound same h =
    let a = apply-Accepted e s h in
    handled-Passed e a.payload s sound (completed_lem e.type e a.payload s same a.handled)
