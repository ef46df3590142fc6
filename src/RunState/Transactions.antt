-- ===== src/RunState/Transactions.antt =====
-- The application of the candidate and the promotion of the score: their state machines in
-- internal/runstate/apply.go.
use partitur.Prelude.{◌≡◌, ◌∙◌, ◌⊎◌, inl, inr, arith, refl, Bool, ap, sym, subst, true, false}
use partitur.Json.{Fields}
use partitur.RunState.Types.{
  terminal, ApplicationProjection, ApplicationState, PromotionProjection, PromotionState,
}
use partitur.RunState.Event.{
  Event, EventType, apply_started, apply_completed, apply_failed, apply_recovery_required,
  apply_recovery_resolved, score_promotion_started, score_promoted,
  score_promotion_recovery_required,
}
use partitur.RunState.State.{State}
use partitur.RunState.Action.{ok}
use partitur.RunState.Apply.{dispatch, apply}
use partitur.RunState.Apply.Accepted.{apply-Accepted, note_applied_lem}
use partitur.RunState.Footprint.{footprint, pick_lem}
use partitur.RunState.Footprint.Dispatch.{dispatch-Within}
use partitur.RunState.Handlers.Application.{on_score_promotion_started}

-- The edges that keep the transaction.
abbrev pub application_edge : ApplicationState → ApplicationState → Bool
application_edge ApplicationState.not_applied ApplicationState.not_applied = true
application_edge ApplicationState.applying ApplicationState.applying = true
application_edge ApplicationState.applying ApplicationState.applied = true
application_edge ApplicationState.applying ApplicationState.failed_clean = true
application_edge ApplicationState.applying ApplicationState.recovery_required = true
application_edge ApplicationState.recovery_required ApplicationState.recovery_required = true
application_edge ApplicationState.recovery_required ApplicationState.applied = true
application_edge ApplicationState.recovery_required ApplicationState.failed_clean = true
application_edge ApplicationState.applied ApplicationState.applied = true
application_edge ApplicationState.failed_clean ApplicationState.failed_clean = true
application_edge _ _ = false

-- What an event may do to the application: a transaction starts where none is under way and the
-- candidate is not applied, and from then on the projection keeps it.
pub data ApplicationStep (a b : ApplicationProjection) : Type 0 where
  start :
      (a.state ≡ ApplicationState.not_applied) ⊎ (a.state ≡ ApplicationState.failed_clean)
      → b.state ≡ ApplicationState.applying
      → ApplicationStep a b
  move :
      application_edge a.state b.state ≡ true
      → b.transaction_id ≡ a.transaction_id
      → b.candidate_id ≡ a.candidate_id
      → ApplicationStep a b

abbrev pub promotion_edge : PromotionState → PromotionState → Bool
promotion_edge PromotionState.not_promoted PromotionState.not_promoted = true
promotion_edge PromotionState.promoting PromotionState.promoting = true
promotion_edge PromotionState.promoting PromotionState.promoted = true
promotion_edge PromotionState.promoting PromotionState.recovery_required = true
promotion_edge PromotionState.recovery_required PromotionState.recovery_required = true
promotion_edge PromotionState.recovery_required PromotionState.promoted = true
promotion_edge PromotionState.promoted PromotionState.promoted = true
promotion_edge _ _ = false

-- A promotion starts once, and keeps its transaction.
pub data PromotionStep (a b : PromotionProjection) : Type 0 where
  start :
      a.state ≡ PromotionState.not_promoted → b.state ≡ PromotionState.promoting → PromotionStep a b
  move :
      promotion_edge a.state b.state ≡ true
      → b.transaction_id ≡ a.transaction_id
      → b.candidate_id ≡ a.candidate_id
      → PromotionStep a b

application_refl : (a : ApplicationState) → application_edge a a ≡ true
application_refl ApplicationState.not_applied = refl
application_refl ApplicationState.applying = refl
application_refl ApplicationState.applied = refl
application_refl ApplicationState.failed_clean = refl
application_refl ApplicationState.recovery_required = refl

promotion_refl : (a : PromotionState) → promotion_edge a a ≡ true
promotion_refl PromotionState.not_promoted = refl
promotion_refl PromotionState.promoting = refl
promotion_refl PromotionState.promoted = refl
promotion_refl PromotionState.recovery_required = refl

module _ (e : Event) (p : Fields) (s : State) where
  dispatch-ApplicationStep :
      (t : EventType)
      → (dispatch t e p s).0 ≡ ok tt
      → ApplicationStep s.application (dispatch t e p s).1.application
  unfolding dispatch
  dispatch-ApplicationStep apply_started h = ApplicationStep.start (ground arith) (ground arith)
  dispatch-ApplicationStep apply_completed h =
      ApplicationStep.move (ground arith) (ground arith) (ground arith)
  dispatch-ApplicationStep apply_failed h =
      ApplicationStep.move (ground arith) (ground arith) (ground arith)
  dispatch-ApplicationStep apply_recovery_required h =
      ApplicationStep.move (ground arith) (ground arith) (ground arith)
  dispatch-ApplicationStep apply_recovery_resolved h =
      ApplicationStep.move (ground arith) (ground arith) (ground arith)
  dispatch-ApplicationStep t h =
      let same =
        pick_lem (footprint t).application refl
          (ap (λ (u : State). u.application) (dispatch-Within t e p s)) in
      subst (ApplicationStep s.application) (sym same)
        (ApplicationStep.move (application_refl s.application.state) refl refl)

  promotion_started_cases :
      (on_score_promotion_started e p s).0 ≡ ok tt
      → ((s.promotion.state ≡ PromotionState.not_promoted)
          × ((on_score_promotion_started e p s).1.promotion.state ≡ PromotionState.promoting))
        ⊎ ((on_score_promotion_started e p s).1.promotion ≡ s.promotion)
  unfolding on_score_promotion_started
  promotion_started_cases h = ground arith

  dispatch-PromotionStep :
      (t : EventType)
      → (dispatch t e p s).0 ≡ ok tt
      → PromotionStep s.promotion (dispatch t e p s).1.promotion
  unfolding dispatch
  dispatch-PromotionStep score_promotion_started h = elim (promotion_started_cases h) [
    | inl (from, to) ↦ PromotionStep.start from to
    | inr same ↦
        subst (PromotionStep s.promotion) (sym same)
          (PromotionStep.move (promotion_refl s.promotion.state) refl refl)
  ]
  dispatch-PromotionStep score_promoted h =
      PromotionStep.move (ground arith) (ground arith) (ground arith)
  dispatch-PromotionStep score_promotion_recovery_required h =
      PromotionStep.move (ground arith) (ground arith) (ground arith)
  dispatch-PromotionStep t h =
      let same =
        pick_lem (footprint t).promotion refl
          (ap (λ (u : State). u.promotion) (dispatch-Within t e p s)) in
      subst (PromotionStep s.promotion) (sym same)
        (PromotionStep.move (promotion_refl s.promotion.state) refl refl)

-- Every accepted event leaves the application alone, moves it along its diagram with its
-- transaction kept, or starts a transaction where none is under way: what is applied stays so.
pub apply-ApplicationStep :
    (e : Event) (s : State)
    → (apply e s).0 ≡ ok tt
    → ApplicationStep s.application (apply e s).1.application
apply-ApplicationStep e s h =
    let a = apply-Accepted e s h in
    let d = (dispatch e.type e a.payload s).1 in
    let same =
      ap (λ (u : State). u.application) (a.result ∙ note_applied_lem e (terminal s.run) d) in
    subst (ApplicationStep s.application) (sym same)
      (dispatch-ApplicationStep e a.payload s e.type a.handled)

-- Every accepted event leaves the promotion alone, starts it once, or moves it along its diagram
-- with its transaction kept.
pub apply-PromotionStep :
    (e : Event) (s : State)
    → (apply e s).0 ≡ ok tt
    → PromotionStep s.promotion (apply e s).1.promotion
apply-PromotionStep e s h =
    let a = apply-Accepted e s h in
    let d = (dispatch e.type e a.payload s).1 in
    let same = ap (λ (u : State). u.promotion) (a.result ∙ note_applied_lem e (terminal s.run) d) in
    subst (PromotionStep s.promotion) (sym same)
      (dispatch-PromotionStep e a.payload s e.type a.handled)
