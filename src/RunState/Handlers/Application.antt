-- ===== src/RunState/Handlers/Application.antt =====
-- internal/runstate/apply.go: the application of the candidate and the promotion of the score.
use partitur.Prelude.{String, Bool, true, false, ◌&&◌, ◌||◌, Option, none, some, str_eq}
use partitur.Json.{Fields, must_string}
use partitur.RunState.Types.{
  ApplicationCandidate, ApplicationState, PromotionState, PromotionProjection,
}
use partitur.RunState.Event.{Event}
use partitur.RunState.Action.{Action, gets, ◌>>=◌, ◌>>◌, modify, raise_unless, transition, invalid}
use partitur.RunState.Guards.{matches_application_transaction, matches_promotion_transaction}

abbrev is_startable : ApplicationState → Bool
is_startable ApplicationState.not_applied = true
is_startable ApplicationState.failed_clean = true
is_startable _ = false

abbrev is_applying : ApplicationState → Bool
is_applying ApplicationState.applying = true
is_applying _ = false

abbrev needs_recovery : ApplicationState → Bool
needs_recovery ApplicationState.recovery_required = true
needs_recovery _ = false

abbrev candidate_is : String → Option ApplicationCandidate → Bool
candidate_is id none = false
candidate_is id (some c) = str_eq c.id id

abbrev move_application : ApplicationState → String → Action (Unit {0})
move_application to reason =
    modify (λ s. record s { application = record s.application { state = to; reason = reason } })

abbrev require_application : (ApplicationState → Bool) → Event → Fields → String → Action (Unit {0})
require_application legal e p reason = do
  a ← gets (λ s. s.application)
  raise_unless (legal a.state && matches_application_transaction a p) (transition e reason)

-- `case EventApplyStarted`
unfoldable pub on_apply_started : Event → Fields → Action (Unit {0})
on_apply_started e p = do
  state ← gets (λ s. s.application.state)
  raise_unless (is_startable state) (transition e "application is not startable")
  candidate ← gets (λ s. s.application_candidate)
  raise_unless (candidate_is (must_string p "candidate_id") candidate)
      (invalid e "candidate does not match application candidate")
  modify (λ s. record s {
    application = record {
      state = ApplicationState.applying;
      transaction_id = must_string p "txn_id";
      candidate_id = must_string p "candidate_id";
      reason = "";
    };
  })

-- `case EventApplyCompleted`
unfoldable pub on_apply_completed : Event → Fields → Action (Unit {0})
on_apply_completed e p = do
  require_application (λ a. is_applying a || needs_recovery a) e p
      "application transaction is not recoverable"
  move_application ApplicationState.applied ""

-- `case EventApplyFailed`
unfoldable pub on_apply_failed : Event → Fields → Action (Unit {0})
on_apply_failed e p = do
  require_application is_applying e p "application transaction is not applying"
  move_application ApplicationState.failed_clean (must_string p "failure_detail")

-- `case EventApplyRecoveryRequired`
unfoldable pub on_apply_recovery_required : Event → Fields → Action (Unit {0})
on_apply_recovery_required e p = do
  require_application is_applying e p "application transaction is not applying"
  move_application ApplicationState.recovery_required (must_string p "failure_detail")

-- `case EventApplyRecoveryResolved`
unfoldable pub on_apply_recovery_resolved : Event → Fields → Action (Unit {0})
on_apply_recovery_resolved e p = do
  require_application needs_recovery e p "application transaction is not recovery-required"
  move_application ApplicationState.failed_clean ""

abbrev is_promoting : PromotionState → Bool
is_promoting PromotionState.promoting = true
is_promoting _ = false

abbrev is_not_promoted : PromotionState → Bool
is_not_promoted PromotionState.not_promoted = true
is_not_promoted _ = false

abbrev promotion_needs_recovery : PromotionState → Bool
promotion_needs_recovery PromotionState.recovery_required = true
promotion_needs_recovery _ = false

abbrev move_promotion : PromotionState → String → Action (Unit {0})
move_promotion to reason =
    modify (λ s. record s { promotion = record s.promotion { state = to; reason = reason } })

abbrev require_promotion : (PromotionState → Bool) → Event → Fields → String → Action (Unit {0})
require_promotion legal e p reason = do
  x ← gets (λ s. s.promotion)
  raise_unless (legal x.state && matches_promotion_transaction x p) (transition e reason)

abbrev begin_promotion : Event → Fields → PromotionProjection → Action (Unit {0})
begin_promotion e p x = do
  raise_unless (is_not_promoted x.state) (transition e "promotion is not startable")
  modify (λ s. record s {
    promotion = record {
      state = PromotionState.promoting;
      transaction_id = must_string p "txn_id";
      candidate_id = must_string p "candidate_id";
      reason = "";
    };
  })

-- `case EventScorePromotionStarted`: a repeated start of the active transaction is accepted.
unfoldable pub on_score_promotion_started : Event → Fields → Action (Unit {0})
on_score_promotion_started e p = do
  x ← gets (λ s. s.promotion)
  elim (is_promoting x.state) [
    | true ↦
        raise_unless (matches_promotion_transaction x p)
          (transition e "promotion transaction differs from the active transaction")
    | false ↦ begin_promotion e p x
  ]

-- `case EventScorePromoted`
unfoldable pub on_score_promoted : Event → Fields → Action (Unit {0})
on_score_promoted e p = do
  require_promotion (λ x. is_promoting x || promotion_needs_recovery x) e p
      "promotion transaction is not recoverable"
  move_promotion PromotionState.promoted ""

-- `case EventScorePromotionRecoveryRequired`
unfoldable pub on_score_promotion_recovery_required : Event → Fields → Action (Unit {0})
on_score_promotion_recovery_required e p = do
  require_promotion is_promoting e p "promotion transaction is not promoting"
  move_promotion PromotionState.recovery_required (must_string p "failure_detail")
