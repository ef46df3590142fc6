-- ===== src/RunState/Barrier.antt =====
-- What `Apply` of internal/runstate/apply.go lets through while a prepare is pending.
use partitur.Prelude.{
  ◌≡◌, refl, sym, ap, subst, arith, Bool, true, not, ◌&&◌, ◌||◌, is_some, ◌⊎◌, inl, inr,
}
use partitur.RunState.Event.{Event, EventType, prepare_pending_mutation}
use partitur.RunState.State.{State}
use partitur.RunState.Action.{ok}
use partitur.RunState.Apply.{dispatch, apply, note_applied}
use partitur.RunState.Apply.Accepted.{apply-Accepted, note_applied_lem}
use partitur.RunState.Footprint.{Footprint, Within, footprint, within, pick_lem}
use partitur.RunState.Footprint.Dispatch.{dispatch-Within}
use partitur.RunState.Types.{terminal}

-- The seven events that may be accepted while a prepare is pending.
pub data Admitted : EventType → Type 0 where
  stopped : Admitted EventType.execution_stopped
  checkpointed : Admitted EventType.execution_elapsed_checkpointed
  cancelled : Admitted EventType.cancel_requested
  quiesced : Admitted EventType.amendment_quiesce_observed
  abandoned : Admitted EventType.amendment_approval_abandoned
  approved : Admitted EventType.amendment_approved
  truncated : Admitted EventType.journal_tail_truncated

mutation-Admitted : (t : EventType) → prepare_pending_mutation t ≡ true → Admitted t
unfolding prepare_pending_mutation
mutation-Admitted EventType.execution_stopped h = stopped
mutation-Admitted EventType.execution_elapsed_checkpointed h = checkpointed
mutation-Admitted EventType.cancel_requested h = cancelled
mutation-Admitted EventType.amendment_quiesce_observed h = quiesced
mutation-Admitted EventType.amendment_approval_abandoned h = abandoned
mutation-Admitted EventType.amendment_approved h = approved
mutation-Admitted EventType.journal_tail_truncated h = truncated
mutation-Admitted _ h = absurd (ground arith)

-- What is decided on, made and approved stays as it was.
pub record Frozen (s t : State) : Type 0 where
  pub run : t.run ≡ s.run
  pub movements : t.movements ≡ s.movements
  pub movement_order : t.movement_order ≡ s.movement_order
  pub attempts : t.attempts ≡ s.attempts
  pub score_head : t.score_head ≡ s.score_head
  pub authority : t.authority ≡ s.authority
  pub change_sets : t.change_sets ≡ s.change_sets
  pub artifacts : t.artifacts ≡ s.artifacts
  pub movement_results : t.movement_results ≡ s.movement_results
  pub candidate : t.application_candidate ≡ s.application_candidate
  pub application : t.application ≡ s.application
  pub promotion : t.promotion ≡ s.promotion
  pub acceptances : t.acceptances ≡ s.acceptances
  pub pending_decisions : t.pending_decisions ≡ s.pending_decisions
  pub resolved_decisions : t.resolved_decisions ≡ s.resolved_decisions
  pub routed_amendments : t.routed_amendments ≡ s.routed_amendments

-- The fields that are frozen are outside the footprint.
abbrev freezes : Footprint → Bool
freezes f =
    not (f.run || (f.movements || (f.head || (f.attempts || (f.score_head || f.authority)))))
    && (not (f.evidence || (f.results || (f.candidate || (f.application || f.promotion))))
        && not (f.acceptances || (f.decisions || (f.answers || f.routed))))

within-Frozen : (f : Footprint) (s t : State) → freezes f ≡ true → t ≡ within f s t → Frozen s t
within-Frozen f s t h w = record {
  run = pick_lem f.run (ground arith) (ap (λ (u : State). u.run) w);
  movements = pick_lem f.movements (ground arith) (ap (λ (u : State). u.movements) w);
  movement_order = pick_lem f.head (ground arith) (ap (λ (u : State). u.movement_order) w);
  attempts = pick_lem f.attempts (ground arith) (ap (λ (u : State). u.attempts) w);
  score_head = pick_lem f.score_head (ground arith) (ap (λ (u : State). u.score_head) w);
  authority = pick_lem f.authority (ground arith) (ap (λ (u : State). u.authority) w);
  change_sets = pick_lem f.evidence (ground arith) (ap (λ (u : State). u.change_sets) w);
  artifacts = pick_lem f.evidence (ground arith) (ap (λ (u : State). u.artifacts) w);
  movement_results = pick_lem f.results (ground arith) (ap (λ (u : State). u.movement_results) w);
  candidate = pick_lem f.candidate (ground arith) (ap (λ (u : State). u.application_candidate) w);
  application = pick_lem f.application (ground arith) (ap (λ (u : State). u.application) w);
  promotion = pick_lem f.promotion (ground arith) (ap (λ (u : State). u.promotion) w);
  acceptances = pick_lem f.acceptances (ground arith) (ap (λ (u : State). u.acceptances) w);
  pending_decisions =
      pick_lem f.decisions (ground arith) (ap (λ (u : State). u.pending_decisions) w);
  resolved_decisions =
      pick_lem f.answers (ground arith) (ap (λ (u : State). u.resolved_decisions) w);
  routed_amendments = pick_lem f.routed (ground arith) (ap (λ (u : State). u.routed_amendments) w);
}

-- The event may be accepted, and either it is the approval or everything is frozen.
pub record Held (t : EventType) (s new : State) : Type 0 where
  pub admitted : Admitted t
  pub frozen : (t ≡ EventType.amendment_approved) ⊎ Frozen s new

admitted-Frozen :
    (t : EventType) (s new : State)
    → Admitted t
    → Within t s new
    → (t ≡ EventType.amendment_approved) ⊎ Frozen s new
admitted-Frozen t s new stopped w = inr (within-Frozen (footprint t) s new refl w)
admitted-Frozen t s new checkpointed w = inr (within-Frozen (footprint t) s new refl w)
admitted-Frozen t s new cancelled w = inr (within-Frozen (footprint t) s new refl w)
admitted-Frozen t s new quiesced w = inr (within-Frozen (footprint t) s new refl w)
admitted-Frozen t s new abandoned w = inr (within-Frozen (footprint t) s new refl w)
admitted-Frozen t s new approved w = inl refl
admitted-Frozen t s new truncated w = inr (within-Frozen (footprint t) s new refl w)

noted-Frozen : (e : Event) (b : Bool) (s t : State) → Frozen s t → Frozen s (note_applied e b t)
noted-Frozen e b s t f = subst (Frozen s) (sym (note_applied_lem e b t)) (record {
  run = f.run;
  movements = f.movements;
  movement_order = f.movement_order;
  attempts = f.attempts;
  score_head = f.score_head;
  authority = f.authority;
  change_sets = f.change_sets;
  artifacts = f.artifacts;
  movement_results = f.movement_results;
  candidate = f.candidate;
  application = f.application;
  promotion = f.promotion;
  acceptances = f.acceptances;
  pending_decisions = f.pending_decisions;
  resolved_decisions = f.resolved_decisions;
  routed_amendments = f.routed_amendments;
})

-- While a prepare is pending, an accepted event is one of the seven that are listed, and every one of
-- them but the approval itself leaves the run, the movements, the attempts and their evidence, the
-- score head, the authority, the candidate, the application, the promotion, the acceptances, the
-- decisions and the routed amendments as they were.
pub apply-Held :
    (e : Event) (s : State)
    → (apply e s).0 ≡ ok tt
    → is_some s.pending_prepare ≡ true
    → Held e.type s (apply e s).1
apply-Held e s h pending =
    let a = apply-Accepted e s h in
    let d = (dispatch e.type e a.payload s).1 in
    let admitted =
      mutation-Admitted e.type
        (elim a.barrier [ inl no_prepare ↦ absurd (ground arith) | inr listed ↦ listed ]) in
    record {
      admitted = admitted;
      frozen = elim (admitted-Frozen e.type s d admitted (dispatch-Within e.type e a.payload s)) [
        | inl approval ↦ inl approval
        | inr frozen ↦
            inr (subst (Frozen s) (sym a.result) (noted-Frozen e (terminal s.run) s d frozen))
      ];
    }
