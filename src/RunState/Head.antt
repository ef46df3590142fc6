-- ===== src/RunState/Head.antt =====
-- internal/runstate/apply.go: the revision of the score's head.
use partitur.Prelude.{
  ◌≡◌, arith, refl, true, false, some, ap, subst, sym, ◌⊎◌, inl, inr, add_uint64, ◌∙◌, List, String,
}
use partitur.Json.{Fields, must_uint}
use partitur.RunState.Types.{terminal, PendingPrepare}
use partitur.RunState.Event.{Event, EventType, run_started, amendment_approved}
use partitur.RunState.State.{State}
use partitur.RunState.Action.{ok}
use partitur.RunState.Waiting.{is_not_started}
use partitur.RunState.Handlers.Run.{on_run_started}
use partitur.RunState.Handlers.Prepare.{
  require_prepared, on_amendment_approved, commit_approval, close_approval, supersede, take_head,
}
use partitur.RunState.Apply.{dispatch, apply}
use partitur.RunState.Apply.Accepted.{apply-Accepted, note_applied_lem}
use partitur.RunState.Footprint.{footprint, pick_lem}
use partitur.RunState.Footprint.Dispatch.{dispatch-Within}
use partitur.RunState.Frame.{close_approval_lem, supersede_lem, state-require_prepared}
use partitur.RunState.Pending.{PrepareMatches, PrepareFor}

module _ (e : Event) (p : Fields) where
  close-score_head : (u : State) → (close_approval p u).score_head ≡ u.score_head
  close-score_head u = ap (λ (v : State). v.score_head) (close_approval_lem p u)

  supersede-score_head :
      (ids : List String) (u : State) → (supersede e ids u).1.score_head ≡ u.score_head
  supersede-score_head ids u = ap (λ (v : State). v.score_head) (supersede_lem e ids u)

  take-revision : (u : State) → (take_head e p u).score_head.revision ≡ must_uint p "new_revision"
  unfolding take_head
  take-revision u = ground arith

  commit-revision :
      (u t : State)
      → (commit_approval e p u t).0 ≡ ok tt
      → (commit_approval e p u t).1.score_head.revision ≡ must_uint p "new_revision"
  unfolding commit_approval
  commit-revision u t h = grind (arith, close-score_head, supersede-score_head, take-revision)

  module _ (s : State) where
    prepared-new :
        (x : PendingPrepare)
        → (require_prepared e p s).0 ≡ ok x
        → must_uint p "new_revision" ≡ x.new_head.revision
    unfolding require_prepared
    prepared-new x h = ground arith

    prepared-pending :
        (x : PendingPrepare) → (require_prepared e p s).0 ≡ ok x → s.pending_prepare ≡ some x
    unfolding require_prepared
    prepared-pending x h = ground arith

    prepared-next :
        (x : PendingPrepare)
        → PrepareMatches s
        → (require_prepared e p s).0 ≡ ok x
        → must_uint p "new_revision" ≡ add_uint64 s.score_head.revision 1
    prepared-next x m h =
        let matches = subst (PrepareFor s.score_head s.authority.epoch) (prepared-pending x h) m in
        prepared-new x h ∙ matches.next

    approved-revision :
        PrepareMatches s
        → (on_amendment_approved e p s).0 ≡ ok tt
        → (on_amendment_approved e p s).1.score_head.revision ≡ add_uint64 s.score_head.revision 1
    unfolding on_amendment_approved
    approved-revision m h = grind (arith, commit-revision, next, state-require_prepared)
      where
        next :
            (x : PendingPrepare)
            → (require_prepared e p s).0 ≡ ok x
            → must_uint p "new_revision" ≡ add_uint64 s.score_head.revision 1
        next x h = prepared-next x m h

    started-not_started : (on_run_started e p s).0 ≡ ok tt → is_not_started s.run ≡ true
    unfolding on_run_started
    started-not_started h = ground arith

dispatch-revision :
    (t : EventType) (e : Event) (p : Fields) (s : State)
    → PrepareMatches s
    → is_not_started s.run ≡ false
    → (dispatch t e p s).0 ≡ ok tt
    → ((dispatch t e p s).1.score_head ≡ s.score_head)
      ⊎ ((dispatch t e p s).1.score_head.revision ≡ add_uint64 s.score_head.revision 1)
unfolding dispatch
dispatch-revision run_started e p s m started h =
    let not_started = started-not_started e p s h in absurd (ground arith)
dispatch-revision amendment_approved e p s m started h = inr (approved-revision e p s m h)
dispatch-revision t e p s m started h = inl (
    pick_lem (footprint t).score_head refl
      (ap (λ (u : State). u.score_head) (dispatch-Within t e p s)))

-- Of a run that has started, each accepted event leaves the head as it was, or moves its revision
-- to the one after (modulo 2^64), as long as the pending prepare is one of the state's.
pub apply-revision :
    (e : Event) (s : State)
    → PrepareMatches s
    → is_not_started s.run ≡ false
    → (apply e s).0 ≡ ok tt
    → ((apply e s).1.score_head ≡ s.score_head)
      ⊎ ((apply e s).1.score_head.revision ≡ add_uint64 s.score_head.revision 1)
apply-revision e s m started h =
    let a = apply-Accepted e s h in
    let d = (dispatch e.type e a.payload s).1 in
    let same =
      ap (λ (u : State). u.score_head) (a.result ∙ note_applied_lem e (terminal s.run) d) in
    subst (λ x. (x ≡ s.score_head) ⊎ (x.revision ≡ add_uint64 s.score_head.revision 1)) (sym same)
      (dispatch-revision e.type e a.payload s m started a.handled)
