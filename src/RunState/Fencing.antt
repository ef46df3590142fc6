-- ===== src/RunState/Fencing.antt =====
-- internal/runstate/apply.go: the authority epoch, which grants and fences write.
use partitur.Prelude.{
  ◌≡◌, ◌∙◌, arith, refl, ℕ, ◌+◌, add_uint64_lem, ◌≤◌, ◌<◌, ◌^◌, Option, none, some, ap, subst, sym,
  List, String,
}
use partitur.Json.{Fields, optional_uint}
use partitur.RunState.Types.{terminal, PendingPrepare, Authority}
use partitur.RunState.Event.{Event, EventType, run_cancelled, authority_granted, amendment_approved}
use partitur.RunState.State.{State}
use partitur.RunState.Action.{ok, ◌>>=◌}
use partitur.RunState.Handlers.Run.{on_run_cancelled}
use partitur.RunState.Handlers.Execution.{on_authority_granted}
use partitur.RunState.Waiting.{close_all_pending_decisions}
use partitur.RunState.Handlers.Prepare.{
  require_prepared, require_head, on_amendment_approved, commit_approval, close_approval, supersede,
  take_head,
}
use partitur.RunState.Apply.{dispatch, apply}
use partitur.RunState.Apply.Accepted.{apply-Accepted, note_applied_lem}
use partitur.RunState.Footprint.{footprint, pick_lem}
use partitur.RunState.Footprint.Dispatch.{dispatch-Within}
use partitur.RunState.Frame.{
  bind-Bound, take_head_lem, require_head_lem, close_all_pending_decisions_lem, supersede_lem,
  state-require_prepared, state-require_head, state-require_cancellation,
}

abbrev epoch_after : Option ℕ → ℕ → ℕ
epoch_after none old = old
epoch_after (some epoch) old = epoch

close-authority : (s : State) → (close_all_pending_decisions s).authority ≡ s.authority
close-authority s = ap (λ (u : State). u.authority) (close_all_pending_decisions_lem s)

module _ (e : Event) (p : Fields) where
  granted-epoch :
      (s : State)
      → (on_authority_granted e p s).0 ≡ ok tt
      → s.authority.epoch < (on_authority_granted e p s).1.authority.epoch
  unfolding on_authority_granted
  granted-epoch s h = ground arith

  cancelled-epoch :
      (s : State)
      → s.authority.epoch + 1 < 2 ^ 64
      → (on_run_cancelled e p s).0 ≡ ok tt
      → s.authority.epoch ≤ (on_run_cancelled e p s).1.authority.epoch
  unfolding on_run_cancelled
  cancelled-epoch s b h =
      grind
        (arith, close-authority, state-require_cancellation, add_uint64_lem s.authority.epoch 1 b)

  close_approval-epoch :
      (u : State)
      → (close_approval p u).authority.epoch
        ≡ epoch_after (optional_uint p "fenced_epoch") u.authority.epoch
  unfolding close_approval
  close_approval-epoch u = grind (arith, close-authority)

  take-authority : (u : State) → (take_head e p u).authority ≡ u.authority
  take-authority u = ap (λ (v : State). v.authority) (take_head_lem e p u)

  supersede-authority :
      (ids : List String) (u : State) → (supersede e ids u).1.authority ≡ u.authority
  supersede-authority ids u = ap (λ (v : State). v.authority) (supersede_lem e ids u)

  commit-epoch :
      (u t : State)
      → (commit_approval e p u t).0 ≡ ok tt
      → (commit_approval e p u t).1.authority.epoch
        ≡ epoch_after (optional_uint p "fenced_epoch") u.authority.epoch
  unfolding commit_approval
  commit-epoch u t h = grind (arith, close_approval-epoch, supersede-authority, take-authority)

  head-authority :
      (x : PendingPrepare) (s new : State)
      → (require_head e p x s).0 ≡ ok new
      → new.authority ≡ s.authority
  head-authority x s new h = ap (λ (v : State). v.authority) (require_head_lem e p x s new h)

  head-epoch :
      (x : PendingPrepare) (s new : State)
      → s.authority.epoch + 1 < 2 ^ 64
      → (require_head e p x s).0 ≡ ok new
      → s.authority.epoch ≤ epoch_after (optional_uint p "fenced_epoch") s.authority.epoch
  unfolding require_head
  head-epoch x s new b h = ground (arith, add_uint64_lem s.authority.epoch 1 b)

  approved-epoch :
      (s : State)
      → s.authority.epoch + 1 < 2 ^ 64
      → (on_amendment_approved e p s).0 ≡ ok tt
      → s.authority.epoch ≤ (on_amendment_approved e p s).1.authority.epoch
  unfolding on_amendment_approved
  approved-epoch s b h =
      let a =
        bind-Bound (require_prepared e p) (λ x. require_head e p x >>= commit_approval e p) s tt
          (state-require_prepared e p s) h in
      let c =
        bind-Bound (require_head e p a.value) (commit_approval e p) s tt
          (state-require_head e p s a.value) a.rest in
      let old = head-epoch a.value s c.value b c.first in
      let new = commit-epoch c.value s c.rest in
      let same = head-authority a.value s c.value c.first in
      let after =
        ap (λ (u : State). u.authority.epoch) (a.state ∙ c.state)
        ∙ new
        ∙ ap (λ (x : Authority). epoch_after (optional_uint p "fenced_epoch") x.epoch) same in
      subst (λ n. s.authority.epoch ≤ n) (sym after) old

dispatch-epoch :
    (t : EventType) (e : Event) (p : Fields) (s : State)
    → s.authority.epoch + 1 < 2 ^ 64
    → (dispatch t e p s).0 ≡ ok tt
    → s.authority.epoch ≤ (dispatch t e p s).1.authority.epoch
unfolding dispatch
dispatch-epoch authority_granted e p s b h = let up = granted-epoch e p s h in ground arith
dispatch-epoch run_cancelled e p s b h = cancelled-epoch e p s b h
dispatch-epoch amendment_approved e p s b h = approved-epoch e p s b h
dispatch-epoch t e p s b h =
    let same =
      pick_lem (footprint t).authority refl
        (ap (λ (u : State). u.authority) (dispatch-Within t e p s)) in
    subst (λ a. s.authority.epoch ≤ a.epoch) (sym same) (ground arith)

-- An accepted event never lowers the authority epoch, below its largest value of 64 bits.
pub apply-epoch :
    (e : Event) (s : State)
    → s.authority.epoch + 1 < 2 ^ 64
    → (apply e s).0 ≡ ok tt
    → s.authority.epoch ≤ (apply e s).1.authority.epoch
apply-epoch e s b h =
    let a = apply-Accepted e s h in
    let d = (dispatch e.type e a.payload s).1 in
    let same = ap (λ (u : State). u.authority) (a.result ∙ note_applied_lem e (terminal s.run) d) in
    subst (λ x. s.authority.epoch ≤ x.epoch) (sym same)
      (dispatch-epoch e.type e a.payload s b a.handled)
