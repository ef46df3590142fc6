-- ===== src/RunState/Pending.antt =====
-- The prepare of an amendment, as internal/runstate/apply.go keeps it until the approval, against
-- the head and the authority of the state that it is pending in.
use partitur.Prelude.{
  ◌≡◌, arith, refl, ℕ, true, false, Option, none, some, is_some, ap, subst, sym, ◌∙◌, ◌⊎◌, inl, inr,
  add_uint64,
}
use partitur.Json.{Fields}
use partitur.RunState.Types.{terminal, ScoreHead, PendingPrepare}
use partitur.RunState.Event.{
  Event, EventType, prepare_pending_mutation, run_started, run_cancelled, authority_granted,
  amendment_approval_prepared, amendment_quiesce_observed, amendment_approval_abandoned,
  amendment_approved,
}
use partitur.RunState.State.{State}
use partitur.RunState.Action.{ok}
use partitur.RunState.Handlers.Prepare.{
  require_preparable, prepare_of, on_amendment_approval_prepared, on_amendment_quiesce_observed,
  on_amendment_approval_abandoned, on_amendment_approved, commit_approval, close_approval,
}
use partitur.RunState.Apply.{dispatch, apply}
use partitur.RunState.Apply.Accepted.{apply-Accepted, note_applied_lem}
use partitur.RunState.Footprint.{footprint, pick_lem}
use partitur.RunState.Footprint.Dispatch.{dispatch-Within}
use partitur.RunState.Frame.{state-require_preparable, close_approval_lem}
use partitur.RunState.Handlers.Run.{on_run_cancelled, require_cancellation}

-- The prepare's base is the head, its new revision the next one, and the authority epoch that it
-- observed the current one.
pub record PrepareOf (head : ScoreHead) (epoch : ℕ) (x : PendingPrepare) : Type 0 where
  pub base : x.base_head ≡ head
  pub next : x.new_head.revision ≡ add_uint64 head.revision 1
  pub observed : x.observed_authority_epoch ≡ epoch

abbrev pub PrepareFor : ScoreHead → ℕ → Option PendingPrepare → Type 0
PrepareFor head epoch none = Unit {0}
PrepareFor head epoch (some x) = PrepareOf head epoch x

-- What a pending prepare, if there is one, has to do with the rest of the state.
abbrev pub PrepareMatches : State → Type 0
PrepareMatches s = PrepareFor s.score_head s.authority.epoch s.pending_prepare

for_some :
    (head : ScoreHead) (epoch : ℕ) (o : Option PendingPrepare)
    → ((x : PendingPrepare) → o ≡ some x → PrepareOf head epoch x)
    → PrepareFor head epoch o
for_some head epoch none h = tt
for_some head epoch (some x) h = h x refl

idle-PrepareMatches : (s : State) → is_some s.pending_prepare ≡ false → PrepareMatches s
idle-PrepareMatches s h =
    for_some s.score_head s.authority.epoch s.pending_prepare (λ x h'. absurd (ground arith))

module _ (t : EventType) (e : Event) (p : Fields) (s : State) where
  -- Without a pending prepare before, an event that writes none has none to match after.
  dispatch-idle :
      is_some s.pending_prepare ≡ false
      → (footprint t).prepare ≡ false
      → PrepareMatches (dispatch t e p s).1
  dispatch-idle none_pending h =
      let same =
        pick_lem (footprint t).prepare h
          (ap (λ (u : State). u.pending_prepare) (dispatch-Within t e p s)) in
      idle-PrepareMatches (dispatch t e p s).1 (ap is_some same ∙ none_pending)

  dispatch-unwritten :
      (footprint t).prepare ≡ false
      → (footprint t).score_head ≡ false
      → (footprint t).authority ≡ false
      → PrepareMatches s
      → PrepareMatches (dispatch t e p s).1
  dispatch-unwritten h1 h2 h3 old =
      let new = dispatch-Within t e p s in
      subst (λ x. PrepareFor (dispatch t e p s).1.score_head (dispatch t e p s).1.authority.epoch x)
        (sym (pick_lem (footprint t).prepare h1 (ap (λ (u : State). u.pending_prepare) new)))
        (subst (λ x. PrepareFor x (dispatch t e p s).1.authority.epoch s.pending_prepare)
          (sym (pick_lem (footprint t).score_head h2 (ap (λ (u : State). u.score_head) new)))
          (subst (λ x. PrepareFor s.score_head x.epoch s.pending_prepare)
            (sym (pick_lem (footprint t).authority h3 (ap (λ (u : State). u.authority) new))) old))

module _ (e : Event) (p : Fields) (s : State) where
  preparable-PrepareOf :
      (require_preparable e p s).0 ≡ ok tt
      → PrepareOf s.score_head s.authority.epoch (prepare_of e p s.score_head)
  unfolding require_preparable prepare_of
  preparable-PrepareOf h = record { base = refl; next = ground arith; observed = ground arith }

  prepared_checked :
      (on_amendment_approval_prepared e p s).0 ≡ ok tt → (require_preparable e p s).0 ≡ ok tt
  unfolding on_amendment_approval_prepared
  prepared_checked h = ground arith

  prepared_lem :
      (on_amendment_approval_prepared e p s).0 ≡ ok tt
      → (on_amendment_approval_prepared e p s).1
        ≡ record s { pending_prepare = some (prepare_of e p s.score_head) }
  unfolding on_amendment_approval_prepared
  prepared_lem h = ground (arith, state-require_preparable e p s)

  prepared-PrepareMatches :
      (on_amendment_approval_prepared e p s).0 ≡ ok tt
      → PrepareMatches (on_amendment_approval_prepared e p s).1
  prepared-PrepareMatches h =
      subst PrepareMatches (sym (prepared_lem h)) (preparable-PrepareOf (prepared_checked h))

  quiesced :
      (x : Option PendingPrepare)
      → s.pending_prepare ≡ x
      → PrepareFor s.score_head s.authority.epoch x
      → PrepareMatches (on_amendment_quiesce_observed e p s).1
  unfolding on_amendment_quiesce_observed
  quiesced none h old = idle-PrepareMatches (on_amendment_quiesce_observed e p s).1 (ground arith)
  quiesced (some x) h old =
      let base = old.base in
      let next = old.next in
      let observed = old.observed in
      for_some (on_amendment_quiesce_observed e p s).1.score_head
        (on_amendment_quiesce_observed e p s).1.authority.epoch
        (on_amendment_quiesce_observed e p s).1.pending_prepare
        (λ y new. record { base = ground arith; next = ground arith; observed = ground arith })

  abandoned-idle :
      (on_amendment_approval_abandoned e p s).0 ≡ ok tt
      → is_some (on_amendment_approval_abandoned e p s).1.pending_prepare ≡ false
  unfolding on_amendment_approval_abandoned
  abandoned-idle h = ground arith

  close-idle : (u : State) → (close_approval p u).pending_prepare ≡ none
  close-idle u = ap (λ (v : State). v.pending_prepare) (close_approval_lem p u)

  commit-idle :
      (u t : State)
      → (commit_approval e p u t).0 ≡ ok tt
      → is_some (commit_approval e p u t).1.pending_prepare ≡ false
  unfolding commit_approval
  commit-idle u t h = grind (arith, close-idle)

  approved-idle :
      (on_amendment_approved e p s).0 ≡ ok tt
      → is_some (on_amendment_approved e p s).1.pending_prepare ≡ false
  unfolding on_amendment_approved
  approved-idle h = grind (arith, commit-idle)

  cancelled-idle : (on_run_cancelled e p s).0 ≡ ok tt → is_some s.pending_prepare ≡ false
  unfolding on_run_cancelled require_cancellation
  cancelled-idle h = ground arith

barred-idle :
    (t : EventType) (o : Option PendingPrepare)
    → (is_some o ≡ false) ⊎ (prepare_pending_mutation t ≡ true)
    → prepare_pending_mutation t ≡ false
    → is_some o ≡ false
barred-idle t o (inl h) h' = h
barred-idle t o (inr h) h' = absurd (ground arith)

dispatch-PrepareMatches :
    (t : EventType) (e : Event) (p : Fields) (s : State)
    → (is_some s.pending_prepare ≡ false) ⊎ (prepare_pending_mutation t ≡ true)
    → (dispatch t e p s).0 ≡ ok tt
    → PrepareMatches s
    → PrepareMatches (dispatch t e p s).1
unfolding dispatch prepare_pending_mutation
dispatch-PrepareMatches run_started e p s b h old =
    dispatch-idle run_started e p s (barred-idle run_started s.pending_prepare b refl) refl
dispatch-PrepareMatches authority_granted e p s b h old =
    dispatch-idle authority_granted e p s (barred-idle authority_granted s.pending_prepare b refl)
      refl
dispatch-PrepareMatches run_cancelled e p s b h old =
    dispatch-idle run_cancelled e p s (cancelled-idle e p s h) refl
dispatch-PrepareMatches amendment_approval_prepared e p s b h old = prepared-PrepareMatches e p s h
dispatch-PrepareMatches amendment_quiesce_observed e p s b h old =
    quiesced e p s s.pending_prepare refl old
dispatch-PrepareMatches amendment_approval_abandoned e p s b h old =
    idle-PrepareMatches (dispatch amendment_approval_abandoned e p s).1 (abandoned-idle e p s h)
dispatch-PrepareMatches amendment_approved e p s b h old =
    idle-PrepareMatches (dispatch amendment_approved e p s).1 (approved-idle e p s h)
dispatch-PrepareMatches t e p s b h old = dispatch-unwritten t e p s refl refl refl old

-- While a prepare is pending, its base is the head of the state, its new revision the one after
-- (modulo 2^64), and its observed epoch the current one: each accepted event keeps this, and so
-- an approval finds the head and the authority that were prepared.
pub apply-PrepareMatches :
    (e : Event) (s : State)
    → (apply e s).0 ≡ ok tt
    → PrepareMatches s
    → PrepareMatches (apply e s).1
apply-PrepareMatches e s h old =
    let a = apply-Accepted e s h in
    let new = dispatch-PrepareMatches e.type e a.payload s a.barrier a.handled old in
    subst PrepareMatches (sym a.result) (
      subst PrepareMatches
        (sym (note_applied_lem e (terminal s.run) (dispatch e.type e a.payload s).1)) new)
