-- ===== src/Recovery/Clear.antt =====
-- internal/recovery/planner.go: when `Plan` goes on to the tables of the attempt and the scheduler.
use partitur.Prelude.{
  ◌≡◌, refl, arith, Bool, true, false, ◌&&◌, ◌||◌, not, none, some, List, [], ◌∷◌, is_some, ◌==◌,
  ltb, ◌↔◌,
}
use partitur.RunState.Types.{terminal, Authority}
use partitur.Recovery.Names.{ActionKind}
use partitur.Recovery.Types.{
  Input, Projection, ReferenceObservation, ReferenceKind, LeaseObservation,
}
use partitur.Recovery.Decision.{Decision}
use partitur.Recovery.Facts.{
  every_kind, is_missing, first_missing_of, first_missing_reference_reason,
  first_blocked_proposal_route,
}
use partitur.Recovery.Least.{
  first_missing_routed_request, first_revision_restart, first_composition_terminal,
}
use partitur.Recovery.Plan.{
  plan, plan_lease, plan_authority, plan_evidence, plan_requests, plan_continuation, plan_prepare,
  open_outside_adapter, waits_for_human, is_current_driver, is_dead,
}

abbrev goes_on : ActionKind → Bool
goes_on ActionKind.proceed_attempt = true
goes_on ActionKind.proceed_scheduler = true
goes_on _ = false

-- The decision is to go on to another table.
abbrev pub proceeds : Decision → Bool
proceeds d = elim d.action [ none ↦ false | some a ↦ goes_on a.kind ]

-- Each file that the journal refers to is there, with its hash.
unfoldable pub all_present : List ReferenceObservation → Bool
all_present [] = true
all_present (r ∷ rs) = r.present && all_present rs

-- No authority was ever granted, or this driver holds the lease of the current one.
abbrev pub holds_authority : Authority → LeaseObservation → Bool
holds_authority authority l =
    (not l.exists && authority.epoch == 0)
    || (l.exists
        && (l.readable
            && (l.epoch == authority.epoch
                && (is_some authority.owner
                    && (is_current_driver l.owner || (is_dead l.owner && authority.epoch == 0))))))

-- Nothing that `Plan` has to deal with first.
pub record Clear (i : Input) : Type 0 where
  pub tail : i.projection.tail_repair_required ≡ false
  pub run : terminal i.projection.state.run ≡ false
  pub lease : holds_authority i.projection.state.authority i.observations.lease ≡ true
  pub cancellation : i.projection.state.cancel_requested ≡ false
  pub prepare : i.projection.state.pending_prepare ≡ none
  pub human : waits_for_human i ≡ false
  pub interval : open_outside_adapter i.projection.state.open_execution ≡ false
  pub root : i.observations.root_snapshot_divergence ≡ false
  pub references : all_present i.observations.references ≡ true
  pub route : first_blocked_proposal_route i.projection.blocked_proposal_routes ≡ none
  pub request : first_missing_routed_request i.projection.state ≡ none
  pub restart : first_revision_restart i.projection.revision_restarts ≡ none
  pub composition : first_composition_terminal i.projection.composition_terminals ≡ none
  pub finalization : i.projection.finalization_eligible ≡ false

present-is_missing :
    (k : ReferenceKind) (rs : List ReferenceObservation)
    → all_present rs ≡ true
    → is_missing k rs ≡ false
unfolding all_present is_missing
present-is_missing k [] h = refl
present-is_missing k (r ∷ rs) h = ground (arith, present-is_missing k rs)

present-first_missing_of :
    (ks : List ReferenceKind) (rs : List ReferenceObservation)
    → all_present rs ≡ true
    → first_missing_of ks rs ≡ none
unfolding first_missing_of
present-first_missing_of [] rs h = refl
present-first_missing_of (k ∷ ks) rs h =
    ground (arith, present-is_missing k rs, present-first_missing_of ks rs)

none_missing : List ReferenceObservation → Bool
none_missing rs =
    not (is_missing ReferenceKind.artifact rs)
    && (not (is_missing ReferenceKind.review_subject_input rs)
        && (not (is_missing ReferenceKind.snapshot rs)
            && (not (is_missing ReferenceKind.change_set_ref rs)
                && (not (is_missing ReferenceKind.proposal_record rs)
                    && not (is_missing ReferenceKind.resolved_cast rs)))))

none_missing-present :
    (rs : List ReferenceObservation) → none_missing rs ≡ true → all_present rs ≡ true
unfolding none_missing is_missing all_present
none_missing-present [] h = refl
none_missing-present (r ∷ rs) h = ground (arith, none_missing-present rs)

-- The search for a missing reference finds one just if not all are present.
pub first_missing_reference_lem :
    (rs : List ReferenceObservation)
    → (first_missing_reference_reason rs ≡ none) ↔ (all_present rs ≡ true)
unfolding first_missing_reference_reason first_missing_of none_missing
first_missing_reference_lem rs =
    ((λ h. none_missing-present rs (ground arith)), (λ h. present-first_missing_of every_kind rs h))

continuation_lem :
    (p : Projection)
    → (proceeds (plan_continuation p) ≡ true) ↔ (
        (first_composition_terminal p.composition_terminals ≡ none)
        × (p.finalization_eligible ≡ false))
unfolding plan_continuation
continuation_lem p = ((λ h. ground arith), (λ h. ground arith))

requests_lem :
    (p : Projection)
    → (proceeds (plan_requests p) ≡ true) ↔ (
        (first_blocked_proposal_route p.blocked_proposal_routes ≡ none)
        × ((first_missing_routed_request p.state ≡ none)
            × ((first_revision_restart p.revision_restarts ≡ none)
                × (proceeds (plan_continuation p) ≡ true))))
unfolding plan_requests
requests_lem p = ((λ h. ground arith), (λ h. ground arith))

evidence_lem :
    (i : Input)
    → (proceeds (plan_evidence i) ≡ true) ↔ (
        (open_outside_adapter i.projection.state.open_execution ≡ false)
        × ((i.observations.root_snapshot_divergence ≡ false)
            × ((first_missing_reference_reason i.observations.references ≡ none)
                × (proceeds (plan_requests i.projection) ≡ true))))
unfolding plan_evidence
evidence_lem i = ((λ h. ground arith), (λ h. ground arith))

-- The lease and the authority let `Plan` go on.
abbrev authority_free : Input → Bool
authority_free i = not (
    ltb 0 i.projection.state.authority.epoch
    && (not i.observations.lease.exists || is_dead i.observations.lease.owner))

authority_lem :
    (i : Input)
    → (proceeds (plan_authority i) ≡ true) ↔ (
        (i.projection.state.cancel_requested ≡ false)
        × ((i.projection.state.pending_prepare ≡ none)
            × ((waits_for_human i ≡ false)
                × ((authority_free i ≡ true) × (proceeds (plan_evidence i) ≡ true)))))
unfolding plan_authority plan_prepare
authority_lem i = ((λ h. ground arith), (λ h. ground arith))

lease_lem :
    (i : Input)
    → ((plan_lease i.projection.state.authority i.observations.lease ≡ none)
        × (authority_free i ≡ true))
      ↔ (holds_authority i.projection.state.authority i.observations.lease ≡ true)
unfolding plan_lease
lease_lem i = ((λ h. ground arith), (λ h. ground arith))

lease-proceeds :
    (a : Authority) (l : LeaseObservation) (d : Decision)
    → plan_lease a l ≡ some d
    → proceeds d ≡ false
unfolding plan_lease
lease-proceeds a l d h = ground arith

plan_lem :
    (i : Input)
    → (proceeds (plan i) ≡ true) ↔ (
        (i.projection.tail_repair_required ≡ false)
        × ((terminal i.projection.state.run ≡ false)
            × ((plan_lease i.projection.state.authority i.observations.lease ≡ none)
                × (proceeds (plan_authority i) ≡ true))))
unfolding plan
plan_lem i =
    let out = lease-proceeds i.projection.state.authority i.observations.lease in
    ((λ h. grind (arith, out)), (λ h. ground arith))

-- `Plan` goes on to the table of the attempt or of the scheduler just if the journal's tail is
-- whole, the run is not over, the authority is this driver's or nobody's, there is no cancellation,
-- no prepare, nothing that waits for a human and no open interval outside the adapter, the root
-- has not diverged, every reference is there, and no request, restart, composition's end or
-- finalization is owed.
pub plan-Clear : (i : Input) → (proceeds (plan i) ≡ true) ↔ Clear i
plan-Clear i = (to, from)
  where
    to : proceeds (plan i) ≡ true → Clear i
    to h =
        let (tail, (run, (lease, go1))) = (plan_lem i).0 h in
        let (cancellation, (prepare, (human, (free, go2)))) = (authority_lem i).0 go1 in
        let (interval, (root, (references, go3))) = (evidence_lem i).0 go2 in
        let (route, (request, (restart, go4))) = (requests_lem i.projection).0 go3 in
        let (composition, finalization) = (continuation_lem i.projection).0 go4 in
        record {
          tail = tail;
          run = run;
          lease = (lease_lem i).0 (lease, free);
          cancellation = cancellation;
          prepare = prepare;
          human = human;
          interval = interval;
          root = root;
          references = (first_missing_reference_lem i.observations.references).0 references;
          route = route;
          request = request;
          restart = restart;
          composition = composition;
          finalization = finalization;
        }

    from : Clear i → proceeds (plan i) ≡ true
    from c =
        let (lease, free) = (lease_lem i).1 c.lease in
        let references = (first_missing_reference_lem i.observations.references).1 c.references in
        let go4 = (continuation_lem i.projection).1 (c.composition, c.finalization) in
        let go3 = (requests_lem i.projection).1 (c.route, (c.request, (c.restart, go4))) in
        let go2 = (evidence_lem i).1 (c.interval, (c.root, (references, go3))) in
        let go1 = (authority_lem i).1 (c.cancellation, (c.prepare, (c.human, (free, go2)))) in
        (plan_lem i).1 (c.tail, (c.run, (lease, go1)))
