-- ===== src/RunState/Handlers/Prepare.antt =====
-- internal/runstate/apply.go: the prepared approval of an amendment, from `approval_prepared` to
-- `approved` or `approval_abandoned`.
use partitur.Prelude.{
  ℕ, String, Bool, true, false, ◌&&◌, ◌||◌, not, Option, none, some, List, [], ◌∷◌, str_eq, ltb,
  ◌==◌, is_some, equal, add_uint64, if◌then◌else◌,
}
use partitur.Dict.{lookup, insert, remove, has}
use partitur.Json.{
  Fields, get, must_string, must_strings, must_array, must_bool, must_uint, optional_uint,
  optional_string,
}
use partitur.RunState.Types.{
  MovementState, Attempt, AttemptState, ScoreHead, Authority, PendingPrepare, RoutedAmendment,
  terminal, ended,
}
use partitur.RunState.Event.{Event}
use partitur.RunState.State.{State}
use partitur.RunState.Action.{
  Action, pure, gets, some_or, ◌>>=◌, ◌>>◌, modify, raise_if, raise_unless, transition, invalid,
}
use partitur.RunState.Waiting.{
  is_not_started, close_all_pending_decisions, cancellable_attempt_ids, pending_decision_ids,
  pending_decision_ids_except,
}
use partitur.RunState.Guards.{put_attempt}
use partitur.RunState.Handlers.Head.{head_movements, reconciled_head}

abbrev new_head_of : Fields → ScoreHead
new_head_of p = record {
  revision = must_uint p "new_revision";
  semantic_hash = must_string p "new_snapshot_hash";
  file_hash = must_string p "new_snapshot_file_hash";
}

unfoldable pub prepare_of : Event → Fields → ScoreHead → PendingPrepare
prepare_of e p base = record {
  id = must_string p "prepare_id";
  proposal_id = must_string p "proposal_id";
  mode = must_string p "mode";
  decision_id = optional_string p "decision_id";
  envelope_class = must_string p "envelope_class";
  base_head = base;
  new_head = new_head_of p;
  plan_record_hash = must_string p "plan_record_hash";
  observed_authority_epoch = must_uint p "observed_authority_epoch";
  quiesce_silence_limit_ms = must_uint p "quiesce_silence_limit_ms";
  prepared_at = e.timestamp;
  latest_quiesce_round = 0;
  latest_quiesce_observed_at = "";
  target_attempt_ids = must_strings p "target_attempt_ids";
  classifier_version = must_uint p "classifier_version";
  identity_versions = get p "identity_versions";
}

-- The checks of `case EventAmendmentApprovalPrepared`.
unfoldable pub require_preparable : Event → Fields → Action (Unit {0})
require_preparable e p = do
  prepared ← gets (λ s. is_some s.pending_prepare)
  raise_if prepared (transition e "prepare already pending")
  run ← gets (λ s. s.run)
  raise_if (is_not_started run || terminal run) (transition e "run is not nonterminal")
  head ← gets (λ s. s.score_head)
  raise_unless
      (head.revision == must_uint p "base_revision"
        && str_eq head.semantic_hash (must_string p "base_hash"))
      (transition e "prepare base does not match score head")
  raise_unless (must_uint p "new_revision" == add_uint64 (must_uint p "base_revision") 1)
      (invalid e "new_revision must immediately follow base_revision")
  epoch ← gets (λ s. s.authority.epoch)
  raise_unless (must_uint p "observed_authority_epoch" == epoch)
      (invalid e "observed_authority_epoch does not match current authority")
  attempts ← gets cancellable_attempt_ids
  raise_unless (equal (must_strings p "target_attempt_ids") attempts)
      (invalid e "target_attempt_ids do not match the pre-event projection")

-- `case EventAmendmentApprovalPrepared`
unfoldable pub on_amendment_approval_prepared : Event → Fields → Action (Unit {0})
unfolding prepare_of
on_amendment_approval_prepared e p = do
  require_preparable e p
  modify (λ s. record s { pending_prepare = some (prepare_of e p s.score_head) })

abbrev prepare_with : (PendingPrepare → Bool) → Option PendingPrepare → Option PendingPrepare
prepare_with test none = none
prepare_with test (some x) = elim (test x) [ true ↦ some x | false ↦ none ]

abbrev pending_with : (PendingPrepare → Bool) → Event → Action PendingPrepare
pending_with test e = do
  found ← gets (λ s. s.pending_prepare)
  some_or (prepare_with test found) (transition e "matching prepare is not pending")

abbrev advance_round : Event → ℕ → PendingPrepare → Action (Unit {0})
advance_round e round x = do
  raise_if (ltb round x.latest_quiesce_round) (transition e "quiesce sweep_round is stale")
  raise_unless (round == add_uint64 x.latest_quiesce_round 1)
      (invalid e "quiesce sweep_round must advance by exactly one")
  modify (λ s. record s {
    pending_prepare =
        some (record x { latest_quiesce_round = round; latest_quiesce_observed_at = e.timestamp });
  })

-- `case EventAmendmentQuiesceObserved`: a repeated round changes nothing.
unfoldable pub on_amendment_quiesce_observed : Event → Fields → Action (Unit {0})
on_amendment_quiesce_observed e p = do
  x ← pending_with (λ x. str_eq x.id (must_string p "prepare_id")) e
  let round = must_uint p "sweep_round"
  raise_if (round == 0) (invalid e "quiesce sweep_round must start at one")
  elim (round == x.latest_quiesce_round) [ true ↦ pure tt | false ↦ advance_round e round x ]

abbrev base_matches : Fields → PendingPrepare → Bool
base_matches p x =
    x.base_head.revision == must_uint p "base_revision"
    && str_eq x.base_head.semantic_hash (must_string p "base_hash")

-- `case EventAmendmentApprovalAbandoned`
unfoldable pub on_amendment_approval_abandoned : Event → Fields → Action (Unit {0})
on_amendment_approval_abandoned e p = do
  x ←
      pending_with
        (λ x.
          str_eq x.id (must_string p "prepare_id")
          && str_eq x.proposal_id (must_string p "proposal_id"))
        e
  raise_unless (base_matches p x) (invalid e "abandoned base does not match pending prepare")
  modify (λ s. record s { pending_prepare = none })

abbrev same_some : Option String → Option String → Bool
same_some (some a) (some b) = str_eq a b
same_some _ _ = false

-- The `switch` on the prepared mode.
unfoldable pub policy_matches : Fields → PendingPrepare → Bool
policy_matches p x =
    if str_eq x.mode "auto"
    then str_eq (must_string p "envelope_class") x.envelope_class
    else if str_eq x.mode "human"
    then same_some (optional_string p "decision_id") x.decision_id
    else true

abbrev head_eq : ScoreHead → ScoreHead → Bool
head_eq a b =
    a.revision == b.revision
    && str_eq a.semantic_hash b.semantic_hash
    && str_eq a.file_hash b.file_hash

abbrev is_finalization : Option RoutedAmendment → Bool
is_finalization none = false
is_finalization (some r) = str_eq r.decision_type "finalization"

abbrev obsoleted_with : PendingPrepare → Option String → State → List String
obsoleted_with x none s = pending_decision_ids s
obsoleted_with x (some id) s =
    if str_eq x.mode "human" then pending_decision_ids_except s id else pending_decision_ids s

-- The decisions that an approval closes: in human mode, all but its own.
unfoldable pub obsoleted_by : PendingPrepare → State → List String
obsoleted_by x s = obsoleted_with x x.decision_id s

abbrev live_attempt : Option Attempt → Option Attempt
live_attempt none = none
live_attempt (some a) = elim (ended a.state) [ true ↦ none | false ↦ some a ]

-- The loop that supersedes the live attempts.
unfoldable pub supersede : Event → List String → Action (Unit {0})
supersede e [] = pure tt
supersede e (id ∷ ids) = do
  found ← gets (λ s. lookup id s.attempts)
  a ← some_or (live_attempt found) (invalid e "superseded_attempt_ids contains a non-live attempt")
  modify (put_attempt id (record a { state = AttemptState.superseded }))
  supersede e ids

abbrev settle_interview : Bool → Event → State → State
settle_interview false e s = s
settle_interview true e s = record s {
  movements = insert e.movement_id MovementState.succeeded s.movements;
}

abbrev fenced_authority : Option ℕ → Authority → Authority
fenced_authority none a = a
fenced_authority (some epoch) a = record { epoch = epoch; owner = none }

abbrev fence_allowed : Option ℕ → ℕ → Bool
fence_allowed none observed = true
fence_allowed (some epoch) observed = epoch == add_uint64 observed 1

abbrev drop_routed : Fields → State → State
drop_routed p s =
    if str_eq (must_string p "mode") "human"
    then record s { routed_amendments = remove (must_string p "proposal_id") s.routed_amendments }
    else s

-- The comparisons of an approval with its prepare.
unfoldable pub require_prepared : Event → Fields → Action PendingPrepare
unfolding policy_matches
require_prepared e p = do
  x ← pending_with (λ x. str_eq x.proposal_id (must_string p "proposal_id")) e
  raise_unless (base_matches p x) (invalid e "approved base does not match pending prepare")
  raise_unless
      (str_eq (must_string p "mode") x.mode
        && must_uint p "classifier_version" == x.classifier_version)
      (invalid e "approved policy binding does not match pending prepare")
  raise_unless (policy_matches p x)
      (invalid e "approved policy binding does not match pending prepare")
  raise_unless (head_eq (new_head_of p) x.new_head)
      (invalid e "approved head does not match pending prepare")
  raise_unless (e.score_revision == must_uint p "new_revision")
      (invalid e "approval envelope revision does not match the new head")
  routed ← gets (λ s. lookup (must_string p "proposal_id") s.routed_amendments)
  raise_if
      (must_bool p "finalization"
        && (not (str_eq x.mode "human") || str_eq e.movement_id "" || not (is_finalization routed)))
      (invalid e "finalization approval does not match a routed finalization")
  obsoleted ← gets (obsoleted_by x)
  raise_unless (equal (must_strings p "obsoleted_decision_ids") obsoleted)
      (invalid e "obsoleted_decision_ids do not match the pre-event projection")
  pure x

-- The checks of the approved head, with the state that it gives.
unfoldable pub require_head : Event → Fields → PendingPrepare → Action State
require_head e p x = do
  head ← some_or (head_movements (must_array p "head_movements")) (invalid e "head_movements")
  s ← gets (λ s. s)
  new ← some_or (reconciled_head head s) (invalid e "head_movements removes succeeded movement")
  raise_if (must_bool p "finalization" && not (has e.movement_id new.movements))
      (invalid e "finalization interview movement is absent from approved head")
  raise_unless (equal (must_strings p "superseded_attempt_ids") (cancellable_attempt_ids s))
      (invalid e "superseded_attempt_ids do not match the pre-event projection")
  raise_unless (s.authority.epoch == x.observed_authority_epoch)
      (invalid e "authority epoch does not match pending prepare observation")
  raise_unless (fence_allowed (optional_uint p "fenced_epoch") x.observed_authority_epoch)
      (invalid e "fenced_epoch is not observed authority epoch plus one")
  pure new

-- The end of the approval: the fence, the prepare, the route and the decisions.
unfoldable pub close_approval : Fields → State → State
close_approval p s = close_all_pending_decisions (
    drop_routed p (record s {
      authority = fenced_authority (optional_uint p "fenced_epoch") s.authority;
      pending_prepare = none;
    }))

-- The state with the approved head, before its attempts are superseded.
unfoldable pub take_head : Event → Fields → State → State
take_head e p new = record (settle_interview (must_bool p "finalization") e new) {
  score_head = new_head_of p;
  resolved_decisions = [];
}

-- The writes of `case EventAmendmentApproved`, from the state with the approved movements.
unfoldable pub commit_approval : Event → Fields → State → Action (Unit {0})
commit_approval e p new = do
  modify (λ _. take_head e p new)
  supersede e (must_strings p "superseded_attempt_ids")
  modify (close_approval p)

-- `case EventAmendmentApproved`
unfoldable pub on_amendment_approved : Event → Fields → Action (Unit {0})
on_amendment_approved e p = do
  x ← require_prepared e p
  new ← require_head e p x
  commit_approval e p new
