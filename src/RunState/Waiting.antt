-- ===== src/RunState/Waiting.antt =====
-- internal/runstate/apply.go: the pending decisions and what waits on them, and the lists of
-- identifiers that an event must name.
use partitur.Prelude.{
  String, Bool, true, false, ◌&&◌, ◌||◌, not, Option, none, some, List, [], ◌∷◌, str_eq, sort,
  if◌then◌else◌,
}
use partitur.Dict.{Dict, lookup, insert, keys}
use partitur.RunState.Types.{
  RunLifecycle, MovementState, Attempt, ArtifactRecord, PendingDecision, terminal, ended,
}
use partitur.RunState.State.{State}

abbrev pub is_not_started : RunLifecycle → Bool
is_not_started RunLifecycle.not_started = true
is_not_started _ = false

abbrev pub is_running : RunLifecycle → Bool
is_running RunLifecycle.running = true
is_running _ = false

abbrev pub is_waiting : RunLifecycle → Bool
is_waiting RunLifecycle.waiting_human = true
is_waiting _ = false

abbrev pub movement_running : MovementState → Bool
movement_running MovementState.running = true
movement_running _ = false

abbrev pub movement_waiting : MovementState → Bool
movement_waiting MovementState.waiting_human = true
movement_waiting _ = false

-- Succeeded, or left out of the head.
abbrev pub movement_settled : MovementState → Bool
movement_settled MovementState.succeeded = true
movement_settled MovementState.inapplicable = true
movement_settled _ = false

abbrev pub movement_cancellable : MovementState → Bool
movement_cancellable MovementState.pending = true
movement_cancellable MovementState.ready = true
movement_cancellable MovementState.running = true
movement_cancellable MovementState.waiting_human = true
movement_cancellable _ = false

-- A test of a map's entry; a missing one has Go's zero value, which fails each test here.
abbrev pub holds {ℓ} : {A : Type ℓ} → (A → Bool) → Option A → Bool
holds test none = false
holds test (some a) = test a

-- The entry of a set that is kept as `map[string]bool`.
abbrev pub flag : String → Dict Bool → Bool
flag id d = holds (λ b. b) (lookup id d)

-- The body of the first loop of `refreshWaitingHuman`.
unfoldable pub hold_movement : PendingDecision → Dict MovementState → Dict MovementState
hold_movement d ms =
    if d.blocking
      && (not (str_eq d.movement_id "") && holds movement_running (lookup d.movement_id ms))
    then insert d.movement_id MovementState.waiting_human ms
    else ms

unfoldable pub hold_movements : Dict PendingDecision → Dict MovementState → Dict MovementState
unfolding hold_movement
hold_movements [] ms = ms
hold_movements ((_, d) ∷ ds) ms = hold_movements ds (hold_movement d ms)

unfoldable pub any_blocking : Dict PendingDecision → Bool
any_blocking [] = false
any_blocking ((_, d) ∷ ds) = d.blocking || any_blocking ds

abbrev pub released : MovementState → MovementState
released MovementState.waiting_human = MovementState.running
released m = m

-- The second loop of `refreshWaitingHuman`.
unfoldable pub release_movements : Dict MovementState → Dict MovementState
release_movements [] = []
release_movements ((id, m) ∷ ms) = (id, released m) ∷ release_movements ms

abbrev pub resumed : RunLifecycle → RunLifecycle
resumed RunLifecycle.waiting_human = RunLifecycle.running
resumed r = r

-- `refreshWaitingHuman`
unfoldable pub refresh_waiting_human : State → State
refresh_waiting_human s =
    let held = hold_movements s.pending_decisions s.movements in
    if terminal s.run || is_not_started s.run
    then record s { movements = held }
    else if any_blocking s.pending_decisions
    then record s { movements = held; run = RunLifecycle.waiting_human }
    else record s { movements = release_movements held; run = resumed s.run }

-- `closeAllPendingDecisions`
unfoldable pub close_all_pending_decisions : State → State
close_all_pending_decisions s = refresh_waiting_human (record s { pending_decisions = [] })

unfoldable pub live_movements : Dict MovementState → List String
live_movements [] = []
live_movements ((id, m) ∷ ms) =
    let rest = live_movements ms in if movement_cancellable m then id ∷ rest else rest

unfoldable pub live_attempts : Dict Attempt → List String
live_attempts [] = []
live_attempts ((id, a) ∷ as_) =
    let rest = live_attempts as_ in if ended a.state then rest else id ∷ rest

unfoldable pub keys_except : String → Dict PendingDecision → List String
keys_except excluded [] = []
keys_except excluded ((id, _) ∷ ds) =
    let rest = keys_except excluded ds in if str_eq id excluded then rest else id ∷ rest

unfoldable pub artifacts_of : String → Dict ArtifactRecord → List String
artifacts_of attempt_id [] = []
artifacts_of attempt_id ((id, a) ∷ as_) =
    let rest = artifacts_of attempt_id as_ in
    if str_eq a.attempt_id attempt_id then id ∷ rest else rest

-- `cancellableMovementIDs`
unfoldable pub cancellable_movement_ids : State → List String
cancellable_movement_ids s = sort (live_movements s.movements)

-- `cancellableAttemptIDs`
unfoldable pub cancellable_attempt_ids : State → List String
cancellable_attempt_ids s = sort (live_attempts s.attempts)

-- `pendingDecisionIDs`
unfoldable pub pending_decision_ids : State → List String
pending_decision_ids s = sort (keys s.pending_decisions)

-- `pendingDecisionIDsExcept`
unfoldable pub pending_decision_ids_except : State → String → List String
pending_decision_ids_except s excluded = sort (keys_except excluded s.pending_decisions)

-- `artifactIDsForAttempt`
unfoldable pub artifact_ids_for_attempt : State → String → List String
artifact_ids_for_attempt s attempt_id = sort (artifacts_of attempt_id s.artifacts)

-- `allOtherMovementsFinished`
unfoldable pub all_other_movements_finished : String → Dict MovementState → Bool
all_other_movements_finished id [] = true
all_other_movements_finished id ((j, m) ∷ ms) =
    (str_eq j id || movement_settled m) && all_other_movements_finished id ms

-- The loop over `RepoWriteMovements`: each of them has succeeded or is inapplicable.
unfoldable pub repo_writes_settled : Dict Bool → Dict MovementState → Bool
repo_writes_settled [] ms = true
repo_writes_settled ((id, _) ∷ rs) ms =
    holds movement_settled (lookup id ms) && repo_writes_settled rs ms
