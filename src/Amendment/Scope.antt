-- ===== src/Amendment/Scope.antt =====
-- internal/amendment/evaluator.go: which movements have started, and what lies downstream of one.
use partitur.Prelude.{
  ℕ, zero, suc, String, Bool, true, false, ◌&&◌, ◌||◌, not, List, [], ◌∷◌, str_eq, contains, equal,
  length, if◌then◌else◌,
}
use partitur.Dict.{Dict}
use partitur.RunState.Types.{Attempt}
use partitur.RunState.State.{State}
use partitur.Score.Views.{MovementView, PolicyView}

unfoldable pub any_attempt_of : String → Dict Attempt → Bool
any_attempt_of id [] = false
any_attempt_of id ((_, a) ∷ as_) = str_eq a.movement_id id || any_attempt_of id as_

-- `movementStarted`
abbrev pub movement_started : State → String → Bool
movement_started s id = any_attempt_of id s.attempts

-- `effectivePathsChanged`
abbrev pub effective_paths_changed : MovementView → PolicyView → PolicyView → Bool
effective_paths_changed m before after =
    (contains m.grants "repo_read" || contains m.grants "repo_write")
    && not (equal before.allowed_paths after.allowed_paths)

unfoldable pub any_within : List String → List String → Bool
any_within selected [] = false
any_within selected (n ∷ ns) = contains selected n || any_within selected ns

-- A movement that is not selected and needs one that is.
abbrev pub joins : MovementView → List String → Bool
joins m selected = not (contains selected m.id) && any_within selected m.needs

-- One pass of the loop of `movementOrDownstreamStarted`, with `changed`.
unfoldable pub pass : List MovementView → List String → Bool → List String × Bool
pass [] selected changed = (selected, changed)
pass (m ∷ ms) selected changed =
    pass ms (if joins m selected then m.id ∷ selected else selected) (changed || joins m selected)

-- The loop, on fuel.
unfoldable pub select_downstream : ℕ → List MovementView → List String → List String
select_downstream zero ms selected = selected
select_downstream (suc fuel) ms selected =
    let round = pass ms selected false in
    elim round.1 [ true ↦ select_downstream fuel ms round.0 | false ↦ round.0 ]

unfoldable pub any_started : State → List String → Bool
any_started s [] = false
any_started s (id ∷ ids) = movement_started s id || any_started s ids

-- As much fuel as there are movements, and one pass more.
abbrev pub downstream : List MovementView → String → List String
downstream ms id = select_downstream (suc (length ms)) ms (id ∷ [])

-- `movementOrDownstreamStarted`
unfoldable pub movement_or_downstream_started : List MovementView → State → String → Bool
movement_or_downstream_started ms s id = any_started s (downstream ms id)
