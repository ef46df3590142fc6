-- ===== src/Amendment/Classes.antt =====
-- internal/amendment/evaluator.go: the envelope class of an impact, and the guard of each class.
use Prim.Native.String.{◌++◌ as ◌⧺◌}
use partitur.Prelude.{
  String, Bool, true, false, ◌&&◌, ◌||◌, not, Option, none, some, List, [], ◌∷◌, str_eq, is_empty,
  is_some, leb_ℤ, if◌then◌else◌,
}
use partitur.RunState.State.{State}
use partitur.Score.Document.{Score}
use partitur.Score.Views.{MovementView, PolicyView, movements, effective_policy}
use partitur.Score.Impact.{Change, GrantChange, BudgetChange, Impact}
use partitur.Amendment.Types.{EnvelopeClass}
use partitur.Amendment.Scope.{
  movement_started, effective_paths_changed, movement_or_downstream_started,
}

-- `amendmentPolicyChanged`
unfoldable pub any_selects : String → List Change → Bool
any_selects selector [] = false
any_selects selector (c ∷ cs) = str_eq c.selector selector || any_selects selector cs

abbrev pub amendment_policy_changed : Impact → Bool
amendment_policy_changed i = any_selects "/policy/amendment" i.score_changes

-- `changesOnly`
unfoldable pub changes_only : List Change → String → Bool
changes_only (c ∷ []) selector = str_eq c.selector selector && str_eq c.operation "replace"
changes_only _ selector = false

-- `changesOnlyBudget`
unfoldable pub changes_only_budget : List Change → Bool
changes_only_budget (c ∷ []) =
    str_eq c.selector "/policy/budget/active_wall_clock_min"
    || str_eq c.selector "/policy/budget/retries_per_movement"
changes_only_budget _ = false

abbrev pub keeps_paths : Impact → Bool
keeps_paths i = is_empty i.allowed_paths.added && is_empty i.allowed_paths.removed

abbrev pub keeps_effects : Impact → Bool
keeps_effects i = is_empty i.side_effects.added && is_empty i.side_effects.removed

abbrev pub keeps_budget : Impact → Bool
keeps_budget i = not (is_some i.active_wall_clock_min) && not (is_some i.retries_per_movement)

-- `onlyPaths`
unfoldable pub only_paths : Impact → Bool
only_paths i =
    is_empty i.allowed_paths.added
    && (not (is_empty i.allowed_paths.removed)
        && (is_empty i.grants
            && (keeps_effects i
                && (keeps_budget i && changes_only i.score_changes "/policy/allowed_paths"))))

abbrev grants_selector : String → String
grants_selector id = "/movements[id=" ⧺ (id ⧺ "]/grants")

abbrev removes_grants : List GrantChange → List Change → Bool
removes_grants (g ∷ []) cs =
    is_empty g.added
    && (not (is_empty g.removed) && changes_only cs (grants_selector g.movement_id))
removes_grants _ cs = false

-- `onlyOneGrantRemoval`
unfoldable pub only_one_grant_removal : Impact → Bool
only_one_grant_removal i =
    keeps_paths i
    && (removes_grants i.grants i.score_changes && (keeps_effects i && keeps_budget i))

-- A budget that does not go down ends the test.
abbrev falls : Option BudgetChange → Bool
falls none = true
falls (some c) = not (leb_ℤ c.before c.after)

abbrev only_one : Bool → Bool → Bool
only_one true b = not b
only_one false b = b

-- `onlyOneBudgetDecrease`
unfoldable pub only_one_budget_decrease : Impact → Bool
only_one_budget_decrease i =
    falls i.active_wall_clock_min
    && (falls i.retries_per_movement
        && (only_one (is_some i.active_wall_clock_min) (is_some i.retries_per_movement)
            && (keeps_paths i
                && (is_empty i.grants
                    && (keeps_effects i && changes_only_budget i.score_changes)))))

-- `classify`
unfoldable pub classify : Impact → Option EnvelopeClass
classify i =
    if only_paths i
    then some EnvelopeClass.narrow_paths
    else if only_one_grant_removal i
    then some EnvelopeClass.narrow_grants
    else if only_one_budget_decrease i
    then some EnvelopeClass.budget_decrease
    else none

unfoldable pub no_started_loses_paths : List MovementView → PolicyView → PolicyView → State → Bool
no_started_loses_paths [] before after s = true
no_started_loses_paths (m ∷ ms) before after s =
    not (effective_paths_changed m before after && movement_started s m.id)
    && no_started_loses_paths ms before after s

-- The source reads the first grant change of an impact of this class, which has one.
abbrev first_grant : List GrantChange → String
first_grant [] = ""
first_grant (g ∷ gs) = g.movement_id

-- `guardPasses`
unfoldable pub guard_passes : EnvelopeClass → Score → Score → State → Impact → Bool
guard_passes EnvelopeClass.narrow_paths before after s i =
    no_started_loses_paths (movements before) (effective_policy before) (effective_policy after) s
guard_passes EnvelopeClass.narrow_grants before after s i =
    not (movement_or_downstream_started (movements after) s (first_grant i.grants))
guard_passes EnvelopeClass.budget_decrease before after s i = true
