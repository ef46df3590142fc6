-- ===== src/Score/Impact.antt =====
-- internal/score/impact.go: the impact of a change, and when a claim covers it.
use Prim.Native.String.{◌++◌ as ◌⧺◌}
use partitur.Prelude.{
  String, Bool, true, false, ◌&&◌, ◌||◌, not, Option, none, some, List, [], ◌∷◌, ◌++◌, map, str_eq,
  contains, is_empty, ℤ, pos, leb_ℤ, ltb_ℤ, bits64, of_bits64, ◌+◌, ◌-◌, ◌%◌, ◌^◌, zero, bool_ne,
  if◌then◌else◌,
}

pub record Change : Type 0 where
  pub selector : String
  pub operation : String
  pub before_hash : String
  pub after_hash : String

pub record SetChange : Type 0 where
  pub added : List String
  pub removed : List String

pub record GrantChange : Type 0 where
  pub movement_id : String
  pub added : List String
  pub removed : List String

pub record BudgetChange : Type 0 where
  pub before : ℤ
  pub after : ℤ

-- `Impact`, with `AuthorityImpact` and `BudgetImpact` spread out.
pub record Impact : Type 0 where
  pub score_changes : List Change
  pub allowed_paths : SetChange
  pub grants : List GrantChange
  pub side_effects : SetChange
  pub active_wall_clock_min : Option BudgetChange
  pub retries_per_movement : Option BudgetChange

-- `difference`
unfoldable pub difference : List String → List String → List String
difference [] right = []
difference (x ∷ xs) right =
    let rest = difference xs right in if contains right x then rest else x ∷ rest

-- `setDifference`
abbrev pub set_difference : List String → List String → SetChange
set_difference before after = record {
  added = difference after before;
  removed = difference before after;
}

-- `appendGrantChange`
unfoldable pub append_grant_change :
    List GrantChange → String → List String → List String → List GrantChange
append_grant_change changes id before after =
    let change = set_difference before after in
    if is_empty change.added && is_empty change.removed
    then changes
    else changes ++ record { movement_id = id; added = change.added; removed = change.removed } ∷ []

-- `isSubset`
unfoldable pub is_subset : List String → List String → Bool
is_subset [] containing = true
is_subset (x ∷ xs) containing = contains containing x && is_subset xs containing

-- `setContains`
abbrev pub set_contains : List String → List String → List String → List String → Bool
set_contains claim_added claim_removed added removed =
    is_subset added claim_added && is_subset removed claim_removed

-- The map by movement of `grantsContain`, in which the last change of a movement counts.
unfoldable pub last_grant : String → List GrantChange → Option GrantChange
last_grant id [] = none
last_grant id (g ∷ gs) = elim (last_grant id gs) [
  | some later ↦ some later
  | none ↦ if str_eq g.movement_id id then some g else none
]

abbrev covers_grant : Option GrantChange → GrantChange → Bool
covers_grant none g = false
covers_grant (some c) g = set_contains c.added c.removed g.added g.removed

-- `grantsContain`
unfoldable pub grants_contain : List GrantChange → List GrantChange → Bool
grants_contain claim [] = true
grants_contain claim (g ∷ gs) =
    covers_grant (last_grant g.movement_id claim) g && grants_contain claim gs

-- `int64` subtraction wraps around.
abbrev sub_int64 : ℤ → ℤ → ℤ
sub_int64 a b = of_bits64 ((bits64 a + (2 ^ 64 - bits64 b)) % 2 ^ 64)

abbrev direction : BudgetChange → ℤ
direction c = sub_int64 c.after c.before

-- `abs`, which leaves the least `int64` as it is.
abbrev abs : ℤ → ℤ
abs x = if ltb_ℤ x (pos 0) then sub_int64 (pos 0) x else x

abbrev is_zero : ℤ → Bool
is_zero (pos zero) = true
is_zero _ = false

abbrev covers_change : BudgetChange → BudgetChange → Bool
covers_change claim actual =
    not (
      is_zero (direction actual)
      || (is_zero (direction claim)
          || bool_ne (ltb_ℤ (direction actual) (pos 0)) (ltb_ℤ (direction claim) (pos 0))))
    && leb_ℤ (abs (direction actual)) (abs (direction claim))

-- `budgetContains`
unfoldable pub budget_contains : Option BudgetChange → Option BudgetChange → Bool
budget_contains claim none = true
budget_contains none (some actual) = false
budget_contains (some claim) (some actual) = covers_change claim actual

abbrev change_key : Change → String
change_key c = c.selector ⧺ ("\0" ⧺ c.operation)

-- `Impact.Contains`
unfoldable pub claim_contains : Impact → Impact → Bool
claim_contains claim actual =
    is_subset (map change_key actual.score_changes) (map change_key claim.score_changes)
    && (set_contains claim.allowed_paths.added claim.allowed_paths.removed
          actual.allowed_paths.added actual.allowed_paths.removed
        && (set_contains claim.side_effects.added claim.side_effects.removed
              actual.side_effects.added actual.side_effects.removed
            && (grants_contain claim.grants actual.grants
                && (budget_contains claim.active_wall_clock_min actual.active_wall_clock_min
                    && budget_contains claim.retries_per_movement actual.retries_per_movement))))
