-- ===== src/Score/Narrower.antt =====
-- internal/score/impact.go: what an impact that adds nothing says of the two scores.
use partitur.Prelude.{
  ◌≡◌, refl, ap, ◌∙◌, subst, arith, String, Bool, true, ◌||◌, Option, none, some, List, [], ◌∷◌,
  map, str_eq, eq_iff, contains, is_empty, leb_ℤ, if◌then◌else◌, Bool-cases, inl, inr,
}
use partitur.Json.{
  Value, Number, str, num, items, get, strings_of, must_object, must_array, must_strings, must_int,
  value_eq,
}
use partitur.Canonical.{insert_canonical, sorted_strings}
use partitur.Score.Document.{Score}
use partitur.Score.Impact.{BudgetChange, Impact, difference}
use partitur.Score.Compare.{budget_change, impact_between, compare}
use partitur.Score.Projection.{items_of, project_policy, projection_value}

pub strings_kept : (ss : List String) → strings_of (items (items_of (map str ss))) ≡ ss
unfolding strings_of items items_of
strings_kept [] = refl
strings_kept (s ∷ ss) = ap (λ ts. s ∷ ts) (strings_kept ss)

paths_kept :
    (s : Score)
    → must_strings (must_object (projection_value s) "policy") "allowed_paths"
      ≡ sorted_strings s.policy.allowed_paths
unfolding must_strings must_array must_object get projection_value project_policy items
paths_kept s = strings_kept (sorted_strings s.policy.allowed_paths)

effects_kept :
    (s : Score)
    → must_strings (must_object (projection_value s) "policy") "side_effects"
      ≡ sorted_strings s.policy.side_effects
unfolding must_strings must_array must_object get projection_value project_policy items
effects_kept s = strings_kept (sorted_strings s.policy.side_effects)

contains-insert_canonical :
    (x y : String) (ys : List String)
    → contains (insert_canonical y ys) x ≡ (str_eq y x || contains ys x)
unfolding insert_canonical
contains-insert_canonical x y [] = refl
contains-insert_canonical x y (z ∷ ys) = ground (arith, contains-insert_canonical x y ys)

contains-sorted_strings :
    (x : String) (ys : List String) → contains (sorted_strings ys) x ≡ contains ys x
unfolding sorted_strings
contains-sorted_strings x [] = refl
contains-sorted_strings x (y ∷ ys) =
    ground (arith, contains-sorted_strings x ys, contains-insert_canonical x y (sorted_strings ys))

difference-empty :
    (left right : List String) (x : String)
    → is_empty (difference left right) ≡ true
    → contains left x ≡ true
    → contains right x ≡ true
unfolding difference
difference-empty [] right x h k = absurd (ground arith)
difference-empty (y ∷ left) right x h k = elim (Bool-cases (str_eq y x)) [
  | inl same ↦ subst (λ z. contains right z ≡ true) ((eq_iff y x).0 same) (ground arith)
  | inr other ↦ ground (arith, difference-empty left right x)
]

leb_ℤ_refl : (a b : Number) → value_eq (num a) (num b) ≡ true → leb_ℤ b.truncated a.truncated ≡ true
unfolding value_eq
leb_ℤ_refl a b h = ground arith

-- The second score allows no path and no side effect that the first does not, and has no larger
-- budget.
pub record Narrower (before after : Score) : Type 0 where
  pub paths :
      (x : String)
      → contains after.policy.allowed_paths x ≡ true
      → contains before.policy.allowed_paths x ≡ true
  pub effects :
      (x : String)
      → contains after.policy.side_effects x ≡ true
      → contains before.policy.side_effects x ≡ true
  pub wall_clock :
      leb_ℤ after.policy.budget.active_wall_clock_min.truncated
        before.policy.budget.active_wall_clock_min.truncated
      ≡ true
  pub retries :
      leb_ℤ after.policy.budget.retries_per_movement.truncated
        before.policy.budget.retries_per_movement.truncated
      ≡ true

wall_clock_lem :
    (before after : Score)
    → budget_change
        (must_object (must_object (projection_value before) "policy") "budget")
        (must_object (must_object (projection_value after) "policy") "budget")
        "active_wall_clock_min"
      ≡ (if value_eq
            (num before.policy.budget.active_wall_clock_min)
            (num after.policy.budget.active_wall_clock_min)
          then none
          else some (record {
            before = before.policy.budget.active_wall_clock_min.truncated;
            after = after.policy.budget.active_wall_clock_min.truncated;
          }))
unfolding budget_change must_object get projection_value project_policy must_int
wall_clock_lem before after = refl

retries_lem :
    (before after : Score)
    → budget_change
        (must_object (must_object (projection_value before) "policy") "budget")
        (must_object (must_object (projection_value after) "policy") "budget")
        "retries_per_movement"
      ≡ (if value_eq
            (num before.policy.budget.retries_per_movement)
            (num after.policy.budget.retries_per_movement)
          then none
          else some (record {
            before = before.policy.budget.retries_per_movement.truncated;
            after = after.policy.budget.retries_per_movement.truncated;
          }))
unfolding budget_change must_object get projection_value project_policy must_int
retries_lem before after = refl

abbrev pub does_not_rise : Option BudgetChange → Bool
does_not_rise none = true
does_not_rise (some c) = leb_ℤ c.after c.before

not_raised :
    (a b : Number)
    → does_not_rise (
        if value_eq (num a) (num b)
        then none
        else some (record { before = a.truncated; after = b.truncated }))
      ≡ true
    → leb_ℤ b.truncated a.truncated ≡ true
not_raised a b h = ground (arith, leb_ℤ_refl a b)

pub added-within :
    (before after : List String) (x : String)
    → is_empty (difference (sorted_strings after) (sorted_strings before)) ≡ true
    → contains after x ≡ true
    → contains before x ≡ true
added-within before after x h k = ground (
  arith,
  difference-empty (sorted_strings after) (sorted_strings before) x,
  contains-sorted_strings x before,
  contains-sorted_strings x after,
)

module _ (subtree_hash : String → Value → String) (before after : Score) (impact : Impact)
    (compared : compare subtree_hash before after ≡ some impact) where
  pub impact_lem :
      impact ≡ impact_between subtree_hash (projection_value before) (projection_value after)
  unfolding compare
  impact_lem = ground arith

  added_paths_lem :
      impact.allowed_paths.added
      ≡ difference
          (sorted_strings after.policy.allowed_paths)
          (sorted_strings before.policy.allowed_paths)
  unfolding impact_between
  added_paths_lem = ground (arith, impact_lem, paths_kept before, paths_kept after)

  added_effects_lem :
      impact.side_effects.added
      ≡ difference
          (sorted_strings after.policy.side_effects)
          (sorted_strings before.policy.side_effects)
  unfolding impact_between
  added_effects_lem = ground (arith, impact_lem, effects_kept before, effects_kept after)

  wall_clock_kept :
      impact.active_wall_clock_min
      ≡ budget_change
          (must_object (must_object (projection_value before) "policy") "budget")
          (must_object (must_object (projection_value after) "policy") "budget")
          "active_wall_clock_min"
  unfolding impact_between
  wall_clock_kept = ap (λ i. i.active_wall_clock_min) impact_lem

  retries_kept :
      impact.retries_per_movement
      ≡ budget_change
          (must_object (must_object (projection_value before) "policy") "budget")
          (must_object (must_object (projection_value after) "policy") "budget")
          "retries_per_movement"
  unfolding impact_between
  retries_kept = ap (λ i. i.retries_per_movement) impact_lem

  pub compare-Narrower :
      is_empty impact.allowed_paths.added ≡ true
      → is_empty impact.side_effects.added ≡ true
      → does_not_rise impact.active_wall_clock_min ≡ true
      → does_not_rise impact.retries_per_movement ≡ true
      → Narrower before after
  compare-Narrower no_path no_effect clock retry = record {
    paths = λ x h.
        added-within before.policy.allowed_paths after.policy.allowed_paths x
          (subst (λ ss. is_empty ss ≡ true) added_paths_lem no_path) h;
    effects = λ x h.
        added-within before.policy.side_effects after.policy.side_effects x
          (subst (λ ss. is_empty ss ≡ true) added_effects_lem no_effect) h;
    wall_clock =
        not_raised before.policy.budget.active_wall_clock_min
          after.policy.budget.active_wall_clock_min
          (subst (λ c. does_not_rise c ≡ true) (wall_clock_kept ∙ wall_clock_lem before after)
            clock);
    retries =
        not_raised before.policy.budget.retries_per_movement
          after.policy.budget.retries_per_movement
          (subst (λ c. does_not_rise c ≡ true) (retries_kept ∙ retries_lem before after) retry);
  }
