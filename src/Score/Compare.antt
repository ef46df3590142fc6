-- ===== src/Score/Compare.antt =====
-- internal/score/impact.go: `Compare`.
use partitur.Prelude.{String, not, ◌||◌, Option, none, some, List, [], ◌∷◌, str_leb, if◌then◌else◌}
use partitur.Dict.{Dict, lookup, has}
use partitur.Json.{Fields, Value, get, must_object, must_array, must_strings, must_int, value_eq}
use partitur.Score.Document.{Score}
use partitur.Score.Impact.{GrantChange, BudgetChange, Impact, set_difference, append_grant_change}
use partitur.Score.Projection.{projection_value}
use partitur.Score.Changes.{add_objects, sort_changes, score_changes}

unfoldable pub insert_grant : GrantChange → List GrantChange → List GrantChange
insert_grant g [] = g ∷ []
insert_grant g (h ∷ hs) =
    if str_leb g.movement_id h.movement_id then g ∷ h ∷ hs else h ∷ insert_grant g hs

unfoldable pub sort_grants : List GrantChange → List GrantChange
sort_grants [] = []
sort_grants (g ∷ gs) = insert_grant g (sort_grants gs)

-- The grants of `compareMovements`, for the movements of the first score and the new ones.
unfoldable pub kept_grants : Dict Fields → Dict Fields → List GrantChange → List GrantChange
kept_grants [] right gs = gs
kept_grants ((id, m) ∷ ms) right gs = kept_grants ms right (
    append_grant_change gs id (must_strings m "grants")
      (elim (lookup id right) [ none ↦ [] | some n ↦ must_strings n "grants" ]))

unfoldable pub new_grants : Dict Fields → Dict Fields → List GrantChange → List GrantChange
new_grants left [] gs = gs
new_grants left ((id, n) ∷ ns) gs =
    new_grants left ns
      (if has id left then gs else append_grant_change gs id [] (must_strings n "grants"))

-- `canonicalEqual`, on the field that a budget has in both policies.
unfoldable pub budget_change : Fields → Fields → String → Option BudgetChange
budget_change before after name = elim (get before name) [
  | none ↦ none
  | some b ↦ elim (get after name) [
    | none ↦ none
    | some a ↦
        if value_eq b a
        then none
        else some (record { before = must_int before name; after = must_int after name })
  ]
]

module _ (subtree_hash : String → Value → String) where
  unfoldable pub impact_between : Fields → Fields → Impact
  impact_between left right =
      let before = must_object left "policy" in
      let after = must_object right "policy" in
      let old = add_objects (must_array left "movements") [] in
      let new = add_objects (must_array right "movements") [] in
      record {
        score_changes = sort_changes (score_changes subtree_hash left right);
        allowed_paths =
            set_difference (must_strings before "allowed_paths")
              (must_strings after "allowed_paths");
        grants = sort_grants (new_grants old new (kept_grants old new []));
        side_effects =
            set_difference (must_strings before "side_effects") (must_strings after "side_effects");
        active_wall_clock_min =
            budget_change (must_object before "budget") (must_object after "budget")
              "active_wall_clock_min";
        retries_per_movement =
            budget_change (must_object before "budget") (must_object after "budget")
              "retries_per_movement";
      }

  -- `Compare`
  unfoldable pub compare : Score → Score → Option Impact
  compare before after =
      if not before.defaults_applied || not after.defaults_applied
      then none
      else some (impact_between (projection_value before) (projection_value after))
