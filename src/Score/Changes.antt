-- ===== src/Score/Changes.antt =====
-- internal/score/impact.go: the changes that `Compare` finds. The hash of a value under its selector,
-- canonical.Hash, is an operation. Maps are gone through in the order of their lists; the changes
-- are sorted at the end.
use Prim.Native.String.{◌++◌ as ◌⧺◌}
use partitur.Prelude.{
  ℕ, String, Bool, Option, none, some, List, [], ◌∷◌, ◌++◌, str_eq, str_leb, leb, equal,
  if◌then◌else◌,
}
use partitur.Dict.{Dict, insert, lookup, has}
use partitur.Json.{
  Fields, field, end, Value, obj, null, get, as_object, must_object, must_string, must_array,
  value_eq,
}
use partitur.Score.Impact.{Change}

abbrev object_of : Value → Fields
object_of v = elim (as_object v) [ none ↦ end | some fs ↦ fs ]

abbrev named : String → String → String
named base id = base ⧺ ("[id=" ⧺ (id ⧺ "]"))

-- `objectsByID`: the map, and the order.
unfoldable pub add_objects : List Value → Dict Fields → Dict Fields
add_objects [] d = d
add_objects (v ∷ vs) d = add_objects vs (insert (must_string (object_of v) "id") (object_of v) d)

unfoldable pub order_of : List Value → List String
order_of [] = []
order_of (v ∷ vs) = must_string (object_of v) "id" ∷ order_of vs

-- A map of objects.
unfoldable pub objects : Fields → Dict Fields
objects end = []
objects (field k v fs) = (k, object_of v) ∷ objects fs

abbrev operation_rank : String → ℕ
operation_rank o = if str_eq o "add" then 0 else if str_eq o "remove" then 1 else 2

-- The order of `sortImpact`.
abbrev change_leb : Change → Change → Bool
change_leb a b =
    if str_eq a.selector b.selector
    then leb (operation_rank a.operation) (operation_rank b.operation)
    else str_leb a.selector b.selector

unfoldable pub insert_change : Change → List Change → List Change
insert_change c [] = c ∷ []
insert_change c (d ∷ ds) = if change_leb c d then c ∷ d ∷ ds else d ∷ insert_change c ds

unfoldable pub sort_changes : List Change → List Change
sort_changes [] = []
sort_changes (c ∷ cs) = insert_change c (sort_changes cs)

module _ (subtree_hash : String → Value → String) where
  abbrev side_hash : String → Option Value → String
  side_hash selector none = ""
  side_hash selector (some null) = ""
  side_hash selector (some v) = subtree_hash selector v

  -- `addChange`
  abbrev change : String → String → Option Value → Option Value → Change
  change selector operation before after = record {
    selector = selector;
    operation = operation;
    before_hash = side_hash selector before;
    after_hash = side_hash selector after;
  }

  -- `compareField`
  unfoldable pub compare_field : String → Fields → Fields → String → List Change
  compare_field selector before after key = elim (get before key) [
    | none ↦ elim (get after key) [ none ↦ [] | some r ↦ change selector "add" none (some r) ∷ [] ]
    | some l ↦ elim (get after key) [
      | none ↦ change selector "remove" (some l) none ∷ []
      | some r ↦ if value_eq l r then [] else change selector "replace" (some l) (some r) ∷ []
    ]
  ]

  unfoldable pub compare_fields : String → Fields → Fields → List String → List Change
  compare_fields base before after [] = []
  compare_fields base before after (k ∷ ks) =
      compare_field (base ⧺ ("/" ⧺ k)) before after k ++ compare_fields base before after ks

  unfoldable pub kept_objects : String → Dict Fields → Dict Fields → List Change
  kept_objects base [] after = []
  kept_objects base ((id, v) ∷ vs) after =
      let rest = kept_objects base vs after in
      elim (lookup id after) [
        | none ↦ change (named base id) "remove" (some (obj v)) none ∷ rest
        | some w ↦
            if value_eq (obj v) (obj w)
            then rest
            else change (named base id) "replace" (some (obj v)) (some (obj w)) ∷ rest
      ]

  unfoldable pub new_objects : String → Dict Fields → Dict Fields → List Change
  new_objects base before [] = []
  new_objects base before ((id, w) ∷ ws) =
      let rest = new_objects base before ws in
      if has id before then rest else change (named base id) "add" none (some (obj w)) ∷ rest

  -- `compareIDObjects`
  unfoldable pub compare_id_objects : String → Dict Fields → Dict Fields → List Change
  compare_id_objects base before after =
      kept_objects base before after ++ new_objects base before after

  unfoldable pub reordered : String → Fields → Fields → String → List Change
  reordered selector before after name =
      if equal (order_of (must_array before name)) (order_of (must_array after name))
      then []
      else change selector "replace" (get before name) (get after name) ∷ []

  -- `compareIDArray`, on the arrays of a field that both have.
  unfoldable pub compare_id_array : String → Fields → Fields → String → List Change
  compare_id_array base before after name =
      compare_id_objects base (add_objects (must_array before name) [])
        (add_objects (must_array after name) [])
      ++ reordered base before after name

  unfoldable pub compare_movement : String → Fields → Fields → List Change
  compare_movement selector m n =
      let before = must_object m "acceptance" in
      let after = must_object n "acceptance" in
      let rules = selector ⧺ "/acceptance" in
      compare_fields selector m n (
        "id" ∷ "phase" ∷ "part" ∷ "needs" ∷ "grants" ∷ "instruction" ∷ "inputs" ∷ "may_propose"
        ∷ [])
      ++ (compare_id_array (selector ⧺ "/outputs") m n "outputs"
          ++ (compare_field (rules ⧺ "/human_gate") before after "human_gate"
              ++ (compare_id_array (rules ⧺ "/hard") before after "hard"
                  ++ compare_id_array (rules ⧺ "/review") before after "review")))

  unfoldable pub kept_movements : Dict Fields → Dict Fields → List Change
  kept_movements [] right = []
  kept_movements ((id, m) ∷ ms) right =
      let rest = kept_movements ms right in
      elim (lookup id right) [
        | none ↦ change (named "/movements" id) "remove" (some (obj m)) none ∷ rest
        | some n ↦ compare_movement (named "/movements" id) m n ++ rest
      ]

  -- The changes of `compareMovements`.
  unfoldable pub movement_changes : Fields → Fields → List Change
  movement_changes left right =
      let before = add_objects (must_array left "movements") [] in
      let after = add_objects (must_array right "movements") [] in
      kept_movements before after
      ++ (new_objects "/movements" before after ++ reordered "/movements" left right "movements")

  -- The changes of `comparePolicy`.
  unfoldable pub policy_changes : Fields → Fields → List Change
  policy_changes before after =
      compare_fields "/policy" before after ("amendment" ∷ "allowed_paths" ∷ "side_effects" ∷ [])
      ++ compare_fields "/policy/budget" (must_object before "budget") (must_object after "budget")
          ("active_wall_clock_min" ∷ "retries_per_movement" ∷ [])

  abbrev top_fields : List String
  top_fields =
      "score" ∷ "name" ∷ "revision" ∷ "status" ∷ "goal" ∷ "context" ∷ "draft" ∷ "open_questions"
      ∷ "verification" ∷ "extensions" ∷ []

  unfoldable pub score_changes : Fields → Fields → List Change
  score_changes left right =
      compare_fields "" left right top_fields
      ++ (compare_id_objects "/parts" (objects (must_object left "parts"))
            (objects (must_object right "parts"))
          ++ (movement_changes left right
              ++ policy_changes (must_object left "policy") (must_object right "policy")))
