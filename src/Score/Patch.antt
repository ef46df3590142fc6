-- ===== src/Score/Patch.antt =====
-- internal/score/patch.go: `ApplyPatch`. The document is a copy there, so that a value takes its place.
-- The parent of a place is found along the parts of its pointer; the source escapes them again and
-- walks the pointer.
use partitur.Prelude.{
  ℕ, zero, suc, String, true, false, Option, none, some, List, [], ◌∷◌, str_eq, length,
  if◌then◌else◌,
}
use partitur.Json.{
  Fields, field, end, Value, obj, arr, null, get, items, as_object, string_field, value_eq,
  has_field,
}
use partitur.Score.Projection.{items_of}
use partitur.Score.Pointer.{patch_pointer, patch_array_index, pointer_is_child}

-- `object[name] = value`, for a name that may be there.
unfoldable pub set_field : String → Value → Fields → Fields
set_field name v end = field name v end
set_field name v (field k w fs) =
    let rest = set_field name v fs in if str_eq k name then field k v fs else field k w rest

-- `delete(object, name)`
unfoldable pub delete_field : String → Fields → Fields
delete_field name end = end
delete_field name (field k w fs) =
    let rest = delete_field name fs in if str_eq k name then rest else field k w rest

module _ {ℓ} {A : Type ℓ} where
  unfoldable pub element : ℕ → List A → Option A
  element n [] = none
  element zero (x ∷ xs) = some x
  element (suc n) (x ∷ xs) = element n xs

  unfoldable pub set_element : ℕ → A → List A → List A
  set_element n y [] = []
  set_element zero y (x ∷ xs) = y ∷ xs
  set_element (suc n) y (x ∷ xs) = x ∷ set_element n y xs

  unfoldable pub insert_element : ℕ → A → List A → List A
  insert_element zero y xs = y ∷ xs
  insert_element (suc n) y [] = y ∷ []
  insert_element (suc n) y (x ∷ xs) = x ∷ insert_element n y xs

  unfoldable pub delete_element : ℕ → List A → List A
  delete_element n [] = []
  delete_element zero (x ∷ xs) = xs
  delete_element (suc n) (x ∷ xs) = x ∷ delete_element n xs

-- One step of the walk of `patchValue`.
unfoldable pub child : Value → String → Option Value
child (obj fs) token = get fs token
child (arr vs) token = elim (patch_array_index token (length (items vs)) false) [
  | none ↦ none
  | some index ↦ element index (items vs)
]
child _ token = none

unfoldable pub walk : List String → Value → Option Value
walk [] v = some v
walk (t ∷ ts) v = elim (child v t) [ none ↦ none | some w ↦ walk ts w ]

-- `patchValue`
abbrev pub patch_value : Value → String → Option Value
patch_value document path = elim (patch_pointer path) [
  | none ↦ none
  | some parts ↦ walk parts document
]

-- A child that is there is replaced.
unfoldable pub set_child : String → Value → Value → Option Value
set_child token w (obj fs) = some (obj (set_field token w fs))
set_child token w (arr vs) = elim (patch_array_index token (length (items vs)) false) [
  | none ↦ none
  | some index ↦ some (arr (items_of (set_element index w (items vs))))
]
set_child token w _ = none

-- The parent that the parts lead to is changed, and the document with it.
unfoldable pub at_parent : (Value → String → Option Value) → List String → Value → Option Value
at_parent edit [] v = none
at_parent edit (t ∷ []) v = edit v t
at_parent edit (t ∷ u ∷ ts) v = elim (child v t) [
  | none ↦ none
  | some w ↦ elim (at_parent edit (u ∷ ts) w) [ none ↦ none | some x ↦ set_child t x v ]
]

unfoldable pub add_to : Value → Value → String → Option Value
add_to value (obj fs) token = some (obj (set_field token value fs))
add_to value (arr vs) token = elim (patch_array_index token (length (items vs)) true) [
  | none ↦ none
  | some index ↦ some (arr (items_of (insert_element index value (items vs))))
]
add_to value _ token = none

unfoldable pub replace_in : Value → Value → String → Option Value
replace_in value (obj fs) token =
    if has_field fs token then some (obj (set_field token value fs)) else none
replace_in value v token = set_child token value v

unfoldable pub remove_from : Value → String → Option Value
remove_from (obj fs) token = if has_field fs token then some (obj (delete_field token fs)) else none
remove_from (arr vs) token = elim (patch_array_index token (length (items vs)) false) [
  | none ↦ none
  | some index ↦ some (arr (items_of (delete_element index (items vs))))
]
remove_from _ token = none

-- The root, or the parent of the place.
abbrev pub at_place : Value → (Value → String → Option Value) → Value → String → Option Value
at_place root edit document path = elim (patch_pointer path) [
  | none ↦ none
  | some parts ↦ elim parts [ [] ↦ some root | t ∷ ts ↦ at_parent edit (t ∷ ts) document ]
]

-- `patchAdd`
abbrev pub patch_add : Value → String → Value → Option Value
patch_add document path value = at_place value (add_to value) document path

-- `patchReplace`
abbrev pub patch_replace : Value → String → Value → Option Value
patch_replace document path value = at_place value (replace_in value) document path

-- `patchRemove`
abbrev pub patch_remove : Value → String → Option Value
patch_remove document path = at_place null remove_from document path

abbrev pub with_value : Fields → (Value → Option Value) → Option Value
with_value op use_value = elim (get op "value") [ none ↦ none | some v ↦ use_value v ]

unfoldable pub patch_move : Value → String → String → Option Value
patch_move document from path =
    if pointer_is_child path from
    then none
    else if str_eq path from
    then some document
    else elim (patch_value document from) [
      | none ↦ none
      | some v ↦ elim (patch_remove document from) [
        | none ↦ none
        | some rest ↦ patch_add rest path v
      ]
    ]

unfoldable pub patch_copy : Value → String → String → Option Value
patch_copy document from path = elim (patch_value document from) [
  | none ↦ none
  | some v ↦ patch_add document path v
]

abbrev pub from_place :
    Fields → (Value → String → String → Option Value) → Value → String → Option Value
from_place op transfer document path = elim (string_field op "from") [
  | none ↦ none
  | some from ↦ elim (patch_pointer from) [ none ↦ none | some parts ↦ transfer document from path ]
]

unfoldable pub patch_test : Value → String → Value → Option Value
patch_test document path value = elim (patch_value document path) [
  | none ↦ none
  | some actual ↦ if value_eq actual value then some document else none
]

-- The switch of `ApplyPatch`.
unfoldable pub apply_operation : Value → Fields → String → String → Option Value
apply_operation document op name path =
    if str_eq name "add"
    then with_value op (patch_add document path)
    else if str_eq name "remove"
    then patch_remove document path
    else if str_eq name "replace"
    then with_value op (patch_replace document path)
    else if str_eq name "move"
    then from_place op patch_move document path
    else if str_eq name "copy"
    then from_place op patch_copy document path
    else if str_eq name "test"
    then with_value op (patch_test document path)
    else none

abbrev pub apply_object : Value → Fields → Option Value
apply_object document op = elim (string_field op "op") [
  | none ↦ none
  | some name ↦ elim (string_field op "path") [
    | none ↦ none
    | some path ↦ if str_eq name "" then none else elim (patch_pointer path) [
      | none ↦ none
      | some parts ↦ apply_operation document op name path
    ]
  ]
]

-- `ApplyPatch`
unfoldable pub apply_patch : Value → List Value → Option Value
apply_patch document [] = some document
apply_patch document (raw ∷ operations) = elim (as_object raw) [
  | none ↦ none
  | some op ↦ elim (apply_object document op) [
    | none ↦ none
    | some next ↦ apply_patch next operations
  ]
]
