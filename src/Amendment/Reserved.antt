-- ===== src/Amendment/Reserved.antt =====
-- internal/amendment/evaluator.go with internal/score/patch.go: a patch that touches no reserved field
-- leaves the reserved fields of a score as they are.
use Prim.Native.String.{◌++◌ as ◌⧺◌}
use text.Mathlib.Text.{starts_with}
use text.Mathlib.TextEquality.{starts_with_iff}
use text.Mathlib.TextLemmas.{append_assoc}
use partitur.Prelude.{
  ◌≡◌, refl, sym, ◌∙◌, subst, arith, String, true, false, not, ◌&&◌, ◌||◌, Option, some, List, [],
  ◌∷◌, str_eq, eq_iff, Bool-cases, Option-cases, inl, inr,
}
use partitur.Json.{Fields, Value, obj, null, get, string_field, as_object}
use partitur.Score.Pointer.{patch_pointer}
use partitur.Score.Parts.{plain, first_part, patch_pointer-some}
use partitur.Score.Patch.{
  at_place, add_to, replace_in, remove_from, patch_value, patch_add, patch_remove, patch_move,
  patch_copy, patch_test, with_value, from_place, apply_operation, apply_object, apply_patch,
}
use partitur.Score.Kept.{
  KeepsField, Careful, add_to-Careful, replace_in-Careful, remove_from-Careful,
  at_parent-KeepsField,
}
use partitur.Amendment.Evaluate.{
  under, reserved_pointer, operation_touches, touches_reserved, text_of,
}

under_named :
    (path k rest : String)
    → path ≡ "/" ⧺ (k ⧺ ("/" ⧺ rest))
    → starts_with path (("/" ⧺ k) ⧺ "/") ≡ true
under_named path k rest h =
    (starts_with_iff path (("/" ⧺ k) ⧺ "/")).1
      (rest, append_assoc ("/" ⧺ k) "/" rest ∙ append_assoc "/" k ("/" ⧺ rest) ∙ sym h)

-- A pointer that is not under a name does not begin with it.
first_other :
    (path k t : String) (ts : List String)
    → under ("/" ⧺ k) path ≡ false
    → plain k ≡ true
    → patch_pointer path ≡ some (t ∷ ts)
    → str_eq t k ≡ false
first_other path k t ts h p e = elim (Bool-cases (str_eq t k)) [
  | inr other ↦ other
  | inl same ↦ elim (first_part path k t ts e p ((eq_iff t k).0 same)) [
    | inl whole ↦ absurd (ground (arith, (eq_iff path ("/" ⧺ k)).1 whole))
    | inr (rest, whole) ↦ absurd (ground (arith, under_named path k rest whole))
  ]
]

text_of_lem : (op : Fields) (key s : String) → string_field op key ≡ some s → text_of op key ≡ s
unfolding string_field
text_of_lem op key s h = elim (Option-cases (get op key)) [
  | inl none_there ↦ absurd (ground arith)
  | inr (v, there) ↦ ground arith
]

module _ (k : String) (unescaped : plain k ≡ true)
    (apart : (path : String) → reserved_pointer path ≡ false → under ("/" ⧺ k) path ≡ false) where
  named_path : (path : String) → reserved_pointer path ≡ false → str_eq path "" ≡ false
  unfolding reserved_pointer
  named_path path h = ground arith

  place_lem :
      (root : Value) (edit : Value → String → Option Value) (fs : Fields) (path : String)
      (v : Value)
      → Careful k edit
      → reserved_pointer path ≡ false
      → at_place root edit (obj fs) path ≡ some v
      → KeepsField k fs v
  place_lem root edit fs path v careful h e = elim (Option-cases (patch_pointer path)) [
    | inl failed ↦ absurd (ground arith)
    | inr ([], parsed) ↦ absurd (patch_pointer-some path (named_path path h) parsed)
    | inr (t ∷ ts, parsed) ↦
        at_parent-KeepsField k edit t ts fs v careful
          (first_other path k t ts (apart path h) unescaped parsed) (ground arith)
  ]

  kept_trans :
      (fs gs : Fields) (v : Value) → get gs k ≡ get fs k → KeepsField k gs v → KeepsField k fs v
  kept_trans fs gs v h (hs, same, kept) = (hs, same, kept ∙ h)

  move_lem :
      (fs : Fields) (from path : String) (v : Value)
      → reserved_pointer from ≡ false
      → reserved_pointer path ≡ false
      → patch_move (obj fs) from path ≡ some v
      → KeepsField k fs v
  unfolding patch_move
  move_lem fs from path v h₁ h₂ e = elim (Bool-cases (str_eq path from)) [
    | inl same ↦ (fs, ground arith, refl)
    | inr other ↦ elim (Option-cases (patch_value (obj fs) from)) [
      | inl failed ↦ absurd (ground arith)
      | inr (w, found) ↦ elim (Option-cases (patch_remove (obj fs) from)) [
        | inl failed ↦ absurd (ground arith)
        | inr (rest, removed) ↦
            let (gs, same, kept) =
              place_lem null remove_from fs from rest (remove_from-Careful k) h₁ removed in
            let added : patch_add rest path w ≡ some v = ground arith in
            kept_trans fs gs v kept (
              place_lem w (add_to w) gs path v (add_to-Careful k w) h₂
                (subst (λ d. patch_add d path w ≡ some v) same added))
      ]
    ]
  ]

  copy_lem :
      (fs : Fields) (from path : String) (v : Value)
      → reserved_pointer path ≡ false
      → patch_copy (obj fs) from path ≡ some v
      → KeepsField k fs v
  unfolding patch_copy
  copy_lem fs from path v h e = elim (Option-cases (patch_value (obj fs) from)) [
    | inl failed ↦ absurd (ground arith)
    | inr (w, found) ↦ place_lem w (add_to w) fs path v (add_to-Careful k w) h (ground arith)
  ]

  test_lem :
      (fs op : Fields) (path : String) (v : Value)
      → with_value op (patch_test (obj fs) path) ≡ some v
      → KeepsField k fs v
  unfolding patch_test
  test_lem fs op path v e = elim (Option-cases (get op "value")) [
    | inl missing ↦ absurd (ground arith)
    | inr (w, there) ↦ elim (Option-cases (patch_value (obj fs) path)) [
      | inl failed ↦ absurd (ground arith)
      | inr (actual, found) ↦ (fs, ground arith, refl)
    ]
  ]

  value_lem :
      (fs op : Fields) (path : String) (v : Value) (edit : Value → Value → String → Option Value)
      → ((w : Value) → Careful k (edit w))
      → reserved_pointer path ≡ false
      → with_value op (λ w. at_place w (edit w) (obj fs) path) ≡ some v
      → KeepsField k fs v
  value_lem fs op path v edit careful h e = elim (Option-cases (get op "value")) [
    | inl missing ↦ absurd (ground arith)
    | inr (w, there) ↦ place_lem w (edit w) fs path v (careful w) h (ground arith)
  ]

  transfer_lem :
      (fs op : Fields) (path : String) (v : Value)
      (transfer : Value → String → String → Option Value)
      → ((from : String)
          → string_field op "from" ≡ some from
          → transfer (obj fs) from path ≡ some v
          → KeepsField k fs v)
      → from_place op transfer (obj fs) path ≡ some v
      → KeepsField k fs v
  transfer_lem fs op path v transfer keeps e = elim (Option-cases (string_field op "from")) [
    | inl missing ↦ absurd (ground arith)
    | inr (from, there) ↦ elim (Option-cases (patch_pointer from)) [
      | inl failed ↦ absurd (ground arith)
      | inr (parts, parsed) ↦ keeps from there (ground arith)
    ]
  ]

  module _ (fs op : Fields) (name path : String) (v : Value)
      (named : string_field op "op" ≡ some name) (placed : string_field op "path" ≡ some path)
      (free : operation_touches op ≡ false) where
    path_free : str_eq name "test" ≡ false → reserved_pointer path ≡ false
    path_free h = ground (arith, text_of_lem op "op" name, text_of_lem op "path" path)

    from_free :
        (from : String)
        → name ≡ "move"
        → string_field op "from" ≡ some from
        → reserved_pointer from ≡ false
    from_free from h there =
        let is_move = text_of_lem op "op" name named ∙ h in
        let is_from = text_of_lem op "from" from there in
        let of_move =
          subst
            (λ n.
              (not (str_eq n "test")
                && (reserved_pointer (text_of op "path")
                    || ((str_eq n "move" || str_eq n "copy")
                        && reserved_pointer (text_of op "from"))))
              ≡ false)
            is_move free in
        subst (λ p. reserved_pointer p ≡ false) is_from (ground arith)

    operation_lem : apply_operation (obj fs) op name path ≡ some v → KeepsField k fs v
    unfolding apply_operation
    operation_lem e = elim (Bool-cases (str_eq name "test")) [
      | inl test ↦
          test_lem fs op path v (
            subst (λ n. apply_operation (obj fs) op n path ≡ some v) ((eq_iff name "test").0 test)
              e)
      | inr other ↦ elim (Bool-cases (str_eq name "add")) [
        | inl add ↦
            value_lem fs op path v add_to (add_to-Careful k) (path_free other) (ground arith)
        | inr not_add ↦ elim (Bool-cases (str_eq name "remove")) [
          | inl remove ↦
              place_lem null remove_from fs path v (remove_from-Careful k) (path_free other)
                (ground arith)
          | inr not_remove ↦ elim (Bool-cases (str_eq name "replace")) [
            | inl replace ↦
                value_lem fs op path v replace_in (replace_in-Careful k) (path_free other)
                  (ground arith)
            | inr not_replace ↦ elim (Bool-cases (str_eq name "move")) [
              | inl move ↦
                  transfer_lem fs op path v patch_move
                    (λ from there moved.
                      move_lem fs from path v (from_free from ((eq_iff name "move").0 move) there)
                        (path_free other) moved)
                    (ground arith)
              | inr not_move ↦ elim (Bool-cases (str_eq name "copy")) [
                | inl copy ↦
                    transfer_lem fs op path v patch_copy
                      (λ from there copied. copy_lem fs from path v (path_free other) copied)
                      (ground arith)
                | inr unknown ↦ absurd (ground arith)
              ]
            ]
          ]
        ]
      ]
    ]

  object_lem :
      (fs op : Fields) (v : Value)
      → operation_touches op ≡ false
      → apply_object (obj fs) op ≡ some v
      → KeepsField k fs v
  object_lem fs op v free e = elim (Option-cases (string_field op "op")) [
    | inl missing ↦ absurd (ground arith)
    | inr (name, named) ↦ elim (Option-cases (string_field op "path")) [
      | inl missing ↦ absurd (ground arith)
      | inr (path, placed) ↦ elim (Option-cases (patch_pointer path)) [
        | inl failed ↦ absurd (ground arith)
        | inr (parts, parsed) ↦ operation_lem fs op name path v named placed free (ground arith)
      ]
    ]
  ]

  patch_lem :
      (operations : List Value) (fs : Fields) (v : Value)
      → touches_reserved operations ≡ false
      → apply_patch (obj fs) operations ≡ some v
      → KeepsField k fs v
  unfolding touches_reserved apply_patch
  patch_lem [] fs v free e = (fs, ground arith, refl)
  patch_lem (raw ∷ operations) fs v free e = elim (Option-cases (as_object raw)) [
    | inl other ↦ absurd (ground arith)
    | inr (op, there) ↦ elim (Option-cases (apply_object (obj fs) op)) [
      | inl failed ↦ absurd (ground arith)
      | inr (next, applied) ↦
          let (gs, same, kept) = object_lem fs op next (ground arith) applied in
          let later : apply_patch next operations ≡ some v = ground arith in
          kept_trans fs gs v kept (
            patch_lem operations gs v (ground arith)
              (subst (λ d. apply_patch d operations ≡ some v) same later))
    ]
  ]

-- A patch whose operations touch no reserved field, as the evaluator tests it, leaves an object an
-- object, with the members `status` and `revision` as they were.
pub apply_patch-KeepsField :
    (operations : List Value) (fs : Fields) (v : Value)
    → touches_reserved operations ≡ false
    → apply_patch (obj fs) operations ≡ some v
    → KeepsField "status" fs v × KeepsField "revision" fs v
unfolding plain reserved_pointer
apply_patch-KeepsField operations fs v free e = (
  patch_lem "status" refl (λ path h. ground arith) operations fs v free e,
  patch_lem "revision" refl (λ path h. ground arith) operations fs v free e,
)
