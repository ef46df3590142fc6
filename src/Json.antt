-- ===== src/Json.antt =====
-- The JSON values that `encoding/json` hands to internal/runstate, and the accessors at the end of
-- internal/runstate/apply.go.
use partitur.Prelude.{
  ℕ, String, Bool, true, false, ◌&&◌, not, Option, none, some, List, [], ◌∷◌, ℤ, pos, pos_part,
  neg_part, bits64, length, ◌==◌, str_eq, is_some, bool_ne, if◌then◌else◌,
}

-- A finite `float64`: what `int64` makes of it, and what that drops, in units of 2^-1074.
pub record Number : Type 0 where
  pub truncated : ℤ
  pub fraction : ℕ

mutual
  pub data Fields : Type 0 where
    field : String → Value → Fields → Fields
    end : Fields

  pub data Value : Type 0 where
    str : String → Value
    obj : Fields → Value
    bool : Bool → Value
    num : Number → Value
    arr : Items → Value
    null : Value

  pub data Items : Type 0 where
    cons : Value → Items → Items
    nil : Items

-- `value, ok := object[name]`
unfoldable pub get : Fields → String → Option Value
get end name = none
get (field k v fs) name = if str_eq k name then some v else get fs name

abbrev pub has_field : Fields → String → Bool
has_field fs name = is_some (get fs name)

unfoldable pub items : Items → List Value
items nil = []
items (cons v vs) = v ∷ items vs

unfoldable pub names : Fields → List String
names end = []
names (field k v fs) = k ∷ names fs

-- The type assertions `v.(string)` and so on.
abbrev pub as_object : Value → Option Fields
as_object (obj fs) = some fs
as_object _ = none

abbrev pub as_array : Value → Option (List Value)
unfolding items
as_array (arr vs) = some (items vs)
as_array _ = none

abbrev pub as_string : Value → Option String
as_string (str s) = some s
as_string _ = none

abbrev pub as_bool : Value → Option Bool
as_bool (bool b) = some b
as_bool _ = none

abbrev pub as_number : Value → Option Number
as_number (num n) = some n
as_number _ = none

abbrev or_empty {ℓ} : {A : Type ℓ} → Option (List A) → List A
or_empty none = []
or_empty (some xs) = xs

abbrev or_blank : Option String → String
or_blank none = ""
or_blank (some s) = s

abbrev or_false : Option Bool → Bool
or_false none = false
or_false (some b) = b

abbrev or_zero : Option Number → ℤ
or_zero none = pos 0
or_zero (some n) = n.truncated

abbrev then_as {ℓ κ} : {A : Type ℓ} {B : Type κ} → (A → Option B) → Option A → Option B
then_as f none = none
then_as f (some v) = f v

abbrev or_end : Option Fields → Fields
or_end none = end
or_end (some fs) = fs

unfoldable pub must_object : Fields → String → Fields
must_object fs name = or_end (then_as as_object (get fs name))

-- Also `stringOrEmpty`, whose body is the same.
unfoldable pub must_string : Fields → String → String
must_string fs name = or_blank (then_as as_string (get fs name))

-- `value[name].([]any)`, which the validation of a payload guards.
unfoldable pub must_array : Fields → String → List Value
must_array fs name = or_empty (then_as as_array (get fs name))

unfoldable pub strings_of : List Value → List String
strings_of [] = []
strings_of (v ∷ vs) = or_blank (as_string v) ∷ strings_of vs

unfoldable pub must_strings : Fields → String → List String
unfolding must_array strings_of
must_strings fs name = strings_of (must_array fs name)

unfoldable pub must_bool : Fields → String → Bool
must_bool fs name = or_false (then_as as_bool (get fs name))

unfoldable pub must_int : Fields → String → ℤ
must_int fs name = or_zero (then_as as_number (get fs name))

unfoldable pub must_uint : Fields → String → ℕ
unfolding must_int
must_uint fs name = bits64 (must_int fs name)

abbrev number_bits : Value → ℕ
number_bits v = bits64 (or_zero (as_number v))

-- `none` is the `false` of the source's second result.
unfoldable pub optional_uint : Fields → String → Option ℕ
optional_uint fs name = elim (get fs name) [ none ↦ none | some v ↦ some (number_bits v) ]

-- The pointer is nil exactly if the field is absent.
unfoldable pub optional_string : Fields → String → Option String
optional_string fs name = elim (get fs name) [
  | none ↦ none
  | some v ↦ some (or_blank (as_string v))
]

-- `payload[name].(string)` with its second result.
unfoldable pub string_field : Fields → String → Option String
string_field fs name = then_as as_string (get fs name)

-- Equal as JSON texts that `json.Marshal` writes, which sorts the names of an object.
abbrev number_eq : Number → Number → Bool
number_eq a b =
    pos_part a.truncated == pos_part b.truncated
    && neg_part a.truncated == neg_part b.truncated
    && a.fraction == b.fraction

abbrev bool_eq : Bool → Bool → Bool
bool_eq a b = not (bool_ne a b)

unfoldable mutual
  pub value_eq : Value → Value → Bool
  value_eq null null = true
  value_eq (bool a) (bool b) = bool_eq a b
  value_eq (num a) (num b) = number_eq a b
  value_eq (str a) (str b) = str_eq a b
  value_eq (arr as_) (arr bs) = items_eq as_ bs
  value_eq (obj as_) (obj bs) = length (names as_) == length (names bs) && fields_within as_ bs
  value_eq _ _ = false

  pub items_eq : Items → Items → Bool
  items_eq nil nil = true
  items_eq (cons a as_) (cons b bs) = value_eq a b && items_eq as_ bs
  items_eq _ _ = false

  -- Every field of the first object is in the second, with an equal value.
  pub fields_within : Fields → Fields → Bool
  fields_within end bs = true
  fields_within (field k v as_) bs =
      elim (get bs k) [ none ↦ false | some w ↦ value_eq v w ] && fields_within as_ bs
