-- ===== src/Score/Kept.antt =====
-- internal/score/patch.go: a patch whose pointers do not begin with a name leaves that field of the
-- document as it is.
use partitur.Prelude.{
  ◌≡◌, refl, arith, String, false, Option, some, List, [], ◌∷◌, str_eq, eq_iff, Option-cases, inl,
  inr,
}
use partitur.Json.{Fields, field, end, Value, obj, get}
use partitur.Score.Patch.{
  set_field, delete_field, child, set_child, at_parent, add_to, replace_in, remove_from,
}

set_field_other :
    (name k : String) (v : Value) (fs : Fields)
    → str_eq name k ≡ false
    → get (set_field name v fs) k ≡ get fs k
unfolding set_field get
set_field_other name k v end h = ground arith
set_field_other name k v (field j w fs) h =
    ground (arith, set_field_other name k v fs, eq_iff j k, eq_iff j name, eq_iff name k)

delete_field_other :
    (name k : String) (fs : Fields)
    → str_eq name k ≡ false
    → get (delete_field name fs) k ≡ get fs k
unfolding delete_field get
delete_field_other name k end h = refl
delete_field_other name k (field j w fs) h =
    ground (arith, delete_field_other name k fs, eq_iff j k, eq_iff j name, eq_iff name k)

-- The value is an object that has the field as it was.
abbrev pub KeepsField : String → Fields → Value → Type 0
KeepsField k fs v = (gs : Fields) × (v ≡ obj gs) × (get gs k ≡ get fs k)

-- An edit that keeps the field of an object under every other token.
abbrev pub Careful : String → (Value → String → Option Value) → Type 0
Careful k edit =
    (fs : Fields) (token : String) (v : Value)
    → str_eq token k ≡ false
    → edit (obj fs) token ≡ some v
    → KeepsField k fs v

pub add_to-Careful : (k : String) (value : Value) → Careful k (add_to value)
unfolding add_to
add_to-Careful k value fs token v h e =
    (set_field token value fs, ground arith, set_field_other token k value fs h)

pub replace_in-Careful : (k : String) (value : Value) → Careful k (replace_in value)
unfolding replace_in
replace_in-Careful k value fs token v h e =
    (set_field token value fs, ground arith, set_field_other token k value fs h)

pub remove_from-Careful : (k : String) → Careful k remove_from
unfolding remove_from
remove_from-Careful k fs token v h e =
    (delete_field token fs, ground arith, delete_field_other token k fs h)

pub at_parent-KeepsField :
    (k : String) (edit : Value → String → Option Value) (t : String) (ts : List String)
    (fs : Fields) (v : Value)
    → Careful k edit
    → str_eq t k ≡ false
    → at_parent edit (t ∷ ts) (obj fs) ≡ some v
    → KeepsField k fs v
unfolding at_parent set_child child
at_parent-KeepsField k edit t [] fs v careful h e = careful fs t v h e
at_parent-KeepsField k edit t (u ∷ ts) fs v careful h e = elim (Option-cases (get fs t)) [
  | inl gone ↦ absurd (ground arith)
  | inr (w, there) ↦ elim (Option-cases (at_parent edit (u ∷ ts) w)) [
    | inl failed ↦ absurd (ground arith)
    | inr (x, edited) ↦ (set_field t x fs, ground arith, set_field_other t k x fs h)
  ]
]
