-- ===== src/Score/Pointer.antt =====
-- internal/score/patch.go: the pointers of a patch, and the places that they name.
use Prim.Native.Char.{Char, code}
use Prim.Native.String as chars
use Prim.Native.String.{◌++◌ as ◌⧺◌}
use text.Mathlib.Text.{starts_with}
use partitur.Prelude.{
  ℕ, String, Bool, false, not, ◌&&◌, ◌||◌, Option, none, some, List, [], ◌∷◌, ltb, ◌==◌, ◌+◌, ◌-◌,
  ◌*◌, str_eq, if◌then◌else◌,
}

abbrev is_char : ℕ → Char → Bool
is_char n c = code c == n

abbrev pub put : Char → Option String → Option String
put c none = none
put c (some s) = some (chars.◌∷◌ c s)

-- One part of a pointer, in which `~0` stands for `~` and `~1` for `/`.
unfoldable pub unescape : String → Option String
unescape chars.[] = some ""
unescape (chars.◌∷◌ c chars.[]) = if is_char 126 c then none else some (chars.◌∷◌ c chars.[])
unescape (chars.◌∷◌ c (chars.◌∷◌ d s)) =
    let next = unescape (chars.◌∷◌ d s) in
    let rest = unescape s in
    if not (is_char 126 c)
    then put c next
    else if is_char 48 d
    then put "~" rest
    else if is_char 49 d
    then put "/" rest
    else none

abbrev pub glue : Char → List String → List String
glue c [] = chars.◌∷◌ c chars.[] ∷ []
glue c (s ∷ ss) = chars.◌∷◌ c s ∷ ss

-- `strings.Split` at each `/`.
unfoldable pub split : String → List String
split chars.[] = "" ∷ []
split (chars.◌∷◌ c s) = let rest = split s in if is_char 47 c then "" ∷ rest else glue c rest

unfoldable pub unescape_all : List String → Option (List String)
unescape_all [] = some []
unescape_all (s ∷ ss) = elim (unescape s) [
  | none ↦ none
  | some t ↦ elim (unescape_all ss) [ none ↦ none | some ts ↦ some (t ∷ ts) ]
]

-- `patchPointer`
unfoldable pub patch_pointer : String → Option (List String)
patch_pointer chars.[] = some []
patch_pointer (chars.◌∷◌ c s) = if is_char 47 c then unescape_all (split s) else none

-- The decimal number of a text, and `none` where a character is no digit.
unfoldable pub digits : String → ℕ → Option ℕ
digits chars.[] n = some n
digits (chars.◌∷◌ c s) n =
    let next = digits s (n * 10 + (code c - 48)) in
    if ltb (code c) 48 || ltb 57 (code c) then none else next

abbrev leads_with_zero : String → Bool
leads_with_zero (chars.◌∷◌ c (chars.◌∷◌ d s)) = is_char 48 c
leads_with_zero _ = false

-- `patchArrayIndex`; a number that `strconv.Atoi` refuses is out of bounds.
unfoldable pub patch_array_index : String → ℕ → Bool → Option ℕ
patch_array_index token len add =
    if add && str_eq token "-"
    then some len
    else if str_eq token "" || (str_eq token "-" || leads_with_zero token)
    then none
    else elim (digits token 0) [
      | none ↦ none
      | some index ↦ if ltb len index || (not add && index == len) then none else some index
    ]

-- `pointerIsChild`
abbrev pub pointer_is_child : String → String → Bool
pointer_is_child path parent = not (str_eq parent "") && starts_with path (parent ⧺ "/")
