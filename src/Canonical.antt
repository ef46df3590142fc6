-- ===== src/Canonical.antt =====
-- internal/canonical/encode.go and internal/score/projection.go: the canonical order of names, by
-- their UTF-16 code units.
use Prim.Native.Nat.{◌/◌}
use Prim.Native.Char.{code}
use Prim.Native.String as chars
use partitur.Prelude.{
  ℕ, String, Bool, true, false, ◌&&◌, ◌||◌, List, [], ◌∷◌, ltb, ◌==◌, ◌+◌, ◌-◌, ◌%◌, if◌then◌else◌,
}

-- `utf16.Encode`: a character beyond the basic plane has two units.
unfoldable pub units : String → List ℕ
units chars.[] = []
units (chars.◌∷◌ c s) =
    let rest = units s in
    if ltb (code c) 65536
    then code c ∷ rest
    else (55296 + (code c - 65536) / 1024) ∷ (56320 + (code c - 65536) % 1024) ∷ rest

-- `compareUTF16`, as the test that the left one is not after the right one.
unfoldable pub units_leb : List ℕ → List ℕ → Bool
units_leb [] ys = true
units_leb (x ∷ xs) [] = false
units_leb (x ∷ xs) (y ∷ ys) = ltb x y || (x == y && units_leb xs ys)

-- `compareCanonicalStrings`: of two names the first is the one that the encoding of an object with
-- both begins with.
abbrev pub canonical_leb : String → String → Bool
canonical_leb left right = units_leb (units left) (units right)

unfoldable pub insert_canonical : String → List String → List String
insert_canonical x [] = x ∷ []
insert_canonical x (y ∷ ys) = if canonical_leb x y then x ∷ y ∷ ys else y ∷ insert_canonical x ys

-- `sortedStrings`
unfoldable pub sorted_strings : List String → List String
sorted_strings [] = []
sorted_strings (x ∷ xs) = insert_canonical x (sorted_strings xs)
