-- ===== src/Dict.antt =====
-- Go's `map[string]V` as an association list with one entry for each key. An insertion replaces the
-- entry of its key or adds one at the end. Go leaves the order of `range` open: the code that is
-- modelled here sorts what it collects, or folds in a way that no order shows.
use partitur.Prelude.{
  String, ◌≡◌, refl, Bool, ◌&&◌, true, Option, none, some, List, [], ◌∷◌, arith, str_eq, eq_iff,
  is_some, if◌then◌else◌,
}

abbrev pub Dict {ℓ} : Type ℓ → Type ℓ
Dict V = List (String × V)

module _ {ℓ} {V : Type ℓ} where
  unfoldable pub lookup : String → Dict V → Option V
  lookup k [] = none
  lookup k ((j, v) ∷ d) = if str_eq j k then some v else lookup k d

  -- `m[k] = v`
  unfoldable pub insert : String → V → Dict V → Dict V
  insert k v [] = (k, v) ∷ []
  insert k v ((j, w) ∷ d) = if str_eq j k then (j, v) ∷ d else (j, w) ∷ insert k v d

  -- `delete(m, k)`
  unfoldable pub remove : String → Dict V → Dict V
  remove k [] = []
  remove k ((j, w) ∷ d) = let rest = remove k d in if str_eq j k then rest else (j, w) ∷ rest

  -- `_, ok := m[k]`
  abbrev pub has : String → Dict V → Bool
  has k d = is_some (lookup k d)

  unfoldable pub keys : Dict V → List String
  keys [] = []
  keys ((k, _) ∷ d) = k ∷ keys d

  pub lookup-insert :
      (k j : String) (v : V) (d : Dict V)
      → lookup j (insert k v d) ≡ (if str_eq k j then some v else lookup j d)
  unfolding lookup insert
  lookup-insert k j v [] = refl
  lookup-insert k j v ((i, w) ∷ d) =
      ground (arith, eq_iff k j, eq_iff i k, eq_iff i j, lookup-insert k j v d)

  pub lookup-remove :
      (k j : String) (d : Dict V)
      → lookup j (remove k d) ≡ (if str_eq k j then none else lookup j d)
  unfolding lookup remove
  lookup-remove k j [] = ground arith
  lookup-remove k j ((i, w) ∷ d) =
      ground (arith, eq_iff k j, eq_iff i k, eq_iff i j, lookup-remove k j d)

  -- The test holds of every entry.
  unfoldable pub all_values : (V → Bool) → Dict V → Bool
  all_values test [] = true
  all_values test ((_, v) ∷ d) = test v && all_values test d

  pub all_values-insert :
      (test : V → Bool) (k : String) (v : V) (d : Dict V)
      → test v ≡ true
      → all_values test d ≡ true
      → all_values test (insert k v d) ≡ true
  unfolding all_values insert
  all_values-insert test k v [] hv hd = ground arith
  all_values-insert test k v ((j, w) ∷ d) hv hd = grind (arith, all_values-insert test k v d)

  pub all_values-lookup :
      (test : V → Bool) (k : String) (v : V) (d : Dict V)
      → all_values test d ≡ true
      → lookup k d ≡ some v
      → test v ≡ true
  unfolding all_values lookup
  all_values-lookup test k v [] hd h = absurd (ground arith)
  all_values-lookup test k v ((j, w) ∷ d) hd h = grind (arith, all_values-lookup test k v d)

pub ruleset dict_laws = (lookup-insert, lookup-remove)
