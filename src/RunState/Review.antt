-- ===== src/RunState/Review.antt =====
-- internal/runstate/apply.go: `validateFindingPairs` and `validateEvaluationReview`.
use Prim.Native.String.{◌++◌}
use partitur.Prelude.{
  String, Bool, true, false, ◌&&◌, ◌||◌, not, Option, none, some, List, [], ◌∷◌, str_eq, str_leb,
  is_empty, bool_ne,
}
use partitur.Json.{Value, Fields, get, as_object, as_string, as_array, must_string, items}
use partitur.RunState.Decode.{fields, named_types}

-- The key by which the pairs are sorted: the source joins the two with a NUL character.
abbrev pair_key : Fields → String
pair_key fs = must_string fs "artifact_instance_id" ++ ("\0" ++ must_string fs "finding_id")

abbrev pair_names : List String
pair_names = "artifact_instance_id" ∷ "finding_id" ∷ []

abbrev pair_after : String → Option Fields → Bool
pair_after previous none = false
pair_after previous (some fs) =
    fields fs pair_names []
    && named_types fs pair_names [] [] [] []
    && not (str_leb (pair_key fs) previous)

abbrev key_of : Option Fields → String
key_of none = ""
key_of (some fs) = pair_key fs

unfoldable pub pairs_after : String → List Value → Bool
pairs_after previous [] = true
pairs_after previous (v ∷ vs) =
    pair_after previous (as_object v) && pairs_after (key_of (as_object v)) vs

-- `validateFindingPairs`
unfoldable pub finding_pairs : List Value → Bool
unfolding pairs_after
finding_pairs = pairs_after ""

abbrev is_text : String → Value → Bool
is_text t v = elim (as_string v) [ none ↦ false | some s ↦ str_eq s t ]

abbrev blockers_match : Value → Option (List Value) → Bool
blockers_match outcome none = false
blockers_match outcome (some vs) =
    finding_pairs vs && not (bool_ne (is_text "CONTESTED" outcome) (not (is_empty vs)))

abbrev review_of : Option Value → Option Value → Bool
review_of none none = true
review_of (some outcome) (some blockers) =
    (is_text "CLEAN" outcome || is_text "CONTESTED" outcome)
    && blockers_match outcome (as_array blockers)
review_of _ _ = false

-- `validateEvaluationReview`
unfoldable pub evaluation_review : Fields → Bool
unfolding finding_pairs items
evaluation_review p = review_of (get p "review_outcome") (get p "blocking_findings")
