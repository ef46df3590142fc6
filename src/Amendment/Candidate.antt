-- ===== src/Amendment/Candidate.antt =====
-- internal/amendment/evaluator.go: whether a patched score leaves the application candidate as it is.
use partitur.Prelude.{
  ℕ, zero, suc, String, Bool, true, false, ◌&&◌, ◌||◌, not, Option, none, some, List, [], ◌∷◌, map,
  str_eq, contains, length, if◌then◌else◌,
}
use partitur.Dict.{lookup}
use partitur.RunState.Types.{MovementState, ApplicationCandidate}
use partitur.RunState.State.{State}
use partitur.RunState.Waiting.{holds}
use partitur.Score.Document.{Score}
use partitur.Score.Views.{MovementView, ExecutionView, movements, execution}
use partitur.Amendment.Types.{CompositionContributor, Toolchain}
use partitur.Amendment.Scope.{movement_started}

abbrev is_succeeded : MovementState → Bool
is_succeeded MovementState.succeeded = true
is_succeeded _ = false

abbrev is_inapplicable : MovementState → Bool
is_inapplicable MovementState.inapplicable = true
is_inapplicable _ = false

-- The counter `indegree` is kept as a test: it is zero when each need that is included is done.
unfoldable pub needs_done : List String → List String → List String → Bool
needs_done included done [] = true
needs_done included done (n ∷ ns) =
    (not (contains included n) || contains done n) && needs_done included done ns

-- The needs of a movement in `byID`, where the last one with an identifier counts.
unfoldable pub last_needs : String → List MovementView → Option (List String)
last_needs id [] = none
last_needs id (m ∷ ms) = elim (last_needs id ms) [
  | some later ↦ some later
  | none ↦ if str_eq m.id id then some m.needs else none
]

abbrev is_free : List String → List String → List MovementView → String → Bool
is_free included done ms id = elim (last_needs id ms) [
  | none ↦ true
  | some needs ↦ needs_done included done needs
]

-- The first movement that is free, of those in the second list.
unfoldable pub next_in_order :
    List String → List String → List MovementView → List MovementView → Option String
next_in_order included done all [] = none
next_in_order included done all (m ∷ ms) =
    let rest = next_in_order included done all ms in
    if contains included m.id && (is_free included done all m.id && not (contains done m.id))
    then some m.id
    else rest

-- The loop of `topological`, with as much fuel as there are movements left to place; `none` is the
-- error of a cycle.
unfoldable pub place : ℕ → List String → List String → List MovementView → Option (List String)
place zero included done ms = some []
place (suc left) included done ms = elim (next_in_order included done ms ms) [
  | none ↦ none
  | some id ↦
      let rest = place left included (id ∷ done) ms in
      if str_eq id "" then none else elim rest [ none ↦ none | some ids ↦ some (id ∷ ids) ]
]

abbrev id_of : MovementView → String
id_of m = m.id

unfoldable pub distinct : List String → List String
distinct [] = []
distinct (x ∷ xs) = let rest = distinct xs in if contains xs x then rest else x ∷ rest

-- `topological`, where all movements are included.
unfoldable pub topological : List MovementView → Option (List String)
topological ms = let included = distinct (map id_of ms) in place (length included) included [] ms

-- `findMovement`, for the grants, which are none of a movement that is not found.
unfoldable pub grants_of : String → List MovementView → List String
grants_of id [] = []
grants_of id (m ∷ ms) = let rest = grants_of id ms in if str_eq m.id id then m.grants else rest

-- The body of the loop of `candidateContributors` for a movement that writes.
abbrev contributor : State → String → Option CompositionContributor
contributor s id =
    if not (holds is_succeeded (lookup id s.movements))
    then none
    else elim (lookup id s.movement_results) [
      | none ↦ none
      | some r ↦
          if str_eq r.approved_change_set_id ""
          then none
          else elim (lookup r.attempt_id s.change_sets) [
            | none ↦ none
            | some c ↦
                if not (str_eq c.change_set_id r.approved_change_set_id)
                then none
                else some (record {
                  movement_id = id;
                  change_set_id = c.change_set_id;
                  base_tree = c.base_tree;
                  result_tree = c.result_tree;
                })
          ]
    ]

abbrev writes_nothing : State → List MovementView → String → Bool
writes_nothing s ms id =
    not (contains (grants_of id ms) "repo_write") || holds is_inapplicable (lookup id s.movements)

unfoldable pub contributors_of :
    State → List MovementView → List String → Option (List CompositionContributor)
contributors_of s ms [] = some []
contributors_of s ms (id ∷ ids) =
    let rest = contributors_of s ms ids in
    if writes_nothing s ms id then rest else elim (contributor s id) [
      | none ↦ none
      | some c ↦ elim rest [ none ↦ none | some cs ↦ some (c ∷ cs) ]
    ]

-- `candidateContributors`
unfoldable pub candidate_contributors : Score → State → Option (List CompositionContributor)
candidate_contributors patched s =
    let ms = movements patched in
    elim (topological ms) [ none ↦ none | some ids ↦ contributors_of s ms ids ]

-- The conditions after the composition has been found unchanged.
abbrev mode_condition : ExecutionView → State → String
mode_condition x s =
    if x.gate_waived
    then "verification_mode_changed"
    else if movement_started s x.final_movement_id
        && holds is_succeeded (lookup x.final_movement_id s.movements)
    then "verification_episode_finished"
    else ""

abbrev composition_kept : Option String → String → Bool
composition_kept none hash = false
composition_kept (some h) hash = str_eq h hash

abbrev recorded_condition : Toolchain → Score → State → ApplicationCandidate → String
recorded_condition t patched s c = elim (candidate_contributors patched s) [
  | none ↦ "composition_changed"
  | some cs ↦
      if not (
        composition_kept (t.composition_hash c.base_tree cs c.composition_environment_hash)
          c.composition_dependency_hash)
      then "composition_changed"
      else mode_condition (execution patched) s
]

-- `candidateCondition`, whose error is always nil.
unfoldable pub candidate_condition : Toolchain → Score → State → String
candidate_condition t patched s = elim s.application_candidate [
  | none ↦ ""
  | some c ↦ recorded_condition t patched s c
]
