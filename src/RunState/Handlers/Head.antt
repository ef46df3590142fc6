-- ===== src/RunState/Handlers/Head.antt =====
-- internal/runstate/apply.go: `headMovements` and `reconciledHead`, the movements of an approved
-- head.
use partitur.Prelude.{
  String, Bool, true, ◌&&◌, not, Option, none, some, List, [], ◌∷◌, ◌++◌, str_eq, contains,
  if◌then◌else◌,
}
use partitur.Dict.{Dict, lookup, insert, has}
use partitur.Json.{Value, Fields, as_object, must_string, must_bool}
use partitur.RunState.Types.{MovementState, MovementSeed}
use partitur.RunState.State.{State, mark}
use partitur.RunState.Decode.{fields, named_types}

abbrev initial_named : String → Option MovementState
initial_named t =
    if str_eq t "PENDING"
    then some MovementState.pending
    else if str_eq t "INAPPLICABLE"
    then some MovementState.inapplicable
    else none

abbrev head_movement_in : Fields → Option MovementState → Option MovementSeed
head_movement_in fs none = none
head_movement_in fs (some initial) = some (record {
  id = must_string fs "id";
  initial = initial;
  repo_write = must_bool fs "repo_write";
  has_dependencies = must_bool fs "has_dependencies";
  is_final = must_bool fs "final";
})

abbrev flag_names : List String
flag_names = "repo_write" ∷ "has_dependencies" ∷ "final" ∷ []

-- The body of the loop of `headMovements`, with the identifiers seen so far.
unfoldable pub head_movement : List String → Option Fields → Option MovementSeed
head_movement seen none = none
head_movement seen (some fs) =
    if fields fs ("id" ∷ "initial" ∷ flag_names) []
      && named_types fs ("id" ∷ "initial" ∷ []) [] [] flag_names []
      && not (str_eq (must_string fs "id") "")
      && not (contains seen (must_string fs "id"))
    then head_movement_in fs (initial_named (must_string fs "initial"))
    else none

abbrev cons_seed : Option MovementSeed → Option (List MovementSeed) → Option (List MovementSeed)
cons_seed (some m) (some ms) = some (m ∷ ms)
cons_seed _ _ = none

abbrev id_of : Option MovementSeed → String
id_of none = ""
id_of (some m) = m.id

unfoldable pub head_from : List String → List Value → Option (List MovementSeed)
unfolding head_movement
head_from seen [] = some []
head_from seen (v ∷ vs) =
    let m = head_movement seen (as_object v) in cons_seed m (head_from (id_of m ∷ seen) vs)

-- `headMovements`
unfoldable pub head_movements : List Value → Option (List MovementSeed)
unfolding head_from
head_movements [] = none
head_movements (v ∷ vs) = head_from [] (v ∷ vs)

abbrev retained : Option MovementState → MovementState → MovementState
retained none initial = initial
retained (some current) initial = current

-- The loop of `reconciledHead`, on the fields of the state that it rebuilds.
unfoldable pub reconcile_from : Dict MovementState → List MovementSeed → State → State
reconcile_from old [] s = s
reconcile_from old (m ∷ ms) s = reconcile_from old ms (record s {
  movements = insert m.id (retained (lookup m.id old) m.initial) s.movements;
  movement_order = s.movement_order ++ m.id ∷ [];
  repo_write_movements = mark m.repo_write m.id s.repo_write_movements;
  dependency_movements = mark m.has_dependencies m.id s.dependency_movements;
  final_movements = mark m.is_final m.id s.final_movements;
})

-- No succeeded movement is missing from the new map.
unfoldable pub keeps_succeeded : Dict MovementState → Dict MovementState → Bool
keeps_succeeded [] new = true
keeps_succeeded ((id, MovementState.succeeded) ∷ old) new = has id new && keeps_succeeded old new
keeps_succeeded ((id, _) ∷ old) new = keeps_succeeded old new

-- `reconciledHead`: the state with the new head's movements, unless a succeeded one is removed.
unfoldable pub reconciled_head : List MovementSeed → State → Option State
unfolding reconcile_from keeps_succeeded
reconciled_head head s =
    let new = reconcile_from s.movements head (record s {
      movements = [];
      movement_order = [];
      repo_write_movements = [];
      dependency_movements = [];
      final_movements = [];
    }) in
    if keeps_succeeded s.movements new.movements then some new else none
