-- ===== src/RunState/Reached.antt =====
-- The states that `replayJournal` of internal/runstore/journal.go can reach from a seed.
use partitur.Prelude.{◌≡◌, arith, refl, true, some, List, [], ◌∷◌, sym, subst}
use partitur.Dict.{all_values}
use partitur.RunState.Types.{MovementSeed}
use partitur.RunState.Event.{Event}
use partitur.RunState.State.{State, empty_state, seed_from, new_state, add_seed}
use partitur.RunState.Action.{ok}
use partitur.RunState.Replay.{replay, replay-Journey, journey_keeps}
use partitur.RunState.Pending.{PrepareMatches, apply-PrepareMatches}
use partitur.RunState.Outcomes.{all_sound, apply-all_sound}

-- A seed fills in the movements only.
seed_from_lem :
    (ms : List MovementSeed) (s t : State)
    → seed_from s ms ≡ some t
    → t ≡ record s {
      movements = t.movements;
      movement_order = t.movement_order;
      repo_write_movements = t.repo_write_movements;
      dependency_movements = t.dependency_movements;
      final_movements = t.final_movements;
    }
unfolding seed_from add_seed
seed_from_lem [] s t h = ground arith
seed_from_lem (m ∷ ms) s t h = seed_from_lem ms (add_seed s m) t (ground arith)

-- No acceptance and no prepare is there before the first event.
seeded-all_sound : (ms : List MovementSeed) (s : State) → new_state ms ≡ some s → all_sound s ≡ true
unfolding new_state all_values
seeded-all_sound ms s h =
    subst (λ (u : State). all_sound u ≡ true) (sym (seed_from_lem ms empty_state s h)) refl

seeded-PrepareMatches :
    (ms : List MovementSeed) (s : State) → new_state ms ≡ some s → PrepareMatches s
unfolding new_state
seeded-PrepareMatches ms s h = subst PrepareMatches (sym (seed_from_lem ms empty_state s h)) tt

-- In every state that a journal leads to from a seed, the acceptances are sound: no criterion has
-- completed before it started, and where an evaluation is completed, each planned criterion has
-- completed with PASS.
pub replayed-all_sound :
    (ms : List MovementSeed) (es : List Event) (s t : State)
    → new_state ms ≡ some s
    → replay es s ≡ ok t
    → all_sound t ≡ true
replayed-all_sound ms es s t seeded h =
    journey_keeps (λ u. all_sound u ≡ true) (λ e u _ sound. apply-all_sound e u sound)
      (replay-Journey es s t h) (seeded-all_sound ms s seeded)

-- In every state that a journal leads to from a seed, a pending prepare stands for the state's
-- head, its next revision and its authority epoch.
pub replayed-PrepareMatches :
    (ms : List MovementSeed) (es : List Event) (s t : State)
    → new_state ms ≡ some s
    → replay es s ≡ ok t
    → PrepareMatches t
replayed-PrepareMatches ms es s t seeded h =
    journey_keeps PrepareMatches apply-PrepareMatches (replay-Journey es s t h)
      (seeded-PrepareMatches ms s seeded)
