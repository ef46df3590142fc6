-- ===== src/Cast/Scenarios.antt =====
-- A movement that reads and writes some paths, under an adapter that does not enforce paths.
use partitur.Prelude.{◌≡◌, refl, true, false, [], ◌∷◌, pos}
use partitur.Score.Views.{MovementView, PolicyView}
use partitur.Cast.{Enforcement, EnforcementDisposition, evaluate_enforcement}
use partitur.Cast.Exact.{Exact, evaluate_enforcement-Exact}

abbrev writer : MovementView
writer = record {
  id = "m1";
  part_id = "p1";
  phase = "build";
  needs = [];
  grants = "repo_read" ∷ "repo_write" ∷ [];
  may_propose = false;
  instruction = "write";
  inputs = [];
  outputs = [];
  acceptance = record {
    artifact_criteria = [];
    run_criteria = [];
    review_criteria = [];
    has_review_criteria = false;
    human_gate = "none";
  };
}

abbrev only_src : PolicyView
only_src = record {
  allowed_paths = "src/**" ∷ [];
  side_effects = [];
  active_wall_clock_min = pos 60;
  retries_per_movement = pos 2;
  amendment_auto = "envelope";
}

abbrev no_paths : Enforcement
no_paths = record {
  read_only = true;
  path_grants = false;
  read_grants = true;
  shell_grants = true;
  network_grants = true;
}

run_refused :
    (evaluate_enforcement writer only_src false no_paths).disposition
    ≡ EnforcementDisposition.refused
unfolding evaluate_enforcement partitur.Cast.unmet_dimensions partitur.Cast.contains_dimension
run_refused = refl

evaluate_enforcement-Exact_example :
    Exact writer only_src true no_paths (evaluate_enforcement writer only_src true no_paths)
evaluate_enforcement-Exact_example = evaluate_enforcement-Exact writer only_src true no_paths
