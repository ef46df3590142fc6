-- ===== src/Amendment/Evaluate.antt =====
-- internal/amendment/evaluator.go: `Evaluate`. Its early returns are grouped by what they are about,
-- and kept in their order.
use partitur.Prelude.{
  String, Bool, true, false, ◌&&◌, ◌||◌, not, Option, none, some, List, [], ◌∷◌, str_eq, ◌==◌,
  if◌then◌else◌,
}
use Prim.Native.String.{◌++◌ as ◌⧺◌}
use text.Mathlib.Text.{starts_with}
use partitur.Json.{Value, Fields, get, as_object, as_string}
use partitur.RunState.Types.{terminal}
use partitur.RunState.State.{State}
use partitur.RunState.Waiting.{is_running, is_waiting}
use partitur.Score.Document.{Score}
use partitur.Score.Views.{effective_policy}
use partitur.Score.Impact.{Impact, claim_contains}
use partitur.Amendment.Types.{Kind, EnvelopeClass, Input, Outcome, Toolchain}
use partitur.Amendment.Classes.{amendment_policy_changed, classify, guard_passes}
use partitur.Amendment.Candidate.{candidate_condition}

-- `op[key].(string)`, and the empty text where that is none.
abbrev pub text_of : Fields → String → String
text_of op key = elim (get op key) [
  | none ↦ ""
  | some v ↦ elim (as_string v) [ none ↦ "" | some t ↦ t ]
]

-- `op[key] == text` as interface values.
abbrev is_value : Fields → String → String → Bool
is_value op key text = elim (get op key) [
  | none ↦ false
  | some v ↦ elim (as_string v) [ none ↦ false | some t ↦ str_eq t text ]
]

-- `finalizationPatch`
unfoldable pub finalization_patch : List Value → Bool
finalization_patch (v ∷ []) = elim (as_object v) [
  | none ↦ false
  | some op ↦
      is_value op "op" "replace"
      && (is_value op "path" "/status" && is_value op "value" "finalized")
]
finalization_patch _ = false

abbrev pub under : String → String → Bool
under reserved pointer = str_eq pointer reserved || starts_with pointer (reserved ⧺ "/")

-- `reservedPointer`
unfoldable pub reserved_pointer : String → Bool
reserved_pointer pointer =
    str_eq pointer "" || (under "/revision" pointer || under "/status" pointer)

abbrev pub operation_touches : Fields → Bool
operation_touches op =
    let name = text_of op "op" in
    not (str_eq name "test")
    && (reserved_pointer (text_of op "path")
        || ((str_eq name "move" || str_eq name "copy") && reserved_pointer (text_of op "from")))

-- `touchesReserved`
unfoldable pub touches_reserved : List Value → Bool
touches_reserved [] = false
touches_reserved (v ∷ vs) =
    elim (as_object v) [ none ↦ false | some op ↦ operation_touches op ] || touches_reserved vs

abbrev refuse : String → Outcome
refuse reason = record {
  kind = Kind.rejected;
  reason = reason;
  condition = "";
  class = none;
  guard_pass = false;
  patched = none;
  impact = none;
}

-- An outcome that has the patched score and the impact.
abbrev decided : Kind → String → Score → Impact → Outcome
decided kind reason patched impact = record {
  kind = kind;
  reason = reason;
  condition = "";
  class = none;
  guard_pass = false;
  patched = some patched;
  impact = some impact;
}

abbrev classed : Kind → String → EnvelopeClass → Bool → Score → Impact → Outcome
classed kind reason class pass patched impact = record (decided kind reason patched impact) {
  class = some class;
  guard_pass = pass;
}

-- The last returns, for a human who decides: the guards are recorded and do not block.
unfoldable pub evaluate_human : Score → Score → State → Impact → Outcome
evaluate_human base patched s impact = elim (classify impact) [
  | none ↦ decided Kind.approved "unclassified_change" patched impact
  | some class ↦
      if not (guard_passes class base patched s impact)
      then classed Kind.approved "runtime_scope_started" class false patched impact
      else classed Kind.approved "" class true patched impact
]

-- The last returns, by the policy of the base, whose projection has succeeded here.
unfoldable pub evaluate_policy : Input → Score → Score → Impact → Outcome
evaluate_policy i base patched impact =
    if i.finalization
    then decided Kind.routed "draft_phase" patched impact
    else if str_eq base.status "draft"
    then decided Kind.routed "draft_phase" patched impact
    else if str_eq (effective_policy base).amendment_auto "off"
    then decided Kind.routed "auto_disabled" patched impact
    else if amendment_policy_changed impact
    then decided Kind.routed "recognized_non_monotone" patched impact
    else if i.requires_decision
    then decided Kind.routed "requires_decision" patched impact
    else elim (classify impact) [
      | none ↦ decided Kind.routed "unclassified_change" patched impact
      | some class ↦
          if not (guard_passes class base patched i.state impact)
          then classed Kind.routed "runtime_scope_started" class false patched impact
          else classed Kind.approved "" class true patched impact
    ]

module _ (t : Toolchain) (i : Input) where
  -- The returns on a patched score whose impact is known.
  unfoldable pub evaluate_impact : Score → Score → Impact → Option Outcome
  evaluate_impact base patched impact =
      if i.has_claimed_impact && not (claim_contains i.claimed_impact impact)
      then some (decided Kind.rejected "claim_narrower" patched impact)
      else elim (i.attempts_changed patched i.state) [
        | none ↦ none
        | some changed ↦
            if changed
            then some (decided Kind.rejected "executed_dependency_changed" patched impact)
            else if not (str_eq (candidate_condition t patched i.state) "")
            then some (record (decided Kind.rejected "candidate_incompatible" patched impact) {
              condition = candidate_condition t patched i.state;
            })
            else if i.human_decision
            then some (evaluate_human base patched i.state impact)
            else some (evaluate_policy i base patched impact)
      ]

  -- The returns on a patched value.
  unfoldable pub evaluate_patched : Score → String → Value → Option Outcome
  evaluate_patched base base_text patched_value = elim (t.encode patched_value) [
    | none ↦ none
    | some text ↦
        if str_eq base_text text
        then some (refuse "no_op")
        else elim (t.compile_value patched_value) [
          | none ↦ some (refuse "invalid_score")
          | some patched ↦ elim (t.compare base patched) [
            | none ↦ none
            | some impact ↦ evaluate_impact base patched impact
          ]
        ]
  ]

  unfoldable pub evaluate_patch : Score → Option Outcome
  evaluate_patch base = elim (t.projection base) [
    | none ↦ none
    | some base_value ↦ elim (t.encode base_value) [
      | none ↦ none
      | some base_text ↦ elim (t.apply_patch base_value i.operations) [
        | none ↦ some (refuse "patch_error")
        | some patched_value ↦ evaluate_patched base base_text patched_value
      ]
    ]
  ]

  -- `baseStatus`: the status in the projection is the score's own.
  abbrev base_status : Score → String
  base_status s = elim (t.projection s) [
    | none ↦ ""
    | some v ↦ elim (t.encode v) [ none ↦ "" | some text ↦ s.status ]
  ]

  abbrev touches : Score → Bool
  touches base =
      if i.finalization
      then not (finalization_patch i.operations) || not (str_eq (base_status base) "draft")
      else touches_reserved i.operations

  abbrev pub is_stale : Bool
  is_stale =
      not (i.state.score_head.revision == i.base_revision)
      || not (str_eq i.state.score_head.semantic_hash i.base_hash)

  unfoldable pub evaluate_base : Score → Option Outcome
  evaluate_base base =
      if terminal i.state.run || not (is_running i.state.run || is_waiting i.state.run)
      then some (refuse "run_terminal")
      else if i.state.cancel_requested
      then some (refuse "run_cancelling")
      else if is_stale
      then some (refuse "stale")
      else if touches base
      then some (refuse "reserved_field")
      else evaluate_patch base

  -- `Evaluate`
  unfoldable pub evaluate : Option Outcome
  evaluate = elim i.base [ none ↦ none | some base ↦ evaluate_base base ]
