-- ===== src/Cast.antt =====
-- internal/cast/enforcement.go: the table that decides whether an adapter enforces all that a
-- movement is not granted.
use partitur.Prelude.{
  String, Bool, false, not, ◌&&◌, ◌||◌, List, [], ◌∷◌, ◌++◌, str_eq, contains, is_empty,
  if◌then◌else◌,
}
use partitur.Score.Views.{MovementView, PolicyView, sort_by}
mod Exact
mod Scenarios

-- The enforcement that an adapter's probe reports, of internal/protocol.
pub record Enforcement : Type 0 where
  pub read_only : Bool
  pub path_grants : Bool
  pub read_grants : Bool
  pub shell_grants : Bool
  pub network_grants : Bool

pub data EnforcementDimension : Type 0 where
  read_only path_grants read_grants shell_grants network_grants : EnforcementDimension

abbrev pub dimension_text : EnforcementDimension → String
dimension_text EnforcementDimension.read_only = "read_only"
dimension_text EnforcementDimension.path_grants = "path_grants"
dimension_text EnforcementDimension.read_grants = "read_grants"
dimension_text EnforcementDimension.shell_grants = "shell_grants"
dimension_text EnforcementDimension.network_grants = "network_grants"

pub data EnforcementDisposition : Type 0 where
  strict advisory refused : EnforcementDisposition

pub record EnforcementResult : Type 0 where
  pub disposition : EnforcementDisposition
  pub unmet : List EnforcementDimension

-- `wholeRepository`
abbrev pub whole_repository : List String → Bool
whole_repository (p ∷ []) = str_eq p "**"
whole_repository _ = false

-- `containsDimension`
unfoldable pub contains_dimension : List EnforcementDimension → EnforcementDimension → Bool
contains_dimension [] target = false
contains_dimension (d ∷ ds) target =
    str_eq (dimension_text d) (dimension_text target) || contains_dimension ds target

abbrev append_if :
    Bool → EnforcementDimension → List EnforcementDimension → List EnforcementDimension
append_if b d ds = if b then ds ++ d ∷ [] else ds

-- The dimensions in the order in which they are found unmet.
unfoldable pub unmet_dimensions :
    Bool → Bool → Bool → Bool → Bool → Enforcement → List EnforcementDimension
unmet_dimensions write read shell network scoped e =
    let first = append_if (not write && not e.read_only) EnforcementDimension.read_only [] in
    let second =
      append_if (write && (scoped && not e.path_grants)) EnforcementDimension.path_grants first in
    let third = append_if (not read && not e.read_grants) EnforcementDimension.read_grants second in
    let fourth =
      append_if
        (read
          && (scoped
              && (not e.path_grants
                  && not (contains_dimension third EnforcementDimension.path_grants))))
        EnforcementDimension.path_grants third in
    let fifth =
      append_if (not shell && not e.shell_grants) EnforcementDimension.shell_grants fourth in
    append_if (not network && not e.network_grants) EnforcementDimension.network_grants fifth

-- `EvaluateEnforcement`
unfoldable pub evaluate_enforcement :
    MovementView → PolicyView → Bool → Enforcement → EnforcementResult
evaluate_enforcement m p allow_advisory e =
    let unmet =
      unmet_dimensions (contains m.grants "repo_write") (contains m.grants "repo_read")
        (contains m.grants "shell") (contains m.grants "network")
        (not (whole_repository p.allowed_paths)) e in
    record {
      disposition =
          if is_empty unmet
          then EnforcementDisposition.strict
          else if allow_advisory
          then EnforcementDisposition.advisory
          else EnforcementDisposition.refused;
      unmet = sort_by dimension_text unmet;
    }
