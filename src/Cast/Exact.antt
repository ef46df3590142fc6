-- ===== src/Cast/Exact.antt =====
-- internal/cast/enforcement.go: the unmet dimensions are just those that a movement is not granted and
-- its adapter does not enforce.
use partitur.Prelude.{
  ◌≡◌, refl, sym, ◌∙◌, ◌↔◌, eq_iff, arith, Bool, true, false, not, ◌&&◌, ◌||◌, List, [], ◌∷◌, ◌++◌,
  str_eq, contains, is_empty,
}
use partitur.Score.Views.{MovementView, PolicyView, insert_by, sort_by}
use partitur.Cast.{
  Enforcement, EnforcementDimension, EnforcementDisposition, EnforcementResult, dimension_text,
  whole_repository, contains_dimension, unmet_dimensions, evaluate_enforcement,
}

-- What the movement is not to have, or not everywhere.
abbrev pub withheld : MovementView → PolicyView → EnforcementDimension → Bool
withheld m p EnforcementDimension.read_only = not (contains m.grants "repo_write")
withheld m p EnforcementDimension.path_grants =
    (contains m.grants "repo_write" || contains m.grants "repo_read")
    && not (whole_repository p.allowed_paths)
withheld m p EnforcementDimension.read_grants = not (contains m.grants "repo_read")
withheld m p EnforcementDimension.shell_grants = not (contains m.grants "shell")
withheld m p EnforcementDimension.network_grants = not (contains m.grants "network")

abbrev pub enforced : Enforcement → EnforcementDimension → Bool
enforced e EnforcementDimension.read_only = e.read_only
enforced e EnforcementDimension.path_grants = e.path_grants
enforced e EnforcementDimension.read_grants = e.read_grants
enforced e EnforcementDimension.shell_grants = e.shell_grants
enforced e EnforcementDimension.network_grants = e.network_grants

contains-append :
    (d x : EnforcementDimension) (ds : List EnforcementDimension)
    → contains_dimension (ds ++ d ∷ []) x
      ≡ (contains_dimension ds x || str_eq (dimension_text d) (dimension_text x))
unfolding contains_dimension
contains-append d x [] = ground arith
contains-append d x (y ∷ ds) = ground (arith, contains-append d x ds)

contains-insert_by :
    (d x : EnforcementDimension) (ds : List EnforcementDimension)
    → contains_dimension (insert_by dimension_text d ds) x
      ≡ (str_eq (dimension_text d) (dimension_text x) || contains_dimension ds x)
unfolding contains_dimension insert_by
contains-insert_by d x [] = refl
contains-insert_by d x (y ∷ ds) = ground (arith, contains-insert_by d x ds)

contains-sort_by :
    (x : EnforcementDimension) (ds : List EnforcementDimension)
    → contains_dimension (sort_by dimension_text ds) x ≡ contains_dimension ds x
unfolding contains_dimension sort_by
contains-sort_by x [] = refl
contains-sort_by x (d ∷ ds) =
    ground (arith, contains-sort_by x ds, contains-insert_by d x (sort_by dimension_text ds))

abbrev withheld_by : Bool → Bool → Bool → Bool → Bool → EnforcementDimension → Bool
withheld_by write read shell network scoped EnforcementDimension.read_only = not write
withheld_by write read shell network scoped EnforcementDimension.path_grants =
    (write || read) && scoped
withheld_by write read shell network scoped EnforcementDimension.read_grants = not read
withheld_by write read shell network scoped EnforcementDimension.shell_grants = not shell
withheld_by write read shell network scoped EnforcementDimension.network_grants = not network

unmet_dimensions_lem :
    (write read shell network scoped : Bool) (e : Enforcement) (d : EnforcementDimension)
    → contains_dimension (unmet_dimensions write read shell network scoped e) d
      ≡ (withheld_by write read shell network scoped d && not (enforced e d))
unfolding unmet_dimensions contains_dimension
unmet_dimensions_lem write read shell network scoped e EnforcementDimension.read_only = ground arith
unmet_dimensions_lem write read shell network scoped e EnforcementDimension.path_grants =
    ground arith
unmet_dimensions_lem write read shell network scoped e EnforcementDimension.read_grants =
    ground arith
unmet_dimensions_lem write read shell network scoped e EnforcementDimension.shell_grants =
    ground arith
unmet_dimensions_lem write read shell network scoped e EnforcementDimension.network_grants =
    ground arith

-- What the result says of the movement, the policy and the enforcement.
pub record Exact (m : MovementView) (p : PolicyView) (allow_advisory : Bool) (e : Enforcement)
    (r : EnforcementResult) : Type 0 where
  pub dimensions :
      (d : EnforcementDimension)
      → contains_dimension r.unmet d ≡ (withheld m p d && not (enforced e d))
  pub strict :
      (r.disposition ≡ EnforcementDisposition.strict)
      ↔ ((d : EnforcementDimension) → (withheld m p d && not (enforced e d)) ≡ false)
  pub allowed : r.disposition ≡ EnforcementDisposition.advisory → allow_advisory ≡ true

empty_none :
    (ds : List EnforcementDimension) (d : EnforcementDimension)
    → is_empty ds ≡ true
    → contains_dimension ds d ≡ false
unfolding contains_dimension
empty_none [] d h = refl
empty_none (x ∷ ds) d h = absurd (ground arith)

none_empty :
    (ds : List EnforcementDimension)
    → ((d : EnforcementDimension) → contains_dimension ds d ≡ false)
    → is_empty ds ≡ true
unfolding contains_dimension
none_empty [] h = refl
none_empty (d ∷ ds) h =
    absurd (ground (arith, h d, (eq_iff (dimension_text d) (dimension_text d)).1 refl))

module _ (m : MovementView) (p : PolicyView) (allow_advisory : Bool) (e : Enforcement) where
  abbrev found : List EnforcementDimension
  found =
      unmet_dimensions (contains m.grants "repo_write") (contains m.grants "repo_read")
        (contains m.grants "shell") (contains m.grants "network")
        (not (whole_repository p.allowed_paths)) e

  found_lem :
      (d : EnforcementDimension)
      → contains_dimension found d ≡ (withheld m p d && not (enforced e d))
  found_lem EnforcementDimension.read_only = unmet_dimensions_lem _ _ _ _ _ e _
  found_lem EnforcementDimension.path_grants = unmet_dimensions_lem _ _ _ _ _ e _
  found_lem EnforcementDimension.read_grants = unmet_dimensions_lem _ _ _ _ _ e _
  found_lem EnforcementDimension.shell_grants = unmet_dimensions_lem _ _ _ _ _ e _
  found_lem EnforcementDimension.network_grants = unmet_dimensions_lem _ _ _ _ _ e _

  -- The unmet dimensions are just those that are withheld from the movement, by its grants and by
  -- paths that are not the whole repository, and are not enforced by the adapter; the result is
  -- strict just if there are none, and advisory only where that is allowed.
  pub evaluate_enforcement-Exact :
      Exact m p allow_advisory e (evaluate_enforcement m p allow_advisory e)
  unfolding evaluate_enforcement
  evaluate_enforcement-Exact = record {
    dimensions = λ d. contains-sort_by d found ∙ found_lem d;
    strict = (
      (λ h d. sym (found_lem d) ∙ empty_none found d (ground arith)),
      (λ h. let empty = none_empty found (λ d. found_lem d ∙ h d) in ground arith),
    );
    allowed = λ h. ground arith;
  }
