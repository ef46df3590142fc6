-- ===== src/Successor.antt =====
-- internal/successor/oracle.go: what follows a failure. `Classify` decides a disposition before the
-- failure is recorded, and `Realize` replays the recorded one.
pub mod Proofs
mod Chain
mod Scenarios
use partitur.Prelude.{
  String, Bool, true, false, ◌&&◌, ◌||◌, not, Option, none, some, List, [], ◌∷◌, str_eq, ℤ, pos,
  ltb_ℤ, zero, contains, if◌then◌else◌,
}
use partitur.RunState.Types.{Disposition}

pub data Error : Type 0 where
  unknown_failure_case invalid_input invalid_disposition fallback_unavailable : Error

pub data Result (A : Type 0) : Type 0 where
  ok : A → Result A
  err : Error → Result A

pub record FailureCase : Type 0 where
  pub attempt_kind : String
  pub acceptance_reason : String

pub record ClassificationInput : Type 0 where
  pub failure : FailureCase
  pub has_unvisited_fallback : Bool
  pub retries_consumed : ℤ
  pub retries_per_movement : ℤ
  pub remaining_time_ms : ℤ

-- `failureClass`, with the reason of a failure that ends the movement at once.
pub data FailureClass : Type 0 where
  infrastructure quality : FailureClass
  immediately_terminal : String → FailureClass

abbrev infrastructure_kinds : List String
infrastructure_kinds =
    "adapter_unavailable" ∷ "model_unavailable" ∷ "provider_timeout" ∷ "rate_limited"
    ∷ "authentication" ∷ []

abbrev terminal_kinds : List String
terminal_kinds = "grant_denied" ∷ "protocol_error" ∷ "budget_exhausted" ∷ []

-- `classifyFailure`
unfoldable pub classify_failure : FailureCase → Result FailureClass
classify_failure f =
    if not (str_eq f.attempt_kind "") && not (str_eq f.acceptance_reason "")
    then err invalid_input
    else if not (str_eq f.acceptance_reason "")
    then ok quality
    else if contains infrastructure_kinds f.attempt_kind
    then ok infrastructure
    else if str_eq f.attempt_kind "task_failed"
    then ok quality
    else if contains terminal_kinds f.attempt_kind
    then ok (immediately_terminal f.attempt_kind)
    else err unknown_failure_case

-- `retryDisposition`
abbrev pub retry_disposition : String → Disposition
retry_disposition charge = record {
  charged = charge;
  movement_terminal = false;
  terminal_reason = "";
}

-- `terminalDisposition`
abbrev pub terminal_disposition : String → Disposition
terminal_disposition reason = record {
  charged = "none";
  movement_terminal = true;
  terminal_reason = reason;
}

abbrev is_zero : ℤ → Bool
is_zero (pos zero) = true
is_zero _ = false

-- `reasonForBudget`
abbrev pub reason_for_budget : ℤ → String → String
reason_for_budget remaining exhausted = if is_zero remaining then "budget_exhausted" else exhausted

abbrev pub by_class : ClassificationInput → FailureClass → Disposition
by_class i infrastructure =
    if i.has_unvisited_fallback && ltb_ℤ (pos 0) i.remaining_time_ms
    then retry_disposition "fallback"
    else terminal_disposition (reason_for_budget i.remaining_time_ms "fallbacks_exhausted")
by_class i quality =
    if ltb_ℤ i.retries_consumed i.retries_per_movement && ltb_ℤ (pos 0) i.remaining_time_ms
    then retry_disposition "quality_retry"
    else terminal_disposition (reason_for_budget i.remaining_time_ms "retries_exhausted")
by_class i (immediately_terminal reason) = terminal_disposition reason

abbrev negative_budget : ClassificationInput → Bool
negative_budget i =
    ltb_ℤ i.remaining_time_ms (pos 0)
    || (ltb_ℤ i.retries_consumed (pos 0) || ltb_ℤ i.retries_per_movement (pos 0))

-- `Classify`
unfoldable pub classify : ClassificationInput → Result Disposition
classify i =
    if negative_budget i
    then err invalid_input
    else elim (classify_failure i.failure) [ err x ↦ err x | ok c ↦ ok (by_class i c) ]

pub data Action : Type 0 where
  pending_successor movement_failed : Action

-- `Binding` is taken for its fallbacks.
pub record RealizationInput : Type 0 where
  pub disposition : Disposition
  pub current_performer : String
  pub fallbacks : List String
  pub visited_performers : List String

pub record Realization : Type 0 where
  pub action : Action
  pub performer : String
  pub charge : String
  pub terminal_reason : String

-- The loop of `nextUnvisitedFallback`.
unfoldable pub next_unvisited : List String → List String → Option String
next_unvisited seen [] = none
next_unvisited seen (x ∷ xs) =
    let rest = next_unvisited seen xs in if contains seen x then rest else some x

-- `nextUnvisitedFallback`
abbrev pub next_unvisited_fallback : List String → String → List String → Option String
next_unvisited_fallback fallbacks current visited = next_unvisited (current ∷ visited) fallbacks

-- The test of `validateRetryDisposition` that fails.
abbrev ends_movement : Disposition → Bool
ends_movement d = d.movement_terminal || not (str_eq d.terminal_reason "")

abbrev pending : String → String → Result Realization
pending performer charge = ok (record {
  action = pending_successor;
  performer = performer;
  charge = charge;
  terminal_reason = "";
})

abbrev realize_retry : RealizationInput → Result Realization
realize_retry i =
    if ends_movement i.disposition
    then err invalid_disposition
    else if str_eq i.current_performer ""
    then err invalid_input
    else pending i.current_performer "quality_retry"

abbrev realize_fallback : RealizationInput → Result Realization
realize_fallback i =
    if ends_movement i.disposition
    then err invalid_disposition
    else elim (next_unvisited_fallback i.fallbacks i.current_performer i.visited_performers) [
      | none ↦ err fallback_unavailable
      | some performer ↦ pending performer "fallback"
    ]

abbrev realize_none : RealizationInput → Result Realization
realize_none i =
    if not i.disposition.movement_terminal || str_eq i.disposition.terminal_reason ""
    then err invalid_disposition
    else ok (record {
      action = movement_failed;
      performer = "";
      charge = "none";
      terminal_reason = i.disposition.terminal_reason;
    })

-- `Realize`
unfoldable pub realize : RealizationInput → Result Realization
realize i =
    if str_eq i.disposition.charged "quality_retry"
    then realize_retry i
    else if str_eq i.disposition.charged "fallback"
    then realize_fallback i
    else if str_eq i.disposition.charged "none"
    then realize_none i
    else err invalid_disposition
