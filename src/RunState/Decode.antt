-- ===== src/RunState/Decode.antt =====
-- internal/runstate/apply.go: the structured values inside a payload. The source's error texts are
-- not kept: `none` or `false` is an error.
use partitur.Prelude.{
  ℕ, String, Bool, true, false, ◌&&◌, ◌||◌, not, Option, none, some, List, [], ◌∷◌, ◌++◌, map, pos,
  ltb, leb, leb_ℤ, str_eq, contains, is_some, ◌+◌, ◌*◌, ◌-◌, ◌^◌, if◌then◌else◌,
}
use Prim.Native.Char.{code}
use partitur.Dict.{Dict}
use partitur.Json.{
  Value, Fields, end, field, get, has_field, names, as_object, as_string, as_array, as_bool,
  as_number, must_object, must_string, must_int, must_uint, must_bool, string_field, Number, items,
}
use partitur.RunState.Types.{
  StartIdentity, linux, darwin, ProcessIdentity, CriterionLaunch, spawned, spawn_failed, in_process,
  Disposition, FindingReference, CandidateContributor, DeliveredResolution, DeliveredFeedback,
}

abbrev all_present : Fields → List String → Bool
all_present fs [] = true
all_present fs (n ∷ ns) = has_field fs n && all_present fs ns

abbrev all_allowed : List String → List String → Bool
all_allowed [] allowed = true
all_allowed (n ∷ ns) allowed = contains allowed n && all_allowed ns allowed

-- `fields`: every required name is there, and no name that is neither required nor optional.
unfoldable pub fields : Fields → List String → List String → Bool
fields fs required optional =
    all_present fs required && all_allowed (names fs) (required ++ optional)

-- `optionalNames`
unfoldable pub optional_names : Fields → List String → List String
optional_names fs [] = []
optional_names fs (n ∷ ns) =
    let rest = optional_names fs ns in if has_field fs n then n ∷ rest else rest

abbrev matches {ℓ} : {A : Type ℓ} → (Value → Option A) → Option Value → Bool
matches cast none = false
matches cast (some v) = is_some (cast v)

unfoldable pub all_cast {ℓ} : {A : Type ℓ} → (Value → Option A) → Fields → List String → Bool
all_cast cast fs [] = true
all_cast cast fs (n ∷ ns) = matches cast (get fs n) && all_cast cast fs ns

-- A non-negative integer of at most 2^53 - 1.
abbrev pub is_safe : Number → Bool
is_safe n =
    leb_ℤ (pos 0) n.truncated && leb_ℤ n.truncated (pos (2 ^ 53 - 1)) && not (ltb 0 n.fraction)

abbrev pub as_safe : Value → Option Number
as_safe v = elim (as_number v) [ none ↦ none | some n ↦ if is_safe n then some n else none ]

-- `namedTypes`: strings, objects, arrays, Booleans and integers by name.
unfoldable pub named_types :
    Fields → List String → List String → List String → List String → List String → Bool
unfolding all_cast items
named_types fs strings objects arrays bools integers =
    all_cast as_string fs strings
    && all_cast as_object fs objects
    && all_cast as_array fs arrays
    && all_cast as_bool fs bools
    && all_cast as_safe fs integers

-- The digits of `strconv.ParseUint(value, 10, 64)`, with the number so far.
digits_from : ℕ → String → Option ℕ
digits_from n String.[] = some n
digits_from n (String.◌∷◌ c s) =
    let rest = digits_from (n * 10 + (code c - 48)) s in
    if leb 48 (code c) && leb (code c) 57 then rest else none

abbrev fits_uint64 : Option ℕ → Bool
fits_uint64 none = false
fits_uint64 (some n) = ltb n (2 ^ 64)

-- `validUintString`
unfoldable pub valid_uint_string : String → Bool
unfolding digits_from
valid_uint_string s = not (str_eq s "") && fits_uint64 (digits_from 0 s)

abbrev linux_identity : Fields → Option StartIdentity
linux_identity fs =
    if fields fs ("platform" ∷ "boot_id" ∷ "start_ticks" ∷ []) []
    then if str_eq (must_string fs "boot_id") ""
        || not (valid_uint_string (must_string fs "start_ticks"))
      then none
      else some (linux (must_string fs "boot_id") (must_string fs "start_ticks"))
    else none

abbrev darwin_identity : Fields → Option StartIdentity
darwin_identity fs =
    if fields fs ("platform" ∷ "start_tvsec" ∷ "start_tvusec" ∷ []) []
      && named_types fs ("platform" ∷ []) [] [] [] ("start_tvsec" ∷ "start_tvusec" ∷ [])
      && ltb (must_uint fs "start_tvusec") 1_000_000
    then some (darwin (must_uint fs "start_tvsec") (must_uint fs "start_tvusec"))
    else none

abbrev identity_on : Fields → Option String → Option StartIdentity
identity_on fs none = none
identity_on fs (some platform) =
    if str_eq platform "linux"
    then linux_identity fs
    else if str_eq platform "darwin"
    then darwin_identity fs
    else none

-- `startIdentity`
unfoldable pub start_identity : Fields → Option StartIdentity
start_identity fs = identity_on fs (string_field fs "platform")

abbrev process_at : Fields → Option StartIdentity → Option ProcessIdentity
process_at fs none = none
process_at fs (some start) =
    if leb_ℤ (must_int fs "pid") (pos 0) || leb_ℤ (must_int fs "session_id") (pos 0)
    then none
    else some
        (record { pid = must_int fs "pid"; session_id = must_int fs "session_id"; start = start })

-- `processIdentity`
unfoldable pub process_identity : Fields → Option ProcessIdentity
process_identity fs =
    if fields fs ("pid" ∷ "session_id" ∷ "start_identity" ∷ []) []
    then process_at fs (start_identity (must_object fs "start_identity"))
    else none

abbrev spawned_by : Option ProcessIdentity → Option CriterionLaunch
spawned_by none = none
spawned_by (some p) = some (spawned p)

abbrev spawned_with : Option Fields → Option CriterionLaunch
spawned_with none = none
spawned_with (some fs) = spawned_by (process_identity fs)

abbrev failed_with : Option Bool → Option CriterionLaunch
failed_with (some true) = some spawn_failed
failed_with _ = none

-- The `switch` of `criterionLaunch`, over the two optional fields.
abbrev launch_of : Option Value → Option Value → Option CriterionLaunch
launch_of (some p) (some f) = none
launch_of (some p) none = spawned_with (as_object p)
launch_of none (some f) = failed_with (as_bool f)
launch_of none none = some in_process

-- `criterionLaunch`
unfoldable pub criterion_launch : Fields → Option CriterionLaunch
criterion_launch p = launch_of (get p "criterion_process") (get p "spawn_failed")

-- `disposition`
unfoldable pub disposition : Fields → Disposition
disposition fs = record {
  charged = must_string fs "charged";
  movement_terminal = must_bool fs "movement_terminal";
  terminal_reason = must_string fs "terminal_reason";
}

abbrev pub object_of : Value → Fields
object_of v = elim (as_object v) [ none ↦ end | some fs ↦ fs ]

abbrev bool_of : Value → Bool
bool_of v = elim (as_bool v) [ none ↦ false | some b ↦ b ]

-- `boolMap`
unfoldable pub bool_map : Fields → Dict Bool
bool_map end = []
bool_map (field k v fs) = (k, bool_of v) ∷ bool_map fs

abbrev contributor : Value → CandidateContributor
contributor v = record {
  movement_id = must_string (object_of v) "movement_id";
  change_set_id = must_string (object_of v) "change_set_id";
}

-- `candidateContributors`
unfoldable pub candidate_contributors : List Value → List CandidateContributor
candidate_contributors = map contributor

abbrev finding_reference : Value → FindingReference
finding_reference v = record {
  artifact_instance_id = must_string (object_of v) "artifact_instance_id";
  finding_id = must_string (object_of v) "finding_id";
}

-- `findingReferences`
unfoldable pub finding_references : List Value → List FindingReference
finding_references = map finding_reference

-- `containsFindingReference`
unfoldable pub contains_finding_reference : List FindingReference → FindingReference → Bool
contains_finding_reference [] c = false
contains_finding_reference (r ∷ rs) c =
    str_eq r.artifact_instance_id c.artifact_instance_id && str_eq r.finding_id c.finding_id
    || contains_finding_reference rs c

abbrev delivered_resolution : Value → DeliveredResolution
delivered_resolution v = record {
  decision_id = must_string (object_of v) "decision_id";
  kind = must_string (object_of v) "kind";
  digest = must_string (object_of v) "digest";
}

-- `deliveredResolutions`
unfoldable pub delivered_resolutions : List Value → List DeliveredResolution
delivered_resolutions = map delivered_resolution

abbrev delivered_feedback_of : Value → DeliveredFeedback
delivered_feedback_of v = record {
  previous_attempt_id = must_string (object_of v) "previous_attempt_id";
  kind = must_string (object_of v) "kind";
  artifact_instance_id = must_string (object_of v) "artifact_instance_id";
  content_hash = must_string (object_of v) "content_hash";
}

-- `deliveredFeedback`
unfoldable pub delivered_feedback : List Value → List DeliveredFeedback
delivered_feedback = map delivered_feedback_of
