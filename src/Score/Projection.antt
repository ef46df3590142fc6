-- ===== src/Score/Projection.antt =====
-- internal/score/projection.go: the value that stands for a score, which is encoded and hashed.
use partitur.Prelude.{String, Option, none, some, List, [], ◌∷◌, map, if◌then◌else◌}
use partitur.Dict.{Dict}
use partitur.Json.{Fields, field, end, Value, str, obj, bool, num, arr, Items, cons, nil}
use partitur.Canonical.{sorted_strings}
use partitur.Score.Document.{
  Draft, Question, ApplyGate, Expectation, Verification, Part, Output, HardCriterion,
  ReviewCriterion, AcceptanceRules, Movement, Policy, Score,
}
use partitur.Score.Views.{sort_by}

unfoldable pub items_of : List Value → Items
items_of [] = nil
items_of (v ∷ vs) = cons v (items_of vs)

abbrev array : List Value → Value
array vs = arr (items_of vs)

-- `stringsToAny`
abbrev pub strings_value : List String → Value
strings_value ss = array (map str ss)

-- A field that is there just if it has a value.
abbrev optional {ℓ} : {A : Type ℓ} → String → (A → Value) → Option A → Fields → Fields
optional name make none fs = fs
optional name make (some a) fs = field name (make a) fs

abbrev project_question : Question → Value
project_question q = obj (
    field "id" (str q.id) (
      field "question" (str q.question)
        (optional "resolution" str q.resolution (optional "waived" bool q.waived end))))

-- `projectQuestions`
unfoldable pub project_questions : List Question → Value
project_questions qs = array (map project_question (sort_by (λ (q : Question). q.id) qs))

abbrev project_gate : ApplyGate → Value
project_gate g =
    let rest = optional "waived" bool g.waived (optional "reason" str g.reason end) in
    obj (
      field "predicates" (strings_value (sorted_strings g.predicates)) (
        if g.require_set
        then field "require" (strings_value (sorted_strings g.require)) rest
        else rest))

abbrev project_expectation : Expectation → Value
project_expectation e =
    obj (optional "intent" str e.intent (optional "apply_gate" project_gate e.apply_gate end))

-- `projectVerification`
unfoldable pub project_verification : Verification → Value
project_verification v = obj (
    optional "expectation" project_expectation v.expectation
      (optional "final_movement" str v.final_movement end))

unfoldable pub project_parts : Dict Part → Fields
project_parts [] = end
project_parts ((id, p) ∷ ps) =
    field id
      (obj (
        field "capabilities" (strings_value (sorted_strings p.capabilities))
          (field "read_only" (bool p.read_only) end)))
      (project_parts ps)

abbrev project_output : Output → Value
project_output o = obj (field "id" (str o.id) (field "kind" (str o.kind) end))

abbrev project_hard : HardCriterion → Value
project_hard c = obj (
    field "id" (str c.id) (elim c.artifact [
      | some a ↦ field "artifact" (str a) (optional "expected_hash" str c.expected_hash end)
      | none ↦ field "run" (strings_value c.run) (optional "timeout_min" num c.timeout_min end)
    ]))

abbrev project_review : ReviewCriterion → Value
project_review c = obj (
    field "id" (str c.id) (
      field "findings" (str c.findings)
        (field "rubric" (strings_value (sorted_strings c.rubric)) end)))

-- `projectAcceptance`
unfoldable pub project_acceptance : AcceptanceRules → Value
project_acceptance a = obj (
    field "hard" (array (map project_hard a.hard)) (
      field "review" (array (map project_review a.review))
        (field "human_gate" (str a.human_gate) end)))

-- `projectMovements`, for one of them.
unfoldable pub project_movement : Movement → Fields
project_movement m = field "id" (str m.id) (
    field "part" (str m.part_id) (
      field "needs" (strings_value (sorted_strings m.needs)) (
        field "grants" (strings_value (sorted_strings m.grants)) (
          field "instruction" (str m.instruction) (
            field "inputs" (strings_value (sorted_strings m.inputs)) (
              field "outputs" (array (map project_output m.outputs)) (
                field "may_propose" (bool m.may_propose) (
                  field "acceptance" (project_acceptance m.acceptance)
                    (optional "phase" str m.phase end)))))))))

unfoldable pub project_movements : List Movement → List Value
project_movements [] = []
project_movements (m ∷ ms) = obj (project_movement m) ∷ project_movements ms

-- `projectPolicy`
unfoldable pub project_policy : Policy → Fields
project_policy p = field "allowed_paths" (strings_value (sorted_strings p.allowed_paths)) (
    field "side_effects" (strings_value (sorted_strings p.side_effects)) (
      field "budget"
        (obj (
          field "active_wall_clock_min" (num p.budget.active_wall_clock_min)
            (field "retries_per_movement" (num p.budget.retries_per_movement) end)))
        (field "amendment" (obj (field "auto" (str p.amendment_auto) end)) end)))

abbrev project_draft : Draft → Value
project_draft d = obj (field "interview_movement" (str d.interview_movement) end)

-- `projectionValue`
unfoldable pub projection_value : Score → Fields
projection_value s = field "score" (str s.version) (
    field "name" (str s.name) (
      field "revision" (num s.revision) (
        field "status" (str s.status) (
          field "goal" (str s.goal) (
            field "open_questions" (project_questions s.open_questions) (
              field "parts" (obj (project_parts s.parts)) (
                field "movements" (array (project_movements s.movements)) (
                  field "policy" (obj (project_policy s.policy)) (
                    optional "context" str s.context (
                      optional "draft" project_draft s.draft (
                        optional "verification" project_verification s.verification
                          (optional "extensions" obj s.extensions end))))))))))))
