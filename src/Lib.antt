-- ===== src/Lib.antt =====
-- Partitur runs AI agents over a score: a driver appends events to a run's journal, and the state
-- of the run is what internal/runstate projects from it. After a crash, internal/recovery plans
-- from that projection, and from what was observed of processes and files, the one next action; a
-- failure is classified, and its recorded disposition realized, by internal/successor; and an
-- amendment of the score is evaluated against the projection by internal/amendment. This library
-- models these parts and what passes between them: the planner and the evaluator read the modelled
-- state, and the events that the planner asks for are taken by the modelled projection.
--
-- Which file models which code:
--   Prelude, Prelude/*: names that are shared; Boolean tests, lists of strings (slices.Sort,
--     slices.Equal), and Go's int64 and uint64, whose additions wrap around.
--   Dict: Go's maps, as association lists with one entry for each key.
--   Json: the values of encoding/json and the accessors at the end of internal/runstate/apply.go.
--   RunState/Types, RunState/Event, RunState/State: the records of internal/runstate/types.go, and
--     NewState and InitialMovementState of internal/runstate/state.go.
--   RunState/Action: a handler reads and writes the state and may stop with an error. The state is
--     returned beside the error, as in the source, with what was written before.
--   RunState/Waiting, RunState/Guards, RunState/Decode, RunState/Review: the helpers of
--     internal/runstate/apply.go.
--   RunState/Handlers/*: one function on_<event> for each case of the switch of Apply. Where the
--     checks of a case come before its writes, they are a function of their own, require_<...>.
--   RunState/Payload/*: validatePayload, with payloadFields (Names), validatePayloadTypes (Types),
--     validateNestedPayload (Nested, Shapes, Raised) and validatePayloadValues (Values).
--   RunState/Apply: Apply, as validate_payload, require_causation, the barrier of a pending prepare,
--     dispatch (the switch) and note_applied (the applied events that derived events refer to).
--   RunState/Replay: replayJournal of internal/runstore/journal.go.
--   RunState/Frame, RunState/Footprint, RunState/Apply/Accepted: what each part leaves alone, which
--     the theorems about one field of the state rest on.
--   RunState/Run, Pending, Head, Fencing, Refused, Barrier, Derived, Transactions, Accounting,
--     Budget, Holding, Settled, Cancelled, Outcomes: what is shown of the run, of a pending prepare,
--     of the head, of the authority, of errors, of derived events, of transactions, of the budget,
--     of decisions, of a cancellation and of acceptances.
--   RunState/Reached: what is shown of every state that a journal reaches from a seed.
--   RunState/Scenarios: the theorems at concrete events and states.
--   Recovery/Names, Types, Decision, Facts, Least, Scheduler, Plan, Attempt, Acceptance:
--     internal/recovery/planner.go, with its four tables plan, plan_attempt, plan_acceptance and
--     plan_scheduler.
--   Recovery/Consequence: Classify, LatestEventID, ActionMovement and the causing event of
--     internal/recoveryconsequence/consequence.go.
--   Recovery/Valid, Named, Clear, Owner, Readied, Progress, Evaluated, Journaled, Requests, Causes:
--     what is shown of the tables, alone and beside the projection. Recovery/Scenarios: at
--     concrete inputs.
--   Successor, Successor/Proofs, Successor/Chain: Classify and Realize of internal/successor/oracle.go.
--   Canonical: compareUTF16 of internal/canonical/encode.go, and sortedStrings of
--     internal/score/projection.go.
--   Score/Document, Score/Views: the compiled score of internal/score/types.go and its views, of
--     internal/score/access.go. Score/Impact: the impact and Contains of internal/score/impact.go.
--   Score/Pointer, Score/Patch: ApplyPatch of internal/score/patch.go, on the JSON values of Json.
--     Score/Parts, Score/Kept: what is shown of pointers, and of the fields that an edit keeps.
--   Score/Projection: projectionValue of internal/score/projection.go. Score/Changes, Score/Compare:
--     Compare of internal/score/impact.go. Score/Narrower, Score/Grants: what is shown of it.
--   Cast, Cast/Exact: EvaluateEnforcement of internal/cast/enforcement.go.
--   Amendment/Types, Scope, Classes, Candidate, Evaluate: internal/amendment/evaluator.go, Evaluate
--     with its guards in order. Amendment/Narrow, Authority, Reserved, Closed, Downstream:
--     what is shown of it.
--
-- Choices of the model. An event carries its payload parsed, or none where parseJSONExact fails.
-- An error keeps the sentinel that it wraps, the event type and, of Apply itself, the reason; the
-- texts of the checks inside a payload are not kept. A float64 is its truncation with what that
-- drops. A state is a value, so cloneState has nothing to do. Go leaves the order of a map's range
-- open: the loops here sort what they collect or give the same result in each order. Two payloads
-- are compared as JSON values, where the source compares the texts that json.Marshal writes.
-- Assertions that panic on an unvalidated payload give the zero value, and the validation excludes
-- them.
-- The planner's inputs keep the source's fields; a nil pointer is an option. The evaluator's errors
-- are `none`, and its score values, patches and hashes are compared through the operations of a
-- Toolchain, which stand for canonical.Encode, score.ApplyPatch, score.CompileValue, score.Compare
-- and workspace.CandidateCompositionHash; executiondep's CollectedAttempts.Changed is a function.
-- Amendment/Authority puts the model of Compare in its place, and Amendment/Reserved is about that
-- of ApplyPatch. Compare takes the hash of a value under its selector as an operation, and two
-- values are equal there as JSON values, which is when their canonical texts are. A []any that an
-- assertion of the source takes is empty where it is none, which no projection has.
--
-- Recursion is structural, with two exceptions in Amendment. select_downstream has one unit of fuel
-- more than there are movements: each pass but the last selects a movement that was not selected,
-- so the loop ends before the fuel does. place has one unit for each movement that is to be
-- ordered, and each round orders one or stops with the error.
--
-- Not modelled: the journal's files and locks (internal/runstore), the driver, the adapters, the
-- workspace and the commands, which are I/O around these parts; IdempotencyKey,
-- CancellationPayload and the approval plan of internal/runstate; the handlers of
-- internal/recoveryconsequence that append to the journal; the compiler of internal/score; the
-- canonical encoder and the resolution of a cast.
pub mod Prelude
pub mod Json
pub mod Dict
pub mod RunState
pub mod Recovery
pub mod Successor
pub mod Canonical
pub mod Score
pub mod Cast
pub mod Amendment
