-- ===== src/Amendment.antt =====
-- internal/amendment/evaluator.go: the evaluation of an amendment against the head of a run.
pub mod Types
pub mod Scope
pub mod Classes
pub mod Candidate
pub mod Evaluate
pub mod Narrow
pub mod Authority
pub mod Reserved
pub mod Closed
pub mod Downstream
mod Scenarios
