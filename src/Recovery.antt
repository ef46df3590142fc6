-- ===== src/Recovery.antt =====
-- internal/recovery/planner.go: the selection of the next recovery action.
pub mod Names
pub mod Types
pub mod Decision
pub mod Facts
pub mod Least
pub mod Scheduler
pub mod Plan
pub mod Attempt
pub mod Acceptance
pub mod Valid
mod Named
mod Clear
mod Readied
mod Progress
mod Owner
mod Evaluated
mod Journaled
mod Requests
pub mod Consequence
pub mod Causes
mod Scenarios
