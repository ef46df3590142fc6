-- ===== src/RunState/Handlers.antt =====
-- The cases of the `switch` in `Apply`, a module for each group of events.
pub mod Run
pub mod Movement
pub mod Attempt
pub mod Acceptance
pub mod Execution
pub mod Application
pub mod Blocked
pub mod Decision
pub mod Amendment
pub mod Head
pub mod Prepare
