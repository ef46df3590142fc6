-- ===== src/RunState.antt =====
-- internal/runstate: the projection of the journal.
pub mod Types
pub mod Event
pub mod State
pub mod Action
pub mod Waiting
pub mod Guards
pub mod Decode
pub mod Handlers
pub mod Review
pub mod Payload
pub mod Apply
pub mod Replay
pub mod Frame
pub mod Footprint
pub mod Run
pub mod Pending
pub mod Head
pub mod Fencing
pub mod Refused
pub mod Barrier
pub mod Derived
mod Budget
pub mod Transactions
pub mod Accounting
pub mod Holding
pub mod Outcomes
pub mod Settled
pub mod Cancelled
pub mod Reached
mod Scenarios
