-- ===== src/RunState/Payload.antt =====
-- internal/runstate/apply.go: the validation of an event's payload.
pub mod Names
pub mod Types
pub mod Values
pub mod Shapes
pub mod Raised
pub mod Nested
pub mod Validate
