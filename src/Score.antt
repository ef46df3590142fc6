-- ===== src/Score.antt =====
-- internal/score: the compiled score, its views, and the impact of a change.
pub mod Document
pub mod Views
pub mod Impact
pub mod Pointer
pub mod Projection
pub mod Parts
pub mod Patch
pub mod Kept
pub mod Changes
pub mod Compare
pub mod Narrower
pub mod Grants
