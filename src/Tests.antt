-- ===== src/Tests.antt =====
-- Examples at concrete inputs.
pub mod Machine
pub mod Joins
pub mod Rows
pub mod Phases
pub mod Routing
pub mod Batches
pub mod Distribution
