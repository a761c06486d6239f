-- ===== src/Evaluator.antt =====
-- crates/nanoeval/src/evaluator.rs: batches of attempts.
pub mod Batches
pub mod Sweeping
pub mod Configuration
pub mod Attempt
pub mod Ordering
mod Tests
