-- ===== src/Analysis/Complexity.antt =====
-- crates/analysis/src/compiler_complexity.rs: the cyclomatic number of one imported compiler body.
pub mod Report
pub mod Shape
pub mod Measure
pub mod Ends
pub mod Blocks
pub mod Read
pub mod Links
pub mod Reach
pub mod Sums
pub mod Cyclomatic
pub mod Correct
mod Search
mod Tests
