-- ===== src/Analysis/Graph.antt =====
-- crates/analysis/src/graph.rs: the selected call graph, its metrics and its paths.
pub mod Prepare
pub mod Path
pub mod Back
pub mod Walk
pub mod Selected
pub mod Prepared
pub mod Explored
pub mod Found
pub mod Metrics
pub mod Report
pub mod Distribution
pub mod Counted
pub mod Parts
pub mod Tallied
pub mod Analyzed
mod Tests
mod MetricsTests
