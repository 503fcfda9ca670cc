-- ===== src/Analysis/Trace.antt =====
-- crates/analysis/src/trace.rs: the comparison of two trace windows.
pub mod Window
pub mod Compare
pub mod Anchors
pub mod Report
pub mod Prefix
pub mod Interval
pub mod Selection
mod Tests
