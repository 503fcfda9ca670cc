-- ===== src/Analysis/Dataflow.antt =====
-- crates/analysis/src/dataflow.rs: whole-local reaching definitions over one compiler body.
pub mod Facts
pub mod Run
pub mod Input
pub mod Solve
pub mod Emit
pub mod Report
pub mod Uses
pub mod Complete
pub mod Ends
pub mod Early
pub mod Emits
pub mod Budget
pub mod Reports
mod Tests
pub mod Executions
pub mod Cover
pub mod Join
pub mod Advances
pub mod Soundness
pub mod Fixpoint
