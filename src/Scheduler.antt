-- ===== src/Scheduler.antt =====
-- crates/scheduler/src/lib.rs: durable, serial admission and cancellation of analysis jobs.
pub mod Config
pub mod Request
pub mod State
pub mod Events
pub mod Submit
pub mod Cancel
pub mod Worker
pub mod System
pub mod Recover
pub mod Atomicity
pub mod Log
pub mod Bounds
pub mod Safety
pub mod Choice
mod Tests
pub mod Outcomes
pub mod Restart
pub mod Serial
pub mod Traces
pub mod Rules
pub mod Changes
pub mod Eviction
