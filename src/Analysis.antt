-- ===== src/Analysis.antt =====
-- crates/analysis/src: bounded interpretations over explicitly selected facts.
pub mod Envelope
pub mod Dataflow
pub mod Trace
pub mod Complexity
pub mod Graph
