-- ===== src/Frontend/Cfg.antt =====
-- crates/frontend-ra/src/configuration.rs: which parts of a file the selected configuration keeps.
pub mod Syntax
pub mod Predicate
pub mod Sound
pub mod Keeps
pub mod Known
pub mod Files
pub mod Reference
pub mod Entries
pub mod Inherit
pub mod Features
pub mod Closure
pub mod Requested
pub mod Configured
mod Tests
