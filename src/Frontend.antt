-- ===== src/Frontend.antt =====
-- crates/frontend-ra/src: the facts that are read from Rust source text.
pub mod Cfg
