-- ===== src/Query.antt =====
-- crates/query/src: queries over stored snapshots.
pub mod Cursor
