-- ===== src/Model.antt =====
-- crates/model/src: the facts that the components exchange.
mod Reasons
mod Context
mod Jobs
pub mod Compiler
pub mod Flow
pub mod Definitions
pub mod Observations
unfoldable pub use Reasons.*
unfoldable pub use Context.*
unfoldable pub use Jobs.*
