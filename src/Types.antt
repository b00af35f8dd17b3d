-- ===== src/Types.antt =====
-- argus/crates/argus-kernel/src/types.rs and the capability kinds of capability.rs.
mod Ids
mod Levels
mod Records
pub use Ids.*
unfoldable pub use Levels.*
unfoldable pub use Records.*
