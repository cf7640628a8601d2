-- ===== src/Identity.antt =====
-- bjnp/src/identity.rs: the response of an identity command.
mod Wire
pub mod Entries
pub mod Reads
pub mod Writes
pub mod Tests
unfoldable pub use Wire.*
