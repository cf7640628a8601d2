-- ===== src/Header.antt =====
-- bjnp/src/header.rs: the sixteen bytes in front of every packet.
mod Types
mod Wire
mod Shown
pub mod RoundTrip
pub mod Errors
pub mod Accepts
mod Tests
unfoldable pub use Types.*
unfoldable pub use Wire.*
unfoldable pub use Shown.*
