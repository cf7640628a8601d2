-- ===== src/Poll/Host.antt =====
-- bjnp/src/poll/command.rs: `Host`, a host name as thirty-two big-endian UTF-16 units.
mod Utf16
mod Encode
mod Shown
pub mod Fill
pub mod Back
pub mod Truncate
pub mod Units
pub mod Buffer
pub mod Decode
mod Tests
unfoldable pub use Utf16.*
unfoldable pub use Encode.*
unfoldable pub use Shown.*
