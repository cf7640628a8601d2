-- ===== src/Discover.antt =====
-- bjnp/src/discover.rs: the response of a discover command.
mod Address
mod Wire
mod Shown
pub mod RoundTrip
pub mod Errors
pub mod Names
pub mod Texts
pub mod Tests
unfoldable pub use Address.*
unfoldable pub use Wire.*
unfoldable pub use Shown.*
