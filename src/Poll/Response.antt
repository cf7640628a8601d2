-- ===== src/Poll/Response.antt =====
-- bjnp/src/poll/response.rs: the response of a poll, and the interrupt that a button press sends.
mod Types
mod Button
mod Wire
mod Shown
pub mod RoundTrip
pub mod Status
pub mod Safety
pub mod Tests
unfoldable pub use Types.*
unfoldable pub use Button.*
unfoldable pub use Wire.*
unfoldable pub use Shown.*
