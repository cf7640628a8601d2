-- ===== src/Poll/Command.antt =====
-- bjnp/src/poll/command.rs: the commands of a poll, and their builder.
mod Time
mod Types
mod Raw
mod Wire
mod Builder
mod Shown
pub mod Lawful
pub mod Read
pub mod RoundTrip
pub mod Errors
pub mod Built
pub mod Tests
unfoldable pub use Time.*
unfoldable pub use Types.*
unfoldable pub use Raw.*
unfoldable pub use Wire.*
unfoldable pub use Builder.*
unfoldable pub use Shown.*
