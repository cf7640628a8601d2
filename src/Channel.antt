-- ===== src/Channel.antt =====
-- src/channel.rs: packets that are sent to the scanner and received from it.
mod Wire
mod Sockets
pub mod Sends
pub mod Receives
pub mod Connects
pub mod Tests
unfoldable pub use Wire.*
unfoldable pub use Sockets.*
