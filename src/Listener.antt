-- ===== src/Listener.antt =====
-- src/poll.rs: the listener, a state machine over the channel.
mod Launch
mod Handlers
mod Listen
pub mod Frame
pub mod Calls
pub mod Steps
pub mod Rounds
pub mod Dialogue
pub mod Opening
pub mod Recovers
pub mod Environment
pub mod Carried
pub mod Serving
pub mod Runs
pub mod Polling
pub mod Tests
unfoldable pub use Launch.*
unfoldable pub use Handlers.*
unfoldable pub use Listen.*
