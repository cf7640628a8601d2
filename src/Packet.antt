-- ===== src/Packet.antt =====
-- bjnp/src/packet.rs: packets, their builder, and the parser of a packet's header.
mod Builder
mod Parse
mod Shown
pub mod RoundTrip
pub mod Bounds
mod Tests
unfoldable pub use Builder.*
unfoldable pub use Parse.*
unfoldable pub use Shown.*
