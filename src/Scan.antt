-- ===== src/Scan.antt =====
-- src/scan.rs: the search for scanners in the local networks.
mod Decode
mod Broadcast
mod Sort
mod Inquire
mod Select
pub mod Datagrams
pub mod Collects
pub mod Broadcasts
pub mod Until
pub mod Order
pub mod Sorted
pub mod Reports
pub mod Lines
pub mod Inquiries
pub mod Hears
pub mod Sources
mod Tests
unfoldable pub use Decode.*
unfoldable pub use Broadcast.*
unfoldable pub use Sort.*
unfoldable pub use Inquire.*
unfoldable pub use Select.*
