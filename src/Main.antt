-- ===== src/Main.antt =====
-- src/main.rs: the command line.
mod Args
pub mod Patience
pub mod Program
mod Tests
unfoldable pub use Args.*
