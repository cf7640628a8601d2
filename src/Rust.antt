-- ===== src/Rust.antt =====
-- What the code uses of the Rust language and its standard library.
pub mod Outcome
pub mod Slice
pub mod Word
pub mod Bits
pub mod Run
pub mod Triples
pub mod Float
pub mod Rounding
pub mod ParseFloat
pub mod Text
pub mod Splits
pub mod Format
pub mod Net
