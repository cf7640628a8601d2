-- ===== src/Serdes.antt =====
-- bjnp/src/serdes.rs: the traits `Serialize` and `Deserialize`, their blanket implementations for
-- packed structs, the errors, and the macros for fields that are enums.
-- `Serialize` and `Deserialize` are records of operations, taken as instance arguments; the writer
-- is the growing vector of `serialize_to_vec`, the only one that the program writes to.
pub mod Error
pub mod Field
pub mod Traits
pub mod Raw
pub mod Shown
