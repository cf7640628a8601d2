-- ===== src/Poll.antt =====
-- bjnp/src/poll: the poll command and its response.
pub mod Response
pub mod Host
pub mod Command
