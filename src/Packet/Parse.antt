-- ===== src/Packet/Parse.antt =====
-- bjnp/src/packet.rs: `PacketHeaderOnly` and the conversion to a packet with its payload.
use scanner_button.Prelude.{ℕ, ◌+◌, List, length}
use scanner_button.Rust.Outcome.{Outcome, ok, ◌>>=◌, ok_or}
use scanner_button.Rust.Slice.{get_range}
use scanner_button.Serdes.Error.{ParseError, unexpected_end}
use scanner_button.Serdes.Traits.{Deserialize}
use scanner_button.Header.{Header, header_deserialize}
use scanner_button.Packet.Builder.{Packet}

pub record PacketHeaderOnly : Type 0 where
  pub header : Header
  pub payload : List ℕ

-- `usize` has 64 bits, so that `offset + payload_size` stays below 2 ^ 33.
unfoldable pub parse : List ℕ → Outcome PacketHeaderOnly ParseError
parse buffer = do
  (header, offset) ← header_deserialize.deserialize buffer
  let end = offset + header.payload_size
  payload ← ok_or (get_range buffer offset end) (unexpected_end end (length buffer))
  ok (record { header = header; payload = payload })

-- `TryFrom<PacketHeaderOnly> for Packet<T>`
unfoldable pub packet_try_from :
    {T : Type 0} ⦃d : Deserialize T⦄ → PacketHeaderOnly → Outcome (Packet T) ParseError
packet_try_from ⦃d⦄ packet = do
  (payload, _) ← d.deserialize packet.payload
  ok (record { header = packet.header; payload = payload })
