-- ===== src/Packet/Builder.antt =====
-- bjnp/src/packet.rs: `Packet` and `PacketBuilder`.
use scanner_button.Prelude.{ℕ, ◌+◌, ◌%◌, ◌^◌, Option, none, some}
use scanner_button.Rust.Outcome.{◌>>=◌}
use scanner_button.Serdes.Traits.{Serialize}
use scanner_button.Header.{Header, PacketType, PayloadType, header_serialize}

pub record Packet (T : Type 0) : Type 0 where
  pub header : Header
  pub payload : T

-- `Serialize for Packet<T>`: the header, then the payload.
instance abbrev pub packet_serialize : {T : Type 0} ⦃s : Serialize T⦄ → Serialize (Packet T)
packet_serialize ⦃s⦄ = record {
  serialize = λ packet out. do
    out' ← header_serialize.serialize packet.header out
    s.serialize packet.payload out';
  size = λ packet. header_serialize.size packet.header + s.size packet.payload;
}

pub record PacketBuilder : Type 0 where
  pub packet_type : PacketType
  pub payload_type : PayloadType
  pub error : Option ℕ
  pub sequence : Option ℕ
  pub job_id : Option ℕ

unfoldable pub new : PacketType → PayloadType → PacketBuilder
new packet_type payload_type = record {
  packet_type = packet_type;
  payload_type = payload_type;
  error = none;
  sequence = none;
  job_id = none;
}

unfoldable pub with_packet_type : PacketBuilder → PacketType → PacketBuilder
with_packet_type b packet_type = record b { packet_type = packet_type }

unfoldable pub with_payload_type : PacketBuilder → PayloadType → PacketBuilder
with_payload_type b payload_type = record b { payload_type = payload_type }

unfoldable pub with_error : PacketBuilder → ℕ → PacketBuilder
with_error b error = record b { error = some error }

unfoldable pub with_sequence : PacketBuilder → ℕ → PacketBuilder
with_sequence b sequence = record b { sequence = some sequence }

unfoldable pub with_job_id : PacketBuilder → ℕ → PacketBuilder
with_job_id b job_id = record b { job_id = some job_id }

abbrev pub unwrap_or : {A : Type 0} → A → Option A → A
unwrap_or d none = d
unwrap_or d (some a) = a

-- `payload.size() as u32` wraps.
unfoldable pub build : {T : Type 0} ⦃s : Serialize T⦄ → PacketBuilder → T → Packet T
build ⦃s⦄ b payload = record {
  header = record {
    packet_type = b.packet_type;
    payload_type = b.payload_type;
    error = unwrap_or 0 b.error;
    sequence = unwrap_or 0 b.sequence;
    job_id = b.job_id;
    payload_size = s.size payload % 2 ^ 32;
  };
  payload = payload;
}
