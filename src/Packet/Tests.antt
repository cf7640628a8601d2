-- ===== src/Packet/Tests.antt =====
-- bjnp/src/packet.rs: runs at concrete inputs.
use scanner_button.Prelude.{
  ℕ, ◌+◌, ◌≡◌, refl, none, List, [], ◌∷◌, ◌++◌, arith, take, ltb, if◌then◌else◌,
}
use scanner_button.Rust.Outcome.{ok, err, ◌>>=◌}
use scanner_button.Serdes.Error.{unexpected_end}
use scanner_button.Serdes.Traits.{deserialize_sized, serialize_to_vec}
use scanner_button.Header.{Header, IsHeader, PacketType, PayloadType}
use scanner_button.Header.RoundTrip.{header_bytes}
use scanner_button.Packet.Builder.{PacketBuilder, packet_serialize, new, build, with_sequence}
use scanner_button.Packet.Parse.{parse, packet_try_from}
use scanner_button.Packet.RoundTrip.{IsPacketBuilder, packet_round_trip}
use scanner_button.Packet.Bounds.{IsParsed, parse-IsParsed, parse_truncated}
use scanner_button.Rust.Word.{from_be_bytes}
use scanner_button.Serdes.Field.{try_from_u8}
use scanner_button.Header.{header_try_from}
use scanner_button.Discover.{mac_size, ip_size, response_serialize, response_deserialize}
use scanner_button.Discover.RoundTrip.{Response-IsCodec}
use scanner_button.Discover.Tests.{scanner, scanner-IsResponse}

abbrev builder : PacketBuilder
unfolding new with_sequence
builder = with_sequence (new PacketType.scanner_response PayloadType.discover) 3

builder-IsPacketBuilder : IsPacketBuilder builder
unfolding builder
builder-IsPacketBuilder = record {
  error_byte = omega arith;
  sequence_u16 = omega arith;
  job_id_u16 = tt;
}

packet_round_trip_example :
    (do
      bytes ← serialize_to_vec (build builder scanner)
      packet ← parse (bytes ++ (1 ∷ 2 ∷ []))
      packet_try_from packet)
    ≡ ok (build builder scanner)
packet_round_trip_example =
    packet_round_trip Response-IsCodec builder scanner (1 ∷ 2 ∷ []) builder-IsPacketBuilder
      scanner-IsResponse (unfold mac_size ip_size in omega arith)

abbrev small_header : Header
small_header = record {
  packet_type = PacketType.scanner_response;
  payload_type = PayloadType.poll;
  error = 0;
  sequence = 1;
  job_id = none;
  payload_size = 3;
}

abbrev small_bytes : List ℕ
small_bytes =
    b'B' ∷ b'J' ∷ b'N' ∷ b'P' ∷ 0x82 ∷ 0x32 ∷ 0 ∷ 0 ∷ 0 ∷ 1 ∷ 0 ∷ 0 ∷ 0 ∷ 0 ∷ 0 ∷ 3 ∷ 7 ∷ 8 ∷ 9 ∷ 10
    ∷ []

small_bytes-parse :
    parse small_bytes ≡ ok (record { header = small_header; payload = 7 ∷ 8 ∷ 9 ∷ [] })
unfolding parse deserialize_sized header_try_from try_from_u8 from_be_bytes
small_bytes-parse = refl

parse-IsParsed_example : IsParsed small_bytes (parse small_bytes)
parse-IsParsed_example = parse-IsParsed small_bytes

parse_truncated_example :
    parse (take 18 (header_bytes small_header ++ (7 ∷ 8 ∷ 9 ∷ [])))
    ≡ err (unexpected_end (if ltb 18 16 then 16 else 16 + 3) 18)
parse_truncated_example = parse_truncated small_header (7 ∷ 8 ∷ 9 ∷ []) 18 valid refl (omega arith)
  where
    valid : IsHeader small_header
    valid = record {
      error_byte = omega arith;
      sequence_u16 = omega arith;
      job_id_u16 = tt;
      payload_size_u32 = omega arith;
    }
