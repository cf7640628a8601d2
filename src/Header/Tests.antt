-- ===== src/Header/Tests.antt =====
-- bjnp/src/header.rs: runs at concrete inputs.
use scanner_button.Prelude.{ℕ, ◌≡◌, refl, some, List, [], ◌∷◌, ◌++◌, arith, take, drop, length, ◌≤◌}
use scanner_button.Rust.Outcome.{ok, err, ◌>>=◌}
use scanner_button.Serdes.Error.{invalid_format, invalid_byte}
use scanner_button.Serdes.Traits.{deserialize_sized, serialize_to_vec}
use scanner_button.Rust.Word.{from_be_bytes}
use scanner_button.Serdes.Field.{try_from_u8}
use scanner_button.Header.Types.{PacketType, PayloadType}
use scanner_button.Header.Wire.{Header, IsHeader, header_sized, header_try_from}
use scanner_button.Header.Wire.{header_serialize}
use scanner_button.Header.RoundTrip.{header_round_trip, header_bytes}
use scanner_button.Header.Errors.{IsRefused, header_error-IsRefused}
use scanner_button.Header.Accepts.{header_accepts}

abbrev poll_header : Header
poll_header = record {
  packet_type = PacketType.scanner_command;
  payload_type = PayloadType.poll;
  error = 0;
  sequence = 0x1234;
  job_id = some 7;
  payload_size = 80;
}

poll_header-IsHeader : IsHeader poll_header
poll_header-IsHeader = record {
  error_byte = omega arith;
  sequence_u16 = omega arith;
  job_id_u16 = (omega arith, λ e. omega arith);
  payload_size_u32 = omega arith;
}

poll_header_read_back :
    (do
      bytes ← serialize_to_vec poll_header
      deserialize_sized header_sized (bytes ++ (9 ∷ 8 ∷ [])))
    ≡ ok (poll_header, 16)
poll_header_read_back = header_round_trip poll_header (9 ∷ 8 ∷ []) poll_header-IsHeader

-- The packet type is 0x7f, and the eighth byte is 5.
abbrev bad_type : List ℕ
bad_type =
    b'B' ∷ b'J' ∷ b'N' ∷ b'P' ∷ 0x7f ∷ 0x32 ∷ 0 ∷ 5 ∷ 0x12 ∷ 0x34 ∷ 0 ∷ 7 ∷ 0 ∷ 0 ∷ 0 ∷ 80 ∷ []

bad_type_refused :
    deserialize_sized header_sized bad_type
    ≡ err (invalid_format (invalid_byte 0x7f 0 "unknown packet type"))
unfolding deserialize_sized header_try_from try_from_u8
bad_type_refused = refl

header_error-IsRefused_example :
    IsRefused bad_type (invalid_format (invalid_byte 0x7f 0 "unknown packet type"))
header_error-IsRefused_example = header_error-IsRefused bad_type _ bad_type_refused

abbrev good_bytes : List ℕ
good_bytes =
    b'B' ∷ b'J' ∷ b'N' ∷ b'P' ∷ 0x02 ∷ 0x32 ∷ 0 ∷ 5 ∷ 0x12 ∷ 0x34 ∷ 0 ∷ 7 ∷ 0 ∷ 0 ∷ 0 ∷ 80 ∷ []

good_bytes-header : deserialize_sized header_sized good_bytes ≡ ok (poll_header, 16)
unfolding deserialize_sized header_try_from try_from_u8 from_be_bytes
good_bytes-header = refl

header_accepts_example :
    ◌≡◌ {A = ℕ} 16 16
    × (16 ≤ length good_bytes)
    × IsHeader poll_header
    × (take 7 good_bytes ++ (0 ∷ take 8 (drop 8 good_bytes)) ≡ header_bytes poll_header)
header_accepts_example = header_accepts good_bytes poll_header 16 (omega arith) good_bytes-header
