-- ===== src/Header/RoundTrip.antt =====
-- bjnp/src/header.rs: a header is read back from what it was written as, and the other way round.
use scanner_button.Prelude.{ℕ, ◌≡◌, refl, Option, none, some, arith}
use scanner_button.Prelude.{List, ◌++◌, length}
use scanner_button.Rust.Outcome.{ok, ◌>>=◌}
use scanner_button.Rust.Word.{IsU16, from_be_bytes-u16, from_be_bytes-u32}
use scanner_button.Rust.Word.{u16_to_be_bytes, u32_to_be_bytes}
use scanner_button.Serdes.Field.{try_from_u8-as_repr}
use scanner_button.Serdes.Traits.{deserialize_sized, IsCodec, serialize_to_vec, round_trip}
use scanner_button.Serdes.Raw.{deserialize-bytes}
use scanner_button.Header.Types.{packet_type_field, payload_type_field, packet_type-IsField}
use scanner_button.Header.Types.{payload_type-IsField}
use scanner_button.Header.Wire.{Header, IsHeader, raw_header, raw_header_view}
use scanner_button.Header.Wire.{raw_header_bytes, to_raw_header, header_try_from, header_serialize}
use scanner_button.Header.Wire.{
  header_sized, header_deserialize, job_id_number, new_non_zero, IsJobId,
}

unfoldable pub header_bytes : Header → List ℕ
header_bytes h = raw_header_bytes (to_raw_header h)

pub length-header_bytes : (h : Header) → length (header_bytes h) ≡ 16
unfolding header_bytes to_raw_header u16_to_be_bytes u32_to_be_bytes
length-header_bytes h = refl

view-header_bytes :
    (h : Header) (rest : List ℕ) → raw_header_view (header_bytes h ++ rest) ≡ to_raw_header h
unfolding header_bytes to_raw_header u16_to_be_bytes u32_to_be_bytes
view-header_bytes h rest = refl

new_non_zero-job_id_number : (j : Option ℕ) → IsJobId j → new_non_zero (job_id_number j) ≡ j
new_non_zero-job_id_number none h = refl
new_non_zero-job_id_number (some n) (_, h) = ground arith

job_id_number-lt : (j : Option ℕ) → IsJobId j → IsU16 (job_id_number j)
job_id_number-lt none h = omega arith
job_id_number-lt (some n) h = h.0

pub header_try_from-to_raw : (h : Header) → IsHeader h → header_try_from (to_raw_header h) ≡ ok h
unfolding header_try_from to_raw_header
header_try_from-to_raw h v = rw (
  try_from_u8-as_repr packet_type_field packet_type-IsField h.packet_type,
  try_from_u8-as_repr payload_type_field payload_type-IsField h.payload_type,
  from_be_bytes-u16 h.sequence v.sequence_u16,
  from_be_bytes-u16 (job_id_number h.job_id) (job_id_number-lt h.job_id v.job_id_u16),
  from_be_bytes-u32 h.payload_size v.payload_size_u32,
  new_non_zero-job_id_number h.job_id v.job_id_u16,
)

pub header_deserialize-bytes :
    (h : Header) (rest : List ℕ)
    → IsHeader h
    → deserialize_sized header_sized (header_bytes h ++ rest) ≡ ok (h, 16)
unfolding header_bytes
header_deserialize-bytes h rest v =
    deserialize-bytes raw_header header_try_from (to_raw_header h) rest (length-header_bytes h)
      (view-header_bytes h rest) (header_try_from-to_raw h v)

-- A header is written as sixteen bytes, and reading those, whatever follows, gives it back.
pub Header-IsCodec : IsCodec {T = Header} IsHeader
unfolding header_bytes
Header-IsCodec = record {
  encode = header_bytes;
  serialize-encode = λ x out _. refl;
  length-encode = λ x _. length-header_bytes x;
  deserialize-encode = header_deserialize-bytes;
}

-- A header whose numbers fit their Rust types is written, anything is put behind, and what is read
-- is that header and the size 16.
pub header_round_trip :
    (h : Header) (rest : List ℕ)
    → IsHeader h
    → (do bytes ← serialize_to_vec h; deserialize_sized header_sized (bytes ++ rest)) ≡ ok (h, 16)
header_round_trip h rest v = round_trip Header-IsCodec h rest v
