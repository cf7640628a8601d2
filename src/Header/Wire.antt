-- ===== src/Header/Wire.antt =====
-- bjnp/src/header.rs: `Header`, `RawHeader` and the conversions between them.
use scanner_button.Prelude.{ℕ, ◌≢◌, Bool, true, false, ◌&&◌, Option, none, some}
use scanner_button.Prelude.{List, [], ◌∷◌, ◌++◌, take, drop, get_or, ◌==◌, if◌then◌else◌}
use scanner_button.Rust.Outcome.{Outcome, ok, err, ◌>>=◌}
use scanner_button.Rust.Word.{IsByte, IsU16, IsU32, u16_to_be_bytes, u32_to_be_bytes, from_be_bytes}
use scanner_button.Serdes.Error.{FormatError, invalid_slice, format_result_offset_by}
use scanner_button.Serdes.Field.{try_from_u8}
use scanner_button.Serdes.Traits.{Serialize, SizedDeserialize, Deserialize, sized_deserialize}
use scanner_button.Serdes.Raw.{Layout, raw_serialize, raw_deserialize}
use scanner_button.Header.Types.{PacketType, PayloadType, packet_type_field, payload_type_field}

-- `b"BJNP"`
abbrev pub magic_bytes : List ℕ
magic_bytes = b'B' ∷ b'J' ∷ b'N' ∷ b'P' ∷ []

-- `job_id` is an `Option<NonZeroU16>`.
pub record Header : Type 0 where
  pub packet_type : PacketType
  pub payload_type : PayloadType
  pub error : ℕ
  pub sequence : ℕ
  pub job_id : Option ℕ
  pub payload_size : ℕ

-- The values that the Rust types hold.
abbrev pub IsJobId : Option ℕ → Type 0
IsJobId none = Unit
IsJobId (some n) = IsU16 n × (n ≢ 0)

pub record IsHeader (h : Header) : Type 0 where
  pub error_byte : IsByte h.error
  pub sequence_u16 : IsU16 h.sequence
  pub job_id_u16 : IsJobId h.job_id
  pub payload_size_u32 : IsU32 h.payload_size

pub record RawHeader : Type 0 where
  pub magic : List ℕ
  pub packet_type : ℕ
  pub payload_type : ℕ
  pub error : ℕ
  pub unk_1 : ℕ
  pub sequence : List ℕ
  pub job_id : List ℕ
  pub len : List ℕ

abbrev pub raw_header_bytes : RawHeader → List ℕ
raw_header_bytes r =
    r.magic
    ++ (r.packet_type ∷ r.payload_type ∷ r.error ∷ r.unk_1 ∷ (r.sequence ++ (r.job_id ++ r.len)))

abbrev pub raw_header_view : List ℕ → RawHeader
raw_header_view buffer = record {
  magic = take 4 buffer;
  packet_type = get_or buffer 4 0;
  payload_type = get_or buffer 5 0;
  error = get_or buffer 6 0;
  unk_1 = get_or buffer 7 0;
  sequence = take 2 (drop 8 buffer);
  job_id = take 2 (drop 10 buffer);
  len = take 4 (drop 12 buffer);
}

abbrev pub raw_header : Layout RawHeader
raw_header = record { size_of = 16; bytes = raw_header_bytes; view = raw_header_view }

abbrev pub bytes_eq : List ℕ → List ℕ → Bool
bytes_eq [] [] = true
bytes_eq [] (b ∷ bs) = false
bytes_eq (a ∷ as') [] = false
bytes_eq (a ∷ as') (b ∷ bs) = a == b && bytes_eq as' bs

-- `job_id.map(NonZeroU16::get).unwrap_or(0)` and `NonZeroU16::new`
abbrev pub job_id_number : Option ℕ → ℕ
job_id_number none = 0
job_id_number (some n) = n

abbrev pub new_non_zero : ℕ → Option ℕ
new_non_zero n = if n == 0 then none else some n

-- `From<&Header> for RawHeader`
unfoldable pub to_raw_header : Header → RawHeader
to_raw_header header = record {
  magic = magic_bytes;
  packet_type = packet_type_field.as_repr header.packet_type;
  payload_type = payload_type_field.as_repr header.payload_type;
  error = header.error;
  unk_1 = 0;
  sequence = u16_to_be_bytes header.sequence;
  job_id = u16_to_be_bytes (job_id_number header.job_id);
  len = u32_to_be_bytes header.payload_size;
}

abbrev pub payload_type_offset : ℕ
payload_type_offset = 5

-- `TryFrom<&RawHeader> for Header`
unfoldable pub header_try_from : RawHeader → Outcome Header FormatError
header_try_from raw =
    if bytes_eq raw.magic magic_bytes
    then (do
      packet_type ← try_from_u8 packet_type_field raw.packet_type
      payload_type ←
          format_result_offset_by (try_from_u8 payload_type_field raw.payload_type)
            payload_type_offset
      ok (record {
        packet_type = packet_type;
        payload_type = payload_type;
        error = raw.error;
        sequence = from_be_bytes raw.sequence;
        job_id = new_non_zero (from_be_bytes raw.job_id);
        payload_size = from_be_bytes raw.len;
      }))
    else err (invalid_slice 0 4 "magic bytes is not b'BJNP'")

instance abbrev pub header_serialize : Serialize Header
header_serialize = raw_serialize raw_header to_raw_header

abbrev pub header_sized : SizedDeserialize Header
header_sized = raw_deserialize raw_header header_try_from

instance abbrev pub header_deserialize : Deserialize Header
header_deserialize = sized_deserialize header_sized
