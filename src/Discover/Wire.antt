-- ===== src/Discover/Wire.antt =====
-- bjnp/src/discover.rs: `Response` and its raw header.
use scanner_button.Prelude.{ℕ, ◌+◌, ◌%◌, List, [], ◌∷◌, ◌++◌, take, get_or, ◌==◌, if◌then◌else◌}
use scanner_button.Rust.Outcome.{Outcome, ok, err, ◌>>=◌, map_ok}
use scanner_button.Rust.Slice.{slice_from}
use scanner_button.Serdes.Error.{ParseError, invalid_format, invalid_byte, result_offset_by}
use scanner_button.Serdes.Traits.{Serialize, Deserialize, SizedDeserialize, deserialize_sized}
use scanner_button.Serdes.Raw.{Layout}
use scanner_button.Discover.Address.{
  MacAddr, IpAddr, eui48, eui64, v4, v6, eui48_sized, eui64_sized,
}
use scanner_button.Discover.Address.{ipv4_sized, ipv6_sized, mac_serialize, ip_serialize}

pub record Response : Type 0 where
  pub mac_addr : MacAddr
  pub ip_addr : IpAddr

pub record RawResponseHeader : Type 0 where
  pub unk_1 : List ℕ
  pub mac_len : ℕ
  pub ip_len : ℕ

abbrev pub raw_response_header : Layout RawResponseHeader
raw_response_header = record {
  size_of = 6;
  bytes = λ r. r.unk_1 ++ (r.mac_len ∷ r.ip_len ∷ []);
  view = λ buffer. record {
    unk_1 = take 4 buffer;
    mac_len = get_or buffer 4 0;
    ip_len = get_or buffer 5 0;
  };
}

abbrev pub raw_response_header_sized : SizedDeserialize RawResponseHeader
raw_response_header_sized = record {
  size_of = 6;
  deserialize_exact = λ buffer. ok (raw_response_header.view buffer);
}

abbrev pub raw_response_header_serialize : Serialize RawResponseHeader
raw_response_header_serialize = record {
  serialize = λ r out. ok (out ++ raw_response_header.bytes r);
  size = λ _. 6;
}

unfoldable pub raw_response_header_of : Response → RawResponseHeader
raw_response_header_of r = record {
  unk_1 = 0x00 ∷ 0x01 ∷ 0x08 ∷ 0x00 ∷ [];
  mac_len = mac_serialize.size r.mac_addr % 256;
  ip_len = ip_serialize.size r.ip_addr % 256;
}

instance abbrev pub response_serialize : Serialize Response
response_serialize = record {
  serialize = λ r out. do
    out' ← raw_response_header_serialize.serialize (raw_response_header_of r) out
    out'' ← mac_serialize.serialize r.mac_addr out'
    ip_serialize.serialize r.ip_addr out'';
  size = λ r. 6 + mac_serialize.size r.mac_addr + ip_serialize.size r.ip_addr;
}

-- The `match` on `mac_len`, for the buffer behind the raw header.
unfoldable pub mac_from_bytes : ℕ → ℕ → List ℕ → Outcome (MacAddr × ℕ) ParseError
mac_from_bytes mac_len size buffer =
    if mac_len == 6
    then map_ok (λ (addr, n). (eui48 addr, n))
        (result_offset_by (deserialize_sized eui48_sized buffer) size)
    else if mac_len == 8
    then map_ok (λ (addr, n). (eui64 addr, n))
        (result_offset_by (deserialize_sized eui64_sized buffer) size)
    else err
        (invalid_format (invalid_byte mac_len 4 "invalid MAC address size, can only be 6 or 8"))

unfoldable pub ip_from_bytes : ℕ → ℕ → List ℕ → Outcome (IpAddr × ℕ) ParseError
ip_from_bytes ip_len size buffer =
    if ip_len == 4
    then map_ok (λ (addr, n). (v4 addr, n))
        (result_offset_by (deserialize_sized ipv4_sized buffer) size)
    else if ip_len == 16
    then map_ok (λ (addr, n). (v6 addr, n))
        (result_offset_by (deserialize_sized ipv6_sized buffer) size)
    else err (invalid_format (invalid_byte ip_len 5 "invalid IP address size, can only be 4 or 16"))

unfoldable pub response_from_bytes : List ℕ → Outcome (Response × ℕ) ParseError
response_from_bytes buffer = do
  (raw_header, size) ← deserialize_sized raw_response_header_sized buffer
  buffer ← slice_from buffer size
  (mac_addr, next) ← mac_from_bytes raw_header.mac_len size buffer
  let size = size + next
  buffer ← slice_from buffer next
  (ip_addr, next) ← ip_from_bytes raw_header.ip_len size buffer
  ok (record { mac_addr = mac_addr; ip_addr = ip_addr }, size + next)

instance abbrev pub response_deserialize : Deserialize Response
response_deserialize = record { deserialize = response_from_bytes }
