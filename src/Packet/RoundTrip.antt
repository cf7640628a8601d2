-- ===== src/Packet/RoundTrip.antt =====
-- bjnp/src/packet.rs: a packet that is built, written and parsed comes back, payload included.
use scanner_button.Prelude.{ℕ, ◌+◌, ◌-◌, ◌<◌, ◌≡◌, ap, sym, ◌∙◌, some, List, ◌++◌, arith}
use scanner_button.Prelude.{
  append_assoc, length, length-append, take-append_exact, drop-append_exact,
}
use scanner_button.Prelude.{le→leb}
use scanner_button.Rust.Outcome.{ok, ◌>>=◌}
use scanner_button.Rust.Slice.{get_range}
use scanner_button.Rust.Word.{IsByte, IsU16}
use scanner_button.Serdes.Traits.{
  Serialize, Deserialize, IsCodec, serialize_to_vec, deserialize-encode_exact,
}
use scanner_button.Header.{Header, IsHeader, IsJobId}
use scanner_button.Header.RoundTrip.{header_bytes, header_deserialize-bytes, length-header_bytes}
use scanner_button.Packet.Builder.{PacketBuilder, packet_serialize, build, unwrap_or}
use scanner_button.Packet.Parse.{parse, packet_try_from}

-- The values that the builder's Rust types hold.
pub record IsPacketBuilder (b : PacketBuilder) : Type 0 where
  pub error_byte : IsByte (unwrap_or 0 b.error)
  pub sequence_u16 : IsU16 (unwrap_or 0 b.sequence)
  pub job_id_u16 : IsJobId b.job_id

get_range_exact :
    {A : Type 0} (front xs back : List A) (start end : ℕ)
    → length front ≡ start
    → start + length xs ≡ end
    → get_range (front ++ (xs ++ back)) start end ≡ some xs
get_range_exact front xs back start end e f = rw (
  le→leb start end (omega arith),
  le→leb end (length (front ++ (xs ++ back)))
      (omega (arith, length-append front (xs ++ back), length-append xs back)),
  drop-append_exact start front (xs ++ back) e,
  take-append_exact (end - start) xs back (omega arith),
)

-- A header with as many bytes behind it as it announces is parsed, whatever follows them.
pub parse-header_bytes :
    (h : Header) (payload rest : List ℕ)
    → IsHeader h
    → length payload ≡ h.payload_size
    → parse (header_bytes h ++ (payload ++ rest)) ≡ ok (record { header = h; payload = payload })
unfolding parse
parse-header_bytes h payload rest v e = rw (
  header_deserialize-bytes h (payload ++ rest) v,
  get_range_exact (header_bytes h) payload rest 16 (16 + h.payload_size) (length-header_bytes h)
      (ap (λ (k : ℕ). 16 + k) e),
)

module _ {T : Type 0} ⦃s : Serialize T⦄ where
  pub build-IsHeader :
      (b : PacketBuilder) (x : T)
      → IsPacketBuilder b
      → s.size x < 4294967296
      → IsHeader (build b x).header
  unfolding build
  build-IsHeader b x v small = record {
    error_byte = v.error_byte;
    sequence_u16 = v.sequence_u16;
    job_id_u16 = v.job_id_u16;
    payload_size_u32 = omega arith;
  }

  pub build_payload_size :
      (b : PacketBuilder) (x : T)
      → s.size x < 4294967296
      → (build b x).header.payload_size ≡ s.size x
  unfolding build
  build_payload_size b x small = omega arith

module _ {T : Type 0} ⦃s : Serialize T⦄ ⦃d : Deserialize T⦄ {Valid : T → Type 0} where
  pub serialize_to_vec-build :
      (c : IsCodec Valid) (b : PacketBuilder) (x : T) {E : Type 0}
      → Valid x
      → serialize_to_vec {E = E} (build b x) ≡ ok (header_bytes (build b x).header ++ c.encode x)
  unfolding serialize_to_vec header_bytes build
  serialize_to_vec-build c b x h = rw (c.serialize-encode x _ h)

  pub parse-build :
      (c : IsCodec Valid) (b : PacketBuilder) (x : T) (rest : List ℕ)
      → IsPacketBuilder b
      → Valid x
      → s.size x < 4294967296
      → parse ((header_bytes (build b x).header ++ c.encode x) ++ rest)
        ≡ ok (record { header = (build b x).header; payload = c.encode x })
  parse-build c b x rest v h small = rw append_assoc (
      parse-header_bytes (build b x).header (c.encode x) rest (build-IsHeader b x v small)
        (c.length-encode x h ∙ sym (build_payload_size b x small)))

  packet_try_from-build :
      (c : IsCodec Valid) (b : PacketBuilder) (x : T)
      → Valid x
      → packet_try_from (record { header = (build b x).header; payload = c.encode x })
        ≡ ok (build b x)
  unfolding packet_try_from build
  packet_try_from-build c b x h = rw (deserialize-encode_exact c x h)

  -- Whatever codec the payload has: build a packet, write it, put anything behind, parse the
  -- header, convert the payload, and the packet is back, if its payload's size fits 32 bits.
  pub packet_round_trip :
      (c : IsCodec Valid) (b : PacketBuilder) (x : T) (rest : List ℕ)
      → IsPacketBuilder b
      → Valid x
      → s.size x < 4294967296
      → (do
        bytes ← serialize_to_vec (build b x)
        packet ← parse (bytes ++ rest)
        packet_try_from packet)
        ≡ ok (build b x)
  packet_round_trip c b x rest v h small =
      rw (serialize_to_vec-build c b x h, parse-build c b x rest v h small)
        (packet_try_from-build c b x h)
