-- ===== src/Header/Errors.antt =====
-- bjnp/src/header.rs: what an accepted buffer holds, and every way to be refused.
use scanner_button.Prelude.{ℕ, ◌≤◌, ◌<◌, ◌≡◌, ◌≢◌, ◌⊎◌, refl, ap, arith}
use scanner_button.Prelude.{
  List, [], ◌∷◌, length, take, get_or, ltb, Bool-cases, inl, inr, true, false,
}
use scanner_button.Prelude.{not_ltb→le, ltb→lt}
use scanner_button.Rust.Outcome.{ok, err, panic}
use scanner_button.Serdes.Error.{
  ParseError, invalid_format, unexpected_end, invalid_slice, invalid_byte, format_offset_by,
}
use scanner_button.Serdes.Field.{try_from_u8, try_from_u8_cases}
use scanner_button.Serdes.Traits.{deserialize_sized}
use scanner_button.Header.Types.{
  PacketType, PayloadType, packet_type_field, payload_type_field, packet_type-IsField,
  payload_type-IsField,
}
use scanner_button.Header.Wire.{magic_bytes, bytes_eq}
use scanner_button.Header.Wire.{header_try_from, header_sized}

packet_type_cases :
    (v : ℕ)
    → ((t : PacketType) × (packet_type_field.as_repr t ≡ v)
        × (try_from_u8 packet_type_field v ≡ ok t))
      ⊎ (((t : PacketType) → packet_type_field.as_repr t ≢ v)
          × (try_from_u8 packet_type_field v ≡ err (invalid_byte v 0 "unknown packet type")))
packet_type_cases v = try_from_u8_cases packet_type_field packet_type-IsField v

payload_type_cases :
    (v : ℕ)
    → ((t : PayloadType) × (payload_type_field.as_repr t ≡ v)
        × (try_from_u8 payload_type_field v ≡ ok t))
      ⊎ (((t : PayloadType) → payload_type_field.as_repr t ≢ v)
          × (try_from_u8 payload_type_field v ≡ err (invalid_byte v 0 "unknown payload type")))
payload_type_cases v = try_from_u8_cases payload_type_field payload_type-IsField v

-- The reasons to refuse a buffer, with the error that is reported. An unknown packet type is
-- reported at offset 0, where it stands at offset 4.
pub data IsRefused (buffer : List ℕ) (e : ParseError) : Type 0 where
  too_short : length buffer < 16 → e ≡ unexpected_end 16 (length buffer) → IsRefused buffer e
  bad_magic :
      16 ≤ length buffer
      → take 4 buffer ≢ magic_bytes
      → e ≡ invalid_format (invalid_slice 0 4 "magic bytes is not b'BJNP'")
      → IsRefused buffer e
  bad_packet_type :
      16 ≤ length buffer
      → take 4 buffer ≡ magic_bytes
      → ((t : PacketType) → packet_type_field.as_repr t ≢ get_or buffer 4 0)
      → e ≡ invalid_format (invalid_byte (get_or buffer 4 0) 0 "unknown packet type")
      → IsRefused buffer e
  bad_payload_type :
      (t : PacketType)
      → 16 ≤ length buffer
      → take 4 buffer ≡ magic_bytes
      → packet_type_field.as_repr t ≡ get_or buffer 4 0
      → ((u : PayloadType) → payload_type_field.as_repr u ≢ get_or buffer 5 0)
      → e ≡ invalid_format (invalid_byte (get_or buffer 5 0) 5 "unknown payload type")
      → IsRefused buffer e

bytes_eq→eq : (xs ys : List ℕ) → bytes_eq xs ys ≡ true → xs ≡ ys
bytes_eq→eq [] [] h = refl
bytes_eq→eq [] (y ∷ ys) h = cc
bytes_eq→eq (x ∷ xs) [] h = cc
bytes_eq→eq (x ∷ xs) (y ∷ ys) h = ground (arith, bytes_eq→eq xs ys)

bytes_eq_refl : (xs : List ℕ) → bytes_eq xs xs ≡ true
bytes_eq_refl [] = refl
bytes_eq_refl (x ∷ xs) = ground (arith, bytes_eq_refl xs)

not_bytes_eq→ne : (xs ys : List ℕ) → bytes_eq xs ys ≡ false → xs ≢ ys
not_bytes_eq→ne xs ys h e = cc (bytes_eq_refl xs, ap (bytes_eq xs) e)

-- A refused buffer is refused for the first reason that applies, with that reason's error.
pub header_error-IsRefused :
    (buffer : List ℕ) (e : ParseError)
    → deserialize_sized header_sized buffer ≡ err e
    → IsRefused buffer e
unfolding deserialize_sized header_try_from format_offset_by
header_error-IsRefused buffer e h = elim (Bool-cases (ltb (length buffer) 16)) [
  | inl short ↦ too_short (ltb→lt _ _ short) (cc (rw short at h))
  | inr enough ↦ elim (Bool-cases (bytes_eq (take 4 buffer) magic_bytes)) [
    | inr wrong ↦
        bad_magic (not_ltb→le _ _ enough) (not_bytes_eq→ne _ _ wrong) (cc (rw (enough, wrong) at h))
    | inl right ↦ elim (packet_type_cases (get_or buffer 4 0)) [
      | inr (unknown, p) ↦
          bad_packet_type (not_ltb→le _ _ enough) (bytes_eq→eq _ _ right) unknown
            (cc (rw (enough, right, p) at h))
      | inl (t, same, p) ↦ elim (payload_type_cases (get_or buffer 5 0)) [
        | inr (unknown, q) ↦
            bad_payload_type t (not_ltb→le _ _ enough) (bytes_eq→eq _ _ right) same unknown
              (cc (rw (enough, right, p, q) at h))
        | inl (u, _, q) ↦ cc (rw (enough, right, p, q) at h)
      ]
    ]
  ]
]

pub header_deserialize-ne-panic : (buffer : List ℕ) → deserialize_sized header_sized buffer ≢ panic
unfolding deserialize_sized header_try_from try_from_u8
header_deserialize-ne-panic buffer h = ground arith
