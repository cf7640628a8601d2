-- ===== src/Header/Accepts.antt =====
-- bjnp/src/header.rs: what an accepted buffer holds.
use scanner_button.Prelude.{ℕ, ◌≤◌, ◌≡◌, refl, arith, ◌==◌}
use scanner_button.Prelude.{List, ◌∷◌, ◌++◌, length, take, drop, Bool-cases, inl, inr, true}
use mathlib.Core.Path.{subst}
use scanner_button.Rust.Outcome.{ok-injective, ok}
use scanner_button.Rust.Word.{IsU16, IsBytes, u16_to_be_bytes, u32_to_be_bytes, from_be_bytes}
use scanner_button.Serdes.Field.{try_from_u8_cases}
use scanner_button.Serdes.Traits.{deserialize_sized, deserialize_sized-eq-ok}
use scanner_button.Header.Types.{
  packet_type_field, payload_type_field, packet_type-IsField, payload_type-IsField,
}
use scanner_button.Header.Wire.{
  Header, IsHeader, RawHeader, raw_header_view, magic_bytes, bytes_eq, to_raw_header,
}
use scanner_button.Header.Wire.{header_try_from, header_sized, new_non_zero, IsJobId}
use scanner_button.Header.RoundTrip.{header_bytes}

-- The fields of an accepted header, from the raw ones.
record Reads (raw : RawHeader) (h : Header) : Type 0 where
  magic : bytes_eq raw.magic magic_bytes ≡ true
  packet_type : packet_type_field.as_repr h.packet_type ≡ raw.packet_type
  payload_type : payload_type_field.as_repr h.payload_type ≡ raw.payload_type
  error : h.error ≡ raw.error
  sequence : h.sequence ≡ from_be_bytes raw.sequence
  job_id : h.job_id ≡ new_non_zero (from_be_bytes raw.job_id)
  payload_size : h.payload_size ≡ from_be_bytes raw.len

header_try_from-Reads : (raw : RawHeader) (h : Header) → header_try_from raw ≡ ok h → Reads raw h
unfolding header_try_from
header_try_from-Reads raw h e = elim (Bool-cases (bytes_eq raw.magic magic_bytes)) [
  | inr wrong ↦ cc (rw wrong at e)
  | inl right ↦ elim (try_from_u8_cases packet_type_field packet_type-IsField raw.packet_type) [
    | inr (_, p) ↦ cc (rw (right, p) at e)
    | inl (t, same, p) ↦
        elim (try_from_u8_cases payload_type_field payload_type-IsField raw.payload_type) [
          | inr (_, q) ↦ cc (rw (right, p, q) at e)
          | inl (u, alike, q) ↦
              subst (Reads raw) (ok-injective _ h (rw (right, p, q) at e)) (record {
                magic = right;
                packet_type = same;
                payload_type = alike;
                error = refl;
                sequence = refl;
                job_id = refl;
                payload_size = refl;
              })
        ]
  ]
]

abbrev Accepted : List ℕ → Header → Type 0
Accepted buffer h = IsHeader h × (take 7 buffer ++ (0 ∷ take 8 (drop 8 buffer)) ≡ header_bytes h)

new_non_zero-IsJobId : (n : ℕ) → IsU16 n → IsJobId (new_non_zero n)
new_non_zero-IsJobId n h = elim (Bool-cases (n == 0)) [
  | inl e ↦ rw e tt
  | inr e ↦ rw e (h, λ z. ground arith)
]

accepted :
    (b0 b1 b2 b3 b4 b5 b6 b7 b8 b9 b10 b11 b12 b13 b14 b15 : ℕ) (rest : List ℕ) (h : Header)
    → let buffer =
        b0 ∷ b1 ∷ b2 ∷ b3 ∷ b4 ∷ b5 ∷ b6 ∷ b7 ∷ b8 ∷ b9 ∷ b10 ∷ b11 ∷ b12 ∷ b13 ∷ b14 ∷ b15
        ∷ rest in
      IsBytes buffer → Reads (raw_header_view buffer) h → Accepted buffer h
unfolding header_bytes to_raw_header from_be_bytes u16_to_be_bytes u32_to_be_bytes
accepted b0 b1 b2 b3 b4 b5 b6 b7 b8 b9 b10 b11 b12 b13 b14 b15 rest h bs e = (
  record {
    error_byte = omega arith;
    sequence_u16 = omega arith;
    job_id_u16 = rw e.job_id (new_non_zero-IsJobId _ (omega arith));
    payload_size_u32 = omega arith;
  },
  ground arith,
)

view-Accepted :
    (buffer : List ℕ) (h : Header)
    → 16 ≤ length buffer
    → IsBytes buffer
    → Reads (raw_header_view buffer) h
    → Accepted buffer h
view-Accepted
      (b0 ∷ b1 ∷ b2 ∷ b3 ∷ b4 ∷ b5 ∷ b6 ∷ b7 ∷ b8 ∷ b9 ∷ b10 ∷ b11 ∷ b12 ∷ b13 ∷ b14 ∷ b15 ∷ rest) h
      enough bs e =
    accepted b0 b1 b2 b3 b4 b5 b6 b7 b8 b9 b10 b11 b12 b13 b14 b15 rest h bs e
view-Accepted buffer h enough bs e = absurd (omega arith)

-- An accepted buffer of bytes begins with what the header is written as, but for the eighth byte,
-- which may be anything; sixteen bytes are taken, and each field fits its Rust type.
pub header_accepts :
    (buffer : List ℕ) (h : Header) (n : ℕ)
    → IsBytes buffer
    → deserialize_sized header_sized buffer ≡ ok (h, n)
    → (n ≡ 16)
      × (16 ≤ length buffer)
      × IsHeader h
      × (take 7 buffer ++ (0 ∷ take 8 (drop 8 buffer)) ≡ header_bytes h)
header_accepts buffer h n bs e =
    let (enough, seen, taken) = deserialize_sized-eq-ok header_sized buffer h n e in
    let (valid, same) = view-Accepted buffer h enough bs (header_try_from-Reads _ h seen) in
    (taken, enough, valid, same)
