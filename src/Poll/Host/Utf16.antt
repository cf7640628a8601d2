-- ===== src/Poll/Host/Utf16.antt =====
-- What `Host` uses of the standard library: UTF-16 lengths and encodings of characters, and the
-- order of bytes in memory. A character is its scalar value.
use scanner_button.Prelude.{
  ℕ, ◌+◌, ◌-◌, ◌*◌, ◌/◌, ◌%◌, ◌≤◌, ◌≡◌, List, [], ◌∷◌, ◌++◌, length, arith,
}
use scanner_button.Prelude.{ltb, leb, take, drop, if◌then◌else◌}
use scanner_button.Rust.Outcome.{Outcome, ok, panic}

-- `char::len_utf16` and `char::encode_utf16`
unfoldable pub len_utf16 : ℕ → ℕ
len_utf16 c = if ltb c 0x10000 then 1 else 2

unfoldable pub encode_utf16 : ℕ → List ℕ
encode_utf16 c =
    if ltb c 0x10000
    then c ∷ []
    else (0xD800 + (c - 0x10000) / 0x400) ∷ (0xDC00 + (c - 0x10000) % 0x400) ∷ []

pub length-encode_utf16 : (c : ℕ) → length (encode_utf16 c) ≡ len_utf16 c
unfolding encode_utf16 len_utf16
length-encode_utf16 c = ground arith

pub len_utf16_bounds : (c : ℕ) → (1 ≤ len_utf16 c) × (len_utf16 c ≤ 2)
unfolding len_utf16
len_utf16_bounds c = ground arith

-- Writing a slice into a buffer; out of range it panics.
unfoldable pub copy_at {ℓ} : {A E : Type ℓ} → List A → ℕ → List A → Outcome (List A) E
copy_at buffer start xs =
    if leb (start + length xs) (length buffer)
    then ok (take start buffer ++ (xs ++ drop (start + length xs) buffer))
    else panic

-- The target's order of bytes: `to_be`, `from_be`, and a `u16` in memory.
pub data Endian : Type 0 where
  little big : Endian

unfoldable pub swap_bytes : ℕ → ℕ
swap_bytes c = c % 256 * 256 + c / 256 % 256

unfoldable pub to_be : Endian → ℕ → ℕ
unfolding swap_bytes
to_be little c = swap_bytes c
to_be big c = c

-- A transmutation of units to bytes, and back.
unfoldable pub units_to_bytes : Endian → List ℕ → List ℕ
units_to_bytes e [] = []
units_to_bytes little (c ∷ cs) = (c % 256) ∷ (c / 256 % 256) ∷ units_to_bytes little cs
units_to_bytes big (c ∷ cs) = (c / 256 % 256) ∷ (c % 256) ∷ units_to_bytes big cs

unfoldable pub bytes_to_units : Endian → List ℕ → List ℕ
bytes_to_units e [] = []
bytes_to_units e (a ∷ []) = []
bytes_to_units little (a ∷ b ∷ bs) = (a + b * 256) ∷ bytes_to_units little bs
bytes_to_units big (a ∷ b ∷ bs) = (a * 256 + b) ∷ bytes_to_units big bs
