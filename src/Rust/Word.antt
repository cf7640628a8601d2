-- ===== src/Rust/Word.antt =====
-- Big-endian bytes of machine words.
use scanner_button.Prelude.{
  ℕ, ◌+◌, ◌*◌, ◌/◌, ◌%◌, ◌<◌, ◌≡◌, List, [], ◌∷◌, arith, All, length, refl,
}
use mathlib.Core.List.{foldl}

abbrev pub IsByte : ℕ → Type 0
IsByte b = b < 256

abbrev pub IsU16 : ℕ → Type 0
IsU16 n = n < 65536

abbrev pub IsU32 : ℕ → Type 0
IsU32 n = n < 4294967296

abbrev pub IsBytes : List ℕ → Type 0
IsBytes = All IsByte

unfoldable pub u16_to_be_bytes : ℕ → List ℕ
u16_to_be_bytes n = (n / 256 % 256) ∷ (n % 256) ∷ []

unfoldable pub u32_to_be_bytes : ℕ → List ℕ
u32_to_be_bytes n = (n / 16777216 % 256) ∷ (n / 65536 % 256) ∷ (n / 256 % 256) ∷ (n % 256) ∷ []

-- `uN::from_be_bytes`: the first byte is the highest.
unfoldable pub from_be_bytes : List ℕ → ℕ
from_be_bytes = foldl (λ acc b. acc * 256 + b) 0

pub from_be_bytes-u16 : (n : ℕ) → IsU16 n → from_be_bytes (u16_to_be_bytes n) ≡ n
unfolding from_be_bytes u16_to_be_bytes
from_be_bytes-u16 n h = omega arith

pub from_be_bytes-u32 : (n : ℕ) → IsU32 n → from_be_bytes (u32_to_be_bytes n) ≡ n
unfolding from_be_bytes u32_to_be_bytes
from_be_bytes-u32 n h = omega arith

pub u16-from_be_bytes :
    (a b : ℕ) → IsByte a → IsByte b → u16_to_be_bytes (from_be_bytes (a ∷ b ∷ [])) ≡ a ∷ b ∷ []
unfolding from_be_bytes u16_to_be_bytes
u16-from_be_bytes a b ha hb = ground arith

pub length-u16 : (n : ℕ) → length (u16_to_be_bytes n) ≡ 2
unfolding u16_to_be_bytes
length-u16 n = refl

pub length-u32 : (n : ℕ) → length (u32_to_be_bytes n) ≡ 4
unfolding u32_to_be_bytes
length-u32 n = refl
