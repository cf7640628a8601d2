-- ===== src/Discover/Names.antt =====
-- bjnp/src/discover.rs: hardware addresses are read from their texts.
use scanner_button.Prelude.{
  ℕ, ◌+◌, ◌-◌, ◌*◌, ◌/◌, ◌%◌, ◌<◌, ◌≡◌, refl, List, [], ◌∷◌, ◌++◌, arith, length, ltb, lt→ltb, inl,
  inr, Bool-cases, if◌then◌else◌, Option, none, some, ◌==◌, true,
}
use scanner_button.Rust.Format.{hex_padded, hex, digits, digit, zeros}
use scanner_button.Rust.Net.{joined}
use scanner_button.Rust.Word.{IsByte, IsBytes}
use scanner_button.Discover.Address.{MacAddr, eui48, eui64}
use scanner_button.Discover.Shown.{octets_shown}

-- A hexadecimal digit, and two of them.
abbrev pub digit_value : ℕ → ℕ
digit_value c = if ltb c b'a' then c - b'0' else c - b'a' + 10

digit_value-digit : (d : ℕ) → d < 16 → digit_value (digit d) ≡ d
unfolding digit
digit_value-digit d h = ground arith

hex_padded-byte : (n : ℕ) → IsByte n → hex_padded 2 n ≡ digit (n / 16) ∷ digit (n % 16) ∷ []
unfolding hex_padded hex zeros digits digit
hex_padded-byte n h = elim (Bool-cases (ltb n 16)) [
  | inl small ↦
      let low : n % 16 ≡ n = ground arith in
      let high : n / 16 ≡ 0 = ground arith in rw (small, low, high) refl
  | inr large ↦
      let high : ltb (n / 16) 16 ≡ true = lt→ltb _ _ (omega arith) in rw (large, high) refl
]

byte_read :
    (n : ℕ) → IsByte n → 16 * digit_value (digit (n / 16)) + digit_value (digit (n % 16)) ≡ n
byte_read n h =
    rw (digit_value-digit (n / 16) (omega arith), digit_value-digit (n % 16) (omega arith))
      (omega arith)

-- Octets of two digits up to one that no colon follows, and what is behind it and one more
-- character.
abbrev pub octets_read : List ℕ → List ℕ × List ℕ
octets_read (a ∷ b ∷ c ∷ rest) =
    let octet = 16 * digit_value a + digit_value b in
    let (octets, behind) = octets_read rest in
    if c == b':' then (octet ∷ octets, behind) else (octet ∷ [], rest)
octets_read _ = ([], [])

pub octets_read-octets_shown :
    (x : ℕ) (xs rest : List ℕ)
    → IsBytes (x ∷ xs)
    → octets_read (joined (b':' ∷ []) (octets_shown (x ∷ xs)) ++ (b' ' ∷ rest)) ≡ (x ∷ xs, rest)
unfolding octets_shown
octets_read-octets_shown x [] rest (h, _) = rw (hex_padded-byte x h, byte_read x h) refl
octets_read-octets_shown x (y ∷ ys) rest (h, hs) =
    rw (hex_padded-byte x h, byte_read x h) (rw (octets_read-octets_shown y ys rest hs) refl)

-- The kind of a hardware address is told by its length.
abbrev pub mac_of : List ℕ → Option MacAddr
mac_of octets =
    if length octets == 6
    then some (eui48 (record { octets = octets }))
    else if length octets == 8
    then some (eui64 (record { octets = octets }))
    else none
