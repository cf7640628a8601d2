-- ===== src/Rust/Format.antt =====
-- `std::fmt`: what the implementations of `Display` use. A text is the list of its characters.
use scanner_button.Prelude.{
  ℕ, zero, suc, ◌+◌, ◌-◌, ◌/◌, ◌%◌, ◌^◌, String, Option, none, some, List, [], ◌∷◌, ◌++◌, length,
  take, replicate, ltb, if◌then◌else◌, ◌≡◌, refl, Bool, false,
}
use Prim.Native.Char.{code}

-- The characters of a literal.
abbrev pub codes : String → List ℕ
codes String.[] = []
codes (String.◌∷◌ letter rest) = code letter ∷ codes rest

pub record Formatter : Type 0 where
  pub sign_minus : Bool
  pub width : Option ℕ
  pub precision : Option ℕ

-- The formatter of `{}`.
abbrev pub plain : Formatter
plain = record { sign_minus = false; width = none; precision = none }

pub record Display (T : Type 0) : Type 0 where
  pub fmt : T → Formatter → List ℕ

-- `to_string`, and what `{}` writes.
abbrev pub shown : {T : Type 0} ⦃d : Display T⦄ → T → List ℕ
shown ⦃d⦄ x = d.fmt x plain

unfoldable pub cut : Option ℕ → List ℕ → List ℕ
cut none text = text
cut (some precision) text = take precision text

unfoldable pub fill : Option ℕ → List ℕ → List ℕ
fill none text = text
fill (some width) text = text ++ replicate (width - length text) b' '

-- `Formatter::pad`: at most the precision, and spaces behind it up to the width.
unfoldable pub pad : Formatter → List ℕ → List ℕ
pad f text = fill f.width (cut f.precision text)

unfoldable pub digit : ℕ → ℕ
digit d = if ltb d 10 then b'0' + d else b'a' + (d - 10)

-- The digits of a number, the highest first.
unfoldable pub digits : ℕ → ℕ → ℕ → List ℕ
digits base zero n = []
digits base (suc fuel) n =
    let front = digits base fuel (n / base) in
    if ltb n base then digit n ∷ [] else front ++ (digit (n % base) ∷ [])

-- `{}` of an unsigned number below 2 ^ 64, which has at most twenty digits.
unfoldable pub decimal : ℕ → List ℕ
decimal n = digits 10 20 n

-- `{:x}`
unfoldable pub hex : ℕ → List ℕ
hex n = digits 16 16 n

unfoldable pub zeros : ℕ → List ℕ → List ℕ
zeros width text = replicate (width - length text) b'0' ++ text

-- `{:02x}`
unfoldable pub hex_padded : ℕ → ℕ → List ℕ
hex_padded width n = zeros width (hex n)

-- `{:#02x}`: the width counts the prefix.
unfoldable pub hex_prefixed : ℕ → ℕ → List ℕ
hex_prefixed width n = b'0' ∷ b'x' ∷ zeros (width - 2) (hex n)

decimal_max : decimal (2 ^ 64 - 1) ≡ codes "18446744073709551615"
unfolding decimal digits digit
decimal_max = refl

hex_values :
    (hex_padded 2 7 ≡ codes "07")
    × (hex_padded 2 0xff ≡ codes "ff")
    × (hex_prefixed 2 7 ≡ codes "0x7")
    × (hex_prefixed 8 0x8000 ≡ codes "0x008000")
unfolding hex_padded hex_prefixed zeros hex digits digit
hex_values = (refl, refl, refl, refl)
