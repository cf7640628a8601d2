-- ===== src/Poll/Host/Shown.antt =====
-- bjnp/src/poll/command.rs: `Display for Host`, with the standard library's lossy decoding.
use scanner_button.Prelude.{
  ℕ, ◌+◌, ◌-◌, ◌*◌, ◌&&◌, Bool, leb, Option, none, some, List, [], ◌∷◌, ◌++◌, map, if◌then◌else◌,
}
use scanner_button.Rust.Format.{Formatter, pad}
use scanner_button.Poll.Host.Utf16.{Endian, to_be, bytes_to_units}
use scanner_button.Poll.Host.Encode.{Host}

abbrev pub is_high : ℕ → Bool
is_high u = leb 0xD800 u && leb u 0xDBFF

abbrev pub is_low : ℕ → Bool
is_low u = leb 0xDC00 u && leb u 0xDFFF

-- `REPLACEMENT_CHARACTER`
abbrev pub replacement : ℕ
replacement = 0xFFFD

-- A unit behind no high surrogate: what is decoded, and the high surrogate that waits.
unfoldable pub step_none : ℕ → List ℕ × Option ℕ
step_none u =
    if is_high u
    then ([], some u)
    else if is_low u
    then (replacement ∷ [], none)
    else (u ∷ [], none)

unfoldable pub step : Option ℕ → ℕ → List ℕ × Option ℕ
step none u = step_none u
step (some high) u =
    let (out, waiting) = step_none u in
    if is_low u
    then ((0x10000 + (high - 0xD800) * 0x400 + (u - 0xDC00)) ∷ [], none)
    else (replacement ∷ out, waiting)

-- `String::from_utf16_lossy`
unfoldable pub from_utf16_lossy : Option ℕ → List ℕ → List ℕ
from_utf16_lossy none [] = []
from_utf16_lossy (some high) [] = replacement ∷ []
from_utf16_lossy waiting (u ∷ us) =
    let (out, waiting') = step waiting u in out ++ from_utf16_lossy waiting' us

-- `u16::from_be` swaps the same bytes as `to_be`. All thirty-two units are shown.
unfoldable pub host_fmt : Endian → Host → Formatter → List ℕ
host_fmt e host f = pad f (from_utf16_lossy none (map (to_be e) (bytes_to_units e host.octets)))
