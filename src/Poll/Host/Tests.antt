-- ===== src/Poll/Host/Tests.antt =====
-- bjnp/src/poll/command.rs: runs of `Host::new` at concrete names.
use scanner_button.Prelude.{ℕ, ◌<◌, ◌≤◌, ◌≡◌, refl, some, List, [], ◌∷◌, ◌++◌, replicate, arith}
use scanner_button.Rust.Outcome.{ok, ◌>>=◌}
use scanner_button.Rust.Word.{u16_to_be_bytes}
use scanner_button.Serdes.Traits.{IoError}
use mathlib.Core.List.{flat_map}
use scanner_button.Poll.Host.Utf16.{Endian, len_utf16, encode_utf16}
use scanner_button.Poll.Host.Truncate.{utf16, fit}
use scanner_button.Poll.Host.Encode.{host_new, into_buf, back_loop}
use scanner_button.Poll.Host.Back.{units, pack, keep, back_loop-pack}
use scanner_button.Poll.Host.Fill.{pad}
use scanner_button.Poll.Host.Units.{host_units, host_new-host_units}
use scanner_button.Rust.Format.{plain}
use scanner_button.Poll.Host.Shown.{host_fmt}
use scanner_button.Poll.Host.Decode.{host_text, host_fmt-host_new}
use scanner_button.Poll.Host.Buffer.{into_buf-host_new}

-- Thirty letters and two characters beyond the basic plane: thirty-four units.
abbrev long_name : List ℕ
long_name = replicate 30 b'a' ++ (0x1f600 ∷ 0x1f600 ∷ [])

host_new-host_units_example :
    host_new {E = IoError} Endian.little long_name
    ≡ ok (record { octets = flat_map u16_to_be_bytes (host_units long_name) })
host_new-host_units_example = host_new-host_units Endian.little long_name

into_buf-host_new_example :
    (do h ← host_new {E = IoError} Endian.little long_name; ok (into_buf Endian.little h))
    ≡ ok (host_units long_name)
into_buf-host_new_example = into_buf-host_new Endian.little long_name (ground arith)

-- A character of two units behind one of two units and twenty-nine of one: the loop goes back two
-- characters.
abbrev taken : List ℕ
taken = 0x1f600 ∷ replicate 29 b'a'

within : units taken ≤ 32
unfolding units len_utf16
within = omega arith

over : 32 < units (0x1f600 ∷ taken)
unfolding units len_utf16
over = omega arith

back_loop-pack_example :
    back_loop 5 (units (0x1f600 ∷ taken)) (pack (0x1f600 ∷ taken)) ≡ some (units (keep taken))
back_loop-pack_example = back_loop-pack 0x1f600 taken within over

-- A long name keeps twenty-nine units and ends in three dots.
host_units_test : host_units long_name ≡ replicate 29 b'a' ++ (b'.' ∷ b'.' ∷ b'.' ∷ [])
unfolding host_units utf16 fit encode_utf16 len_utf16 pad
host_units_test = refl

host_fmt-host_new_example :
    (do h ← host_new {E = IoError} Endian.little long_name; ok (host_fmt Endian.little h plain))
    ≡ ok (host_text long_name)
host_fmt-host_new_example = host_fmt-host_new Endian.little long_name (ground arith)

-- A short name is shown with the NULs that fill the buffer up.
shown_test : host_text (b'p' ∷ b'c' ∷ []) ≡ b'p' ∷ b'c' ∷ replicate 30 0
unfolding utf16 fit encode_utf16 len_utf16
shown_test = refl
