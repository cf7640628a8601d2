-- ===== src/Serdes/Shown.antt =====
-- bjnp/src/serdes.rs: `Display` of the errors, of the fields that are enums, and of `Empty`.
-- bjnp/src/lib.rs: `write_nested!`.
use scanner_button.Prelude.{ℕ, ◌+◌, List, ◌∷◌, ◌++◌, Option, none, some, true, false, if◌then◌else◌}
use scanner_button.Rust.Format.{Formatter, Display, codes, decimal, hex_prefixed}
use scanner_button.Serdes.Error.{
  FormatError, ParseError, invalid_byte, invalid_slice, invalid_format, unexpected_end,
}
use scanner_button.Serdes.Field.{Field}
use scanner_button.Serdes.Traits.{Empty}

unfoldable pub format_error_shown : FormatError → List ℕ
format_error_shown (invalid_byte byte offset message) =
    codes "invalid byte `"
    ++ (hex_prefixed 2 byte
        ++ (codes "` at offset " ++ (decimal offset ++ (codes ": " ++ codes message))))
format_error_shown (invalid_slice start end message) =
    codes "invalid byte slice at offset ("
    ++ (decimal start ++ (codes ".." ++ (decimal end ++ (codes "): " ++ codes message))))

unfoldable pub parse_error_shown : ParseError → List ℕ
parse_error_shown (invalid_format e) = codes "invalid packet format"
parse_error_shown (unexpected_end expected actual) =
    codes "unexpected end of packet, expect size >= "
    ++ (decimal expected ++ (codes ", found size " ++ decimal actual))

-- What a macro writes for a variant, whatever the formatter.
unfoldable pub field_shown : {A : Type 0} → Field A → A → List ℕ
field_shown field x = codes (field.variant_name x)

instance abbrev pub empty_display : Display Empty
empty_display = record { fmt = λ x f. codes "<empty>" }

-- `DISPLAY_INDENT`
abbrev pub display_indent : ℕ
display_indent = 4

unfoldable pub unwrap_or : Option ℕ → ℕ → ℕ
unwrap_or none n = n
unwrap_or (some m) n = m

-- The formatters of `{obj:-}` and `{obj:width$.precision$}`.
abbrev pub inline : Formatter
inline = record { sign_minus = true; width = none; precision = none }

abbrev pub indented : ℕ → ℕ → Formatter
indented width precision = record {
  sign_minus = false;
  width = some width;
  precision = some precision;
}

-- On the same line for `{:-}`, and else on a line of its own, one step further to the right.
unfoldable pub write_nested : {T : Type 0} ⦃d : Display T⦄ → Formatter → T → List ℕ
write_nested ⦃d⦄ f obj =
    let indent = unwrap_or f.width 0 in
    let step = unwrap_or f.precision display_indent in
    if f.sign_minus
    then codes " / " ++ d.fmt obj inline
    else b'\n' ∷ d.fmt obj (indented (indent + step) step)
