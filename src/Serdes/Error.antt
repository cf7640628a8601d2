-- ===== src/Serdes/Error.antt =====
-- bjnp/src/serdes.rs: `FormatError`, `ParseError` and `OffsetError`.
use scanner_button.Prelude.{ℕ, ◌+◌, ◌≡◌, String, arith}
use scanner_button.Rust.Outcome.{Outcome, map_err}

-- A byte, its offset and a message; a span by its start and end, and a message.
pub data FormatError : Type 0 where
  invalid_byte : ℕ → ℕ → String → FormatError
  invalid_slice : ℕ → ℕ → String → FormatError

-- `unexpected_end expected actual`
pub data ParseError : Type 0 where
  invalid_format : FormatError → ParseError
  unexpected_end : ℕ → ℕ → ParseError

unfoldable pub format_offset_by : FormatError → ℕ → FormatError
format_offset_by (invalid_byte byte offset message) by = invalid_byte byte (offset + by) message
format_offset_by (invalid_slice start end message) by =
    invalid_slice (start + by) (end + by) message

unfoldable pub offset_by : ParseError → ℕ → ParseError
unfolding format_offset_by
offset_by (invalid_format e) offset = invalid_format (format_offset_by e offset)
offset_by (unexpected_end expected actual) offset = unexpected_end (expected + offset) actual

abbrev pub format_result_offset_by :
    {A : Type 0} → Outcome A FormatError → ℕ → Outcome A FormatError
format_result_offset_by r by = map_err (λ e. format_offset_by e by) r

abbrev pub result_offset_by : {A : Type 0} → Outcome A ParseError → ℕ → Outcome A ParseError
result_offset_by r by = map_err (λ e. offset_by e by) r

-- Offsets add up: an error that is shifted twice is shifted by the sum.
pub offset_by-offset_by :
    (e : ParseError) (m n : ℕ) → offset_by (offset_by e m) n ≡ offset_by e (m + n)
unfolding offset_by
offset_by-offset_by (invalid_format (invalid_byte b o s)) m n = ground arith
offset_by-offset_by (invalid_format (invalid_slice a o s)) m n = ground arith
offset_by-offset_by (unexpected_end a b) m n = ground arith
