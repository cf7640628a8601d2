-- ===== src/Poll/Command/Time.antt =====
-- What bjnp/src/poll/command.rs takes from the crate `time`, with the description
-- `[year][month][day][hour][minute][second]`.
use scanner_button.Prelude.{ℕ, ◌≡◌, Option, some, List, length}

-- `text` is what `format_into` writes, or none where it cannot format; `parse_items` fills a
-- `Parsed`, and `to_datetime` is the conversion of that.
pub record TimeCrate : Type 1 where
  pub DateTime : Type 0
  pub Parsed : Type 0
  pub text : DateTime → Option (List ℕ)
  pub parse_items : List ℕ → Option Parsed
  pub to_datetime : Parsed → Option DateTime

-- Documented of the crate: the text of a date with a year of four digits has fourteen bytes, and
-- parsing it gives the date.
pub record HasText (t : TimeCrate) (d : t.DateTime) : Type 0 where
  pub shown : List ℕ
  pub parsed : t.Parsed
  pub text_shown : t.text d ≡ some shown
  pub length_shown : length shown ≡ 14
  pub parse_shown : t.parse_items shown ≡ some parsed
  pub datetime_parsed : t.to_datetime parsed ≡ some d
