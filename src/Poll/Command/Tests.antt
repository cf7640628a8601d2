-- ===== src/Poll/Command/Tests.antt =====
-- bjnp/src/poll/command.rs: runs at concrete inputs.
use scanner_button.Prelude.{
  ℕ, ◌+◌, ◌<◌, ◌≡◌, ◌≢◌, ◌↔◌, refl, some, none, List, [], ◌∷◌, ◌++◌, replicate, length, arith, ◌==◌,
  if◌then◌else◌,
}
use scanner_button.Rust.Outcome.{ok, err, panic, ◌>>=◌}
use scanner_button.Rust.Word.{u16_to_be_bytes, from_be_bytes}
use scanner_button.Serdes.Error.{invalid_format, invalid_slice, unexpected_end}
use scanner_button.Serdes.Traits.{serialize_to_vec}
use scanner_button.Poll.Host.{Host}
use scanner_button.Poll.Command.Time.{TimeCrate, HasText}
use scanner_button.Poll.Command.Types.{PollType, poll_type_field, Command}
use scanner_button.Poll.Command.Wire.{command_serialize, command_from_bytes}
use scanner_button.Poll.Command.Builder.{CommandBuilder, build}
use scanner_button.Poll.Command.RoundTrip.{IsCommand, command_round_trip}
use scanner_button.Poll.Command.Errors.{
  size_after_type, command_truncated, command_unknown_type, command_panics_iff,
}
use scanner_button.Poll.Command.Built.{IsComplete, IsBuilt, build_iff}

-- A crate whose dates are texts of fourteen bytes.
abbrev pub digits_time : TimeCrate
digits_time = record {
  DateTime = List ℕ;
  Parsed = List ℕ;
  text = some;
  parse_items = λ s. if length s == 14 then some s else none;
  to_datetime = some;
}

abbrev pub new_year : List ℕ
new_year =
    b'2' ∷ b'0' ∷ b'2' ∷ b'4' ∷ b'0' ∷ b'1' ∷ b'0' ∷ b'1' ∷ b'0' ∷ b'0' ∷ b'0' ∷ b'0' ∷ b'0' ∷ b'0'
    ∷ []

pub new_year-HasText : HasText digits_time new_year
new_year-HasText = record {
  shown = new_year;
  parsed = new_year;
  text_shown = refl;
  length_shown = refl;
  parse_shown = refl;
  datetime_parsed = refl;
}

abbrev pub some_host : Host
some_host = record { octets = replicate 64 1 }

abbrev pub full_command : Command digits_time
full_command = Command.full (record { session_id = 77; host = some_host; datetime = new_year })

pub full_command-IsCommand : IsCommand full_command
full_command-IsCommand = (omega arith, refl, new_year-HasText)

command_round_trip_example :
    (do
      bytes ← serialize_to_vec full_command
      command_from_bytes digits_time (bytes ++ (1 ∷ 2 ∷ [])))
    ≡ ok (full_command, command_serialize.size full_command)
command_round_trip_example = command_round_trip full_command (1 ∷ 2 ∷ []) full_command-IsCommand

short : length {A = ℕ} (1 ∷ 2 ∷ 3 ∷ []) < size_after_type PollType.reset
unfolding size_after_type
short = omega arith

command_truncated_example :
    (command_from_bytes digits_time
        (u16_to_be_bytes (poll_type_field.as_repr PollType.reset) ++ (1 ∷ 2 ∷ 3 ∷ []))
      ≡ err (unexpected_end (size_after_type PollType.reset + 2) (length {A = ℕ} (1 ∷ 2 ∷ 3 ∷ []))))
    × (length (u16_to_be_bytes (poll_type_field.as_repr PollType.reset) ++ (1 ∷ 2 ∷ 3 ∷ []))
        ≡ length {A = ℕ} (1 ∷ 2 ∷ 3 ∷ []) + 2)
command_truncated_example = command_truncated digits_time PollType.reset (1 ∷ 2 ∷ 3 ∷ []) short

no_type_3 : (p : PollType) → poll_type_field.as_repr p ≢ from_be_bytes (0 ∷ 3 ∷ [])
unfolding from_be_bytes
no_type_3 PollType.empty e = omega arith
no_type_3 PollType.host_only e = omega arith
no_type_3 PollType.full e = omega arith
no_type_3 PollType.reset e = omega arith

command_unknown_type_example :
    command_from_bytes digits_time (0 ∷ 3 ∷ 9 ∷ [])
    ≡ err (invalid_format (invalid_slice 0 2 "unknown poll type"))
command_unknown_type_example = command_unknown_type digits_time 0 3 (9 ∷ []) no_type_3

command_panics_iff_example : ((buffer : List ℕ) → command_from_bytes digits_time buffer ≢ panic) ↔ (
    (s : List ℕ) (parsed : List ℕ)
    → length s ≡ 14
    → digits_time.parse_items s ≡ some parsed
    → digits_time.to_datetime parsed ≢ none)
command_panics_iff_example = command_panics_iff digits_time

abbrev reset_builder : CommandBuilder digits_time
reset_builder = record {
  poll_type = PollType.reset;
  session_id = some 77;
  host = some some_host;
  action_id = some 5;
  datetime = none;
}

build_iff_example : IsComplete reset_builder.poll_type reset_builder ↔ (
    (c : Command digits_time) × (build reset_builder ≡ some c)
    × IsBuilt reset_builder.poll_type reset_builder c)
build_iff_example = build_iff reset_builder
