-- ===== src/Poll/Command/Wire.antt =====
-- bjnp/src/poll/command.rs: the accessors, `Serialize` and `Deserialize` of `Command`.
use scanner_button.Prelude.{ℕ, ◌+◌, Option, none, some, List, ◌++◌, length}
use scanner_button.Rust.Outcome.{Outcome, ◌>>=◌, ok_or, map_ok, map_err}
use scanner_button.Rust.Slice.{get_range, array_of, slice_from}
use scanner_button.Rust.Word.{u16_to_be_bytes, from_be_bytes}
use scanner_button.Serdes.Error.{ParseError, invalid_format, unexpected_end, result_offset_by}
use scanner_button.Serdes.Field.{try_from_wider}
use scanner_button.Serdes.Traits.{Serialize, Deserialize, IoError, deserialize_sized}
use scanner_button.Poll.Host.{Host}
use scanner_button.Poll.Command.Time.{TimeCrate}
use scanner_button.Poll.Command.Types.{PollType, poll_type_field, Command}
use scanner_button.Poll.Command.Raw.{empty_serialize, empty_sized, host_only_serialize}
use scanner_button.Poll.Command.Raw.{host_only_sized, full_serialize, full_sized, reset_serialize}
use scanner_button.Poll.Command.Raw.{reset_sized}

module _ {t : TimeCrate} where
  unfoldable pub poll_type : Command t → PollType
  poll_type (Command.empty c) = PollType.empty
  poll_type (Command.host_only c) = PollType.host_only
  poll_type (Command.full c) = PollType.full
  poll_type (Command.reset c) = PollType.reset

  unfoldable pub session_id : Command t → Option ℕ
  session_id (Command.full c) = some c.session_id
  session_id (Command.reset c) = some c.session_id
  session_id _ = none

  unfoldable pub host : Command t → Option Host
  host (Command.empty c) = none
  host (Command.host_only c) = some c.host
  host (Command.full c) = some c.host
  host (Command.reset c) = some c.host

  unfoldable pub action_id : Command t → Option ℕ
  action_id (Command.reset c) = some c.action_id
  action_id _ = none

  unfoldable pub datetime : Command t → Option t.DateTime
  datetime (Command.full c) = some c.datetime
  datetime _ = none

  unfoldable pub inner_serialize : Command t → List ℕ → Outcome (List ℕ) IoError
  inner_serialize (Command.empty c) out = empty_serialize.serialize c out
  inner_serialize (Command.host_only c) out = host_only_serialize.serialize c out
  inner_serialize (Command.full c) out = (full_serialize t).serialize c out
  inner_serialize (Command.reset c) out = reset_serialize.serialize c out

  unfoldable pub inner_size : Command t → ℕ
  inner_size (Command.empty c) = empty_serialize.size c
  inner_size (Command.host_only c) = host_only_serialize.size c
  inner_size (Command.full c) = (full_serialize t).size c
  inner_size (Command.reset c) = reset_serialize.size c

  instance abbrev pub command_serialize : Serialize (Command t)
  command_serialize = record {
    serialize =
        λ c out. inner_serialize c (out ++ u16_to_be_bytes (poll_type_field.as_repr (poll_type c)));
    size = λ c. 2 + inner_size c;
  }

module _ (t : TimeCrate) where
  -- `.map(deserialized_into)`
  unfoldable pub inner_deserialize : PollType → List ℕ → Outcome (Command t × ℕ) ParseError
  inner_deserialize PollType.empty buffer =
      map_ok (λ (c, size). (Command.empty c, size)) (deserialize_sized empty_sized buffer)
  inner_deserialize PollType.host_only buffer =
      map_ok (λ (c, size). (Command.host_only c, size)) (deserialize_sized host_only_sized buffer)
  inner_deserialize PollType.full buffer =
      map_ok (λ (c, size). (Command.full c, size)) (deserialize_sized (full_sized t) buffer)
  inner_deserialize PollType.reset buffer =
      map_ok (λ (c, size). (Command.reset c, size)) (deserialize_sized reset_sized buffer)

  unfoldable pub command_from_bytes : List ℕ → Outcome (Command t × ℕ) ParseError
  command_from_bytes buffer = do
    poll_type ← ok_or (get_range buffer 0 2) (unexpected_end 2 (length buffer))
    poll_type ← array_of 2 poll_type
    poll_type ← map_err invalid_format (try_from_wider 2 poll_type_field (from_be_bytes poll_type))
    buffer ← slice_from buffer 2
    result_offset_by (map_ok (λ (cmd, size). (cmd, size + 2)) (inner_deserialize poll_type buffer))
        2

instance abbrev pub command_deserialize : {t : TimeCrate} → Deserialize (Command t)
command_deserialize {t} = record { deserialize = command_from_bytes t }
