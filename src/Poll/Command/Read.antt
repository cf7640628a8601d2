-- ===== src/Poll/Command/Read.antt =====
-- bjnp/src/poll/command.rs: reading the parts of a command.
use scanner_button.Prelude.{ℕ, suc, ◌+◌, ◌≡◌, refl, List, ◌++◌, arith}
use scanner_button.Prelude.{length, le→leb}
use scanner_button.Rust.Outcome.{ok, map_ok}
use scanner_button.Rust.Word.{IsU32, u16_to_be_bytes, from_be_bytes, from_be_bytes-u32}
use scanner_button.Serdes.Error.{result_offset_by}
use scanner_button.Serdes.Field.{try_from_wider}
use scanner_button.Serdes.Traits.{deserialize_sized}
use scanner_button.Serdes.Raw.{deserialize-bytes}
use scanner_button.Poll.Host.Buffer.{IsHost}
use scanner_button.Poll.Command.Time.{TimeCrate}
use scanner_button.Poll.Command.Types.{
  EmptyCommand, empty_command, HostOnlyCommand, ResetCommand, PollType, poll_type_field,
}
use scanner_button.Poll.Command.Raw.{raw_empty, raw_host_only, raw_reset}
use scanner_button.Poll.Command.Raw.{
  to_raw_empty, empty_try_from, to_raw_host_only, host_only_try_from, to_raw_reset, reset_try_from,
  empty_sized, host_only_sized, reset_sized,
}
use scanner_button.Poll.Command.Wire.{
  inner_deserialize, command_from_bytes, command_serialize, command_deserialize,
}
use scanner_button.Poll.Command.Lawful.{host_only_view, reset_view, host_only_length, reset_length}

pub deserialize_empty :
    (c : EmptyCommand) (rest : List ℕ)
    → deserialize_sized empty_sized (raw_empty.bytes (to_raw_empty c) ++ rest) ≡ ok (c, 78)
unfolding to_raw_empty empty_try_from
deserialize_empty empty_command rest =
    deserialize-bytes raw_empty empty_try_from (to_raw_empty empty_command) rest refl refl refl

pub deserialize_host_only :
    (c : HostOnlyCommand) (rest : List ℕ)
    → IsHost c.host
    → deserialize_sized host_only_sized (raw_host_only.bytes (to_raw_host_only c) ++ rest)
      ≡ ok (c, 74)
unfolding to_raw_host_only host_only_try_from
deserialize_host_only c rest h =
    deserialize-bytes raw_host_only host_only_try_from (to_raw_host_only c) rest
      (host_only_length c.host.octets h) (host_only_view c.host.octets h rest) refl

pub deserialize_reset :
    (c : ResetCommand) (rest : List ℕ)
    → IsU32 c.session_id × IsHost c.host × IsU32 c.action_id
    → deserialize_sized reset_sized (raw_reset.bytes (to_raw_reset c) ++ rest) ≡ ok (c, 98)
unfolding to_raw_reset reset_try_from
deserialize_reset c rest (s, h, a) =
    deserialize-bytes raw_reset reset_try_from (to_raw_reset c) rest
      (reset_length c.host.octets h c.session_id c.action_id)
      (reset_view c.host.octets h c.session_id c.action_id rest)
      (rw (from_be_bytes-u32 c.session_id s, from_be_bytes-u32 c.action_id a))

-- The type in front chooses the command, and shifts what is reported by its two bytes.
pub command_from_bytes-poll_type :
    (t : TimeCrate) (p : PollType) (rest : List ℕ)
    → command_from_bytes t (u16_to_be_bytes (poll_type_field.as_repr p) ++ rest)
      ≡ result_offset_by (map_ok (λ (cmd, size). (cmd, size + 2)) (inner_deserialize t p rest)) 2
unfolding command_from_bytes u16_to_be_bytes from_be_bytes try_from_wider
command_from_bytes-poll_type t PollType.empty rest =
    rw (le→leb 2 (suc (suc (length rest))) (omega arith))
command_from_bytes-poll_type t _ rest = rw (le→leb 2 (suc (suc (length rest))) (omega arith))
