-- ===== src/Listener/Tests/Opening.antt =====
-- src/poll.rs: a run of `try_init` against a scanner that answers both commands.
use scanner_button.Prelude.{some, ℕ, ◌≡◌, refl, List, [], ◌∷◌, length, ◌==◌, if◌then◌else◌, true}
use scanner_button.Rust.Outcome.{ok}
use scanner_button.Rust.Word.{from_be_bytes}
use scanner_button.Serdes.Field.{try_from_u8}
use scanner_button.Serdes.Traits.{deserialize_sized, serialize_to_vec}
use scanner_button.Header.{header_try_from}
use scanner_button.Packet.{parse, packet_try_from, build, new, with_sequence}
use scanner_button.Poll.Command as Cmd
use scanner_button.Poll.Command.Tests.{digits_time, new_year}
use scanner_button.Poll.Response.{response_try_from}
use scanner_button.Discover
use scanner_button.Channel.{done, send, recv, reset_sequence, command_packet}
use scanner_button.Listener.Handlers.{Machine, try_init, send_poll, recv_poll, recv_discover}
use scanner_button.Listener.Opening.{IsOpened, try_init-IsOpened}
use scanner_button.Listener.Tests.{scanner_address, polling, idle_reply}

-- The answer to a discover command.
abbrev pub discover_reply : List ℕ
discover_reply =
    b'B' ∷ b'J' ∷ b'N' ∷ b'P' ∷ 0x82 ∷ 0x01 ∷ 0 ∷ 0 ∷ 0 ∷ 0 ∷ 0 ∷ 0 ∷ 0 ∷ 0 ∷ 0 ∷ 16 ∷ 0 ∷ 1 ∷ 8 ∷ 0
    ∷ 6 ∷ 4 ∷ 0xc8 ∷ 0xb5 ∷ 0xad ∷ 0xce ∷ 0xaa ∷ 0x01 ∷ 192 ∷ 168 ∷ 1 ∷ 20 ∷ []

abbrev scanner : Machine digits_time
scanner = record {
  network = record {
    peer_addr = λ _. some scanner_address;
    send = λ _ _ _. done tt;
    recv = λ _ log. done (if length log == 1 then discover_reply else idle_reply);
  };
  now = λ _. new_year;
  spawn = λ _. true;
}

opens : try_init scanner 60 polling ≡ (ok tt, (try_init scanner 60 polling).1)
unfolding try_init send recv reset_sequence serialize_to_vec recv_discover parse deserialize_sized
    header_try_from try_from_u8 from_be_bytes packet_try_from Discover.response_from_bytes
    Discover.mac_from_bytes Discover.octets_exact Discover.ip_from_bytes send_poll Cmd.build
    Cmd.with_host Cmd.new Cmd.inner_serialize command_packet recv_poll build new with_sequence
    Cmd.build_as Cmd.to_raw_host_only response_try_from
opens = refl

try_init-IsOpened_example : IsOpened scanner 60 polling (try_init scanner 60 polling).1
try_init-IsOpened_example =
    try_init-IsOpened scanner 60 polling (try_init scanner 60 polling).1 refl opens
