-- ===== src/Listener/Tests/Recovers.antt =====
-- src/poll.rs: a listener in a back off, and a scanner that answers by the type of the packet.
use scanner_button.Prelude.{ℕ, ◌<◌, ◌≤◌, ◌≡◌, refl, some, true, List, ◌∷◌}
use scanner_button.Rust.Outcome.{Outcome, ok}
use scanner_button.Rust.Word.{from_be_bytes}
use scanner_button.Serdes.Error.{ParseError}
use scanner_button.Serdes.Field.{try_from_u8}
use scanner_button.Serdes.Traits.{deserialize_sized}
use scanner_button.Header.{PayloadType, header_try_from}
use scanner_button.Packet.{PacketHeaderOnly, parse}
use scanner_button.Poll.Command.Tests.{digits_time, new_year, new_year-HasText}
use scanner_button.Poll.Response.{response_deserialize, response_try_from}
use scanner_button.Discover
use scanner_button.Channel.{Event, sent, done}
use scanner_button.Listener.Handlers.{Machine, State, Listener, listen_rounds}
use scanner_button.Listener.Recovers.{IsAnswering, listen_rounds-recovers}
use scanner_button.Listener.Tests.{scanner_address, polling, idle_reply}
use scanner_button.Listener.Tests.Opening.{discover_reply}

abbrev reply_to_type : PayloadType → List ℕ
reply_to_type PayloadType.discover = discover_reply
reply_to_type _ = idle_reply

abbrev reply_to_packet : Outcome PacketHeaderOnly ParseError → List ℕ
reply_to_packet (ok packet) = reply_to_type packet.header.payload_type
reply_to_packet _ = idle_reply

-- The answer to the newest packet.
abbrev reply_to : List Event → List ℕ
reply_to (sent buffer ∷ rest) = reply_to_packet (parse buffer)
reply_to _ = idle_reply

abbrev awake : Machine digits_time
awake = record {
  network = record {
    peer_addr = λ _. some scanner_address;
    send = λ _ _ _. done tt;
    recv = λ _ log. done (reply_to log);
  };
  now = λ _. new_year;
  spawn = λ _. true;
}

awake-IsAnswering : IsAnswering awake.network
unfolding parse deserialize_sized header_try_from try_from_u8 from_be_bytes
    Discover.response_from_bytes Discover.mac_from_bytes Discover.octets_exact
    Discover.ip_from_bytes response_try_from
awake-IsAnswering = record {
  peers = λ log. (scanner_address, refl);
  takes = λ limit log buffer. refl;
  discovers = λ limit log buffer packet parsed type. (
    _,
    record {
      has_peer = (scanner_address, refl);
      datagram = discover_reply;
      packet = _;
      size = _;
      answered = rw (parsed, type) refl;
      parsed = refl;
      no_error = refl;
      payload_read = refl;
    },
  );
  opens = λ limit log buffer packet parsed type front. (
    _,
    9,
    refl,
    record {
      has_peer = (scanner_address, refl);
      datagram = idle_reply;
      packet = _;
      size = _;
      answered = rw (parsed, type) refl;
      parsed = refl;
      no_error = refl;
      payload_read = refl;
    },
  );
}

abbrev waiting : Listener
waiting = record polling { state = State.backoff 60 }

listen_rounds-recovers_example :
    (n : ℕ) × (0 < n)
    × (n ≤ 2)
    × (self' : Listener) × (listen_rounds awake n waiting ≡ some self')
    × (self'.state ≡ State.poll)
listen_rounds-recovers_example =
    listen_rounds-recovers awake awake-IsAnswering (λ _. new_year-HasText) waiting refl
