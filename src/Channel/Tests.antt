-- ===== src/Channel/Tests.antt =====
-- src/channel.rs: runs over concrete networks.
use scanner_button.Prelude.{ℕ, ◌≡◌, refl, none, some, List, [], ◌∷◌, arith, take}
use scanner_button.Rust.Outcome.{ok, err}
use scanner_button.Rust.Word.{from_be_bytes}
use scanner_button.Rust.Triples.{Ends}
use scanner_button.Serdes.Field.{try_from_u8}
use scanner_button.Serdes.Traits.{deserialize_sized}
use scanner_button.Header.{PayloadType, PacketType, header_try_from}
use scanner_button.Packet.{PacketHeaderOnly, parse}
use scanner_button.Discover.{Response, response_serialize, response_deserialize, mac_size, ip_size}
use scanner_button.Discover.RoundTrip.{Response-IsCodec}
use scanner_button.Discover.Errors.{response_from_bytes-ne-panic}
use scanner_button.Discover.Tests.{scanner, scanner-IsResponse}
use scanner_button.Channel.Wire.{
  Network, SocketAddr, HasPeer, Channel, remote_error, done, send, recv,
}
use scanner_button.Channel.Sends.{IsSent, send-IsSent}
use scanner_button.Channel.Receives.{
  IsReceived, IsUnread, recv-IsReceived, recv-remote_error, after,
}

-- An error packet without a payload.
abbrev refusal : List ℕ
refusal = b'B' ∷ b'J' ∷ b'N' ∷ b'P' ∷ 0x82 ∷ 0x32 ∷ 7 ∷ 0 ∷ 0 ∷ 1 ∷ 0 ∷ 0 ∷ 0 ∷ 0 ∷ 0 ∷ 0 ∷ []

abbrev peer : SocketAddr
peer = record { ip = scanner.ip_addr; port = 8612 }

abbrev refusing : Network
refusing = record {
  peer_addr = λ _. some peer;
  send = λ _ _ _. done tt;
  recv = λ _ _. done refusal;
}

abbrev last_number : Channel
last_number = record { sequence = 65535; log = [] }

send-IsSent_example :
    Ends
      (λ _ c.
        HasPeer refusing []
        × IsSent PayloadType.discover (Response-IsCodec.encode scanner) last_number c)
      (λ c. HasPeer refusing [] × (c ≡ last_number))
      (some peer ≡ none)
      (send refusing 5 PayloadType.discover scanner last_number)
send-IsSent_example =
    send-IsSent Response-IsCodec refusing 5 PayloadType.discover scanner last_number
      scanner-IsResponse (unfold mac_size ip_size in omega arith) (omega arith)

recv-IsReceived_example :
    Ends {A = Response}
      (λ x c. IsReceived refusing 5 last_number x c)
      (IsUnread refusing 5 last_number)
      (some peer ≡ none)
      (recv refusing 5 last_number)
recv-IsReceived_example = recv-IsReceived response_from_bytes-ne-panic refusing 5 last_number

abbrev refusal_packet : PacketHeaderOnly
refusal_packet = record {
  header = record {
    packet_type = PacketType.scanner_response;
    payload_type = PayloadType.poll;
    error = 7;
    sequence = 1;
    job_id = none;
    payload_size = 0;
  };
  payload = [];
}

refusal-parse : parse (take 65536 refusal) ≡ ok refusal_packet
unfolding parse deserialize_sized header_try_from try_from_u8 from_be_bytes
refusal-parse = refl

recv-remote_error_example :
    recv {T = Response} refusing 5 last_number ≡ (err (remote_error 7), after last_number refusal)
recv-remote_error_example =
    recv-remote_error refusing 5 last_number refusal refusal_packet (peer, refl) refl refusal-parse
      (λ e. omega arith) refl
