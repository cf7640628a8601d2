-- ===== src/Channel/Wire.antt =====
-- src/channel.rs: a socket that is connected to the scanner, and the sequence number.
use scanner_button.Prelude.{
  ℕ, ◌+◌, ◌%◌, ◌^◌, List, ◌∷◌, take, String, ◌==◌, ltb, ◌||◌, ◌≡◌, refl, ◌⊎◌, inl, inr, Option,
  some,
}
use scanner_button.Rust.Outcome.{Outcome, ok, err, map_err, unwrap_option}
use scanner_button.Rust.Run.{Run, ◌>>=◌, ◌>>◌, pure, lift, get, modify, ensure}
use scanner_button.Serdes.Error.{ParseError}
use scanner_button.Serdes.Traits.{Serialize, Deserialize, serialize_to_vec}
use scanner_button.Discover.{IpAddr}
use scanner_button.Header.{PacketType, PayloadType}
use scanner_button.Packet.{
  Packet, parse, packet_try_from, new, build, with_sequence, packet_serialize,
}

-- What a program can see of the outside, in the order in which it happened, newest first: the
-- packets, the programs that it started with their environment, and the seconds that it slept.
pub data Event : Type 0 where
  sent : List ℕ → Event
  received : List ℕ → Event
  launched : String → List String → List (String × String) → Event
  slept : ℕ → Event

-- How a call on the socket ends within a number of seconds.
pub data Reply (A : Type 0) : Type 0 where
  done : A → Reply A
  failed : Reply A
  late : Reply A

-- `std::net::SocketAddr`
pub record SocketAddr : Type 0 where
  pub ip : IpAddr
  pub port : ℕ

-- The socket, as the kernel and the scanner answer it after the events so far. A connected socket
-- need not know its peer: on Linux a connection to port 0 goes well, and `peer_addr` fails behind it.
pub record Network : Type 0 where
  pub peer_addr : List Event → Option SocketAddr
  pub send : ℕ → List Event → List ℕ → Reply (Unit {0})
  pub recv : ℕ → List Event → Reply (List ℕ)

-- The errors that `anyhow` carries.
pub data Failure : Type 0 where
  io_error : Failure
  elapsed : Failure
  unreadable : ParseError → Failure
  remote_error : ℕ → Failure
  unexpected_interrupt : Failure
  not_launched : Failure

pub record Channel : Type 0 where
  pub sequence : ℕ
  pub log : List Event

-- The socket knows its peer.
abbrev pub HasPeer : Network → List Event → Type 0
HasPeer net log = (peer : SocketAddr) × (net.peer_addr log ≡ some peer)

abbrev pub await : {A : Type 0} → Reply A → Outcome A Failure
await (done a) = ok a
await failed = err io_error
await late = err elapsed

pub Reply-cases :
    {A : Type 0} (r : Reply A) → ((a : A) × (r ≡ done a)) ⊎ ((r ≡ failed) ⊎ (r ≡ late))
Reply-cases (done a) = inl (a, refl)
Reply-cases failed = inr (inl refl)
Reply-cases late = inr (inr refl)

-- The packet that `send` builds.
unfoldable pub command_packet :
    {T : Type 0} ⦃s : Serialize T⦄ → Channel → PayloadType → T → Packet T
command_packet channel payload_type payload =
    build (with_sequence (new PacketType.scanner_command payload_type) channel.sequence) payload

-- `limit` is the number of seconds of the `timeout` that every caller wraps around the call. A
-- call that is cut off by it has not reached the lines behind its `await`.
unfoldable pub send :
    {T : Type 0} ⦃s : Serialize T⦄ → Network → ℕ → PayloadType → T → Run Channel Failure (Unit {0})
send net limit payload_type payload = do
  channel ← get
  lift (unwrap_option (net.peer_addr channel.log))
  buffer ← lift (serialize_to_vec (command_packet channel payload_type payload))
  lift (await (net.send limit channel.log buffer))
  modify λ channel. record {
    sequence = (channel.sequence + 1) % 2 ^ 16;
    log = sent buffer ∷ channel.log;
  }

unfoldable pub recv : {T : Type 0} ⦃d : Deserialize T⦄ → Network → ℕ → Run Channel Failure T
recv net limit = do
  channel ← get
  lift (unwrap_option (net.peer_addr channel.log))
  datagram ← lift (await (net.recv limit channel.log))
  let buffer = take 65536 datagram
  modify λ channel. record channel { log = received buffer ∷ channel.log }
  packet ← lift (map_err unreadable (parse buffer))
  ensure (packet.header.error == 0 || ltb 0 packet.header.payload_size)
      (remote_error packet.header.error)
  packet ← lift (map_err unreadable (packet_try_from packet))
  pure packet.payload

unfoldable pub reset_sequence : Run Channel Failure (Unit {0})
reset_sequence = modify λ channel. record channel { sequence = 0 }
