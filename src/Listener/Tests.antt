-- ===== src/Listener/Tests.antt =====
-- src/poll.rs: runs of the listener over concrete networks.
pub mod Opening
mod Recovers
mod Serving
use scanner_button.Prelude.{
  ℕ, ◌≤◌, ◌*◌, ◌^◌, Option, ◌≡◌, refl, some, none, List, [], ◌∷◌, ◌++◌, arith, replicate, true,
}
use scanner_button.Rust.Outcome.{ok, panic}
use scanner_button.Rust.Float.{u64_of_f32, mul, f32_of_u64, round_to, excess}
use scanner_button.Rust.Word.{from_be_bytes}
use scanner_button.Serdes.Field.{try_from_u8}
use scanner_button.Serdes.Traits.{serialize_to_vec, deserialize_sized}
use scanner_button.Header.{header_try_from}
use scanner_button.Poll.Response.{
  to_raw_interrupt, response_try_from, interrupt_try_from, option_try_from,
}
use scanner_button.Poll.Response.RoundTrip.{interrupt_bytes}
use scanner_button.Poll.Response.Tests.{duplex}
use scanner_button.Channel.Sends.{send-delivered}
use scanner_button.Listener.Calls.{command_written, IsDated}
use scanner_button.Packet.{parse, packet_try_from, build, new, with_sequence}
use scanner_button.Header.{PayloadType}
use scanner_button.Poll.Command.Tests.{digits_time, new_year, new_year-HasText, some_host}
use scanner_button.Poll.Command.{Command, command_serialize}
use scanner_button.Poll.Response.{Response, response_deserialize}
use scanner_button.Channel.{Channel, done, late, send, recv, reset_sequence, command_packet}
use scanner_button.Listener.Launch.{ListenConfig}
use scanner_button.Listener.Handlers.{
  Machine, State, Listener, listen_rounds, listen_round, next, next_from, try_init, recv_discover,
  transit_err, state_after_err, poll_once,
}
use scanner_button.Rust.Triples.{Ends}
use scanner_button.Discover.Tests.{scanner}
use scanner_button.Channel.{SocketAddr, Kernel, Failure, HasPeer, channel_new, perform}
use scanner_button.Channel.Connects.{fresh, IsUnconnected}
use scanner_button.Listener.Listen.{listener_on, listener_new, listen}
use scanner_button.Listener.Runs.{IsListening, IsKnown, listen-IsListening}
use scanner_button.Listener.Rounds.{Reaches, listen_rounds-Reaches}
use scanner_button.Listener.Polling.{
  rested, full_command, reset_command, with_launch, poll_once_idle, poll_once_pressed,
}

abbrev pub scanner_address : SocketAddr
scanner_address = record { ip = scanner.ip_addr; port = 8612 }

-- 1.5 as the factor.
abbrev config : ListenConfig
config = record {
  scanner_addr = scanner_address;
  hostname = some_host;
  initial_max_waiting = 60;
  backoff_factor = record { units = 3 * 2 ^ 148 };
  backoff_maximum = 100;
  command = ("scan", []);
}

abbrev dead : Machine digits_time
dead = record {
  network = record {
    peer_addr = λ _. some scanner_address;
    send = λ _ _ _. done tt;
    recv = λ _ _. late;
  };
  now = λ _. new_year;
  spawn = λ _. true;
}

abbrev state_of : Option Listener → Option State
state_of none = none
state_of (some self) = some self.state

-- A scanner that does not answer: the listener backs off for 60, then 90, then 100 seconds.
dead_60 : state_of (listen_rounds dead 1 (listener_on config fresh)) ≡ some (State.backoff 60)
unfolding listen_rounds listen_round next next_from try_init recv_discover send recv reset_sequence
    serialize_to_vec command_packet build with_sequence new transit_err state_after_err
dead_60 = refl

dead_90 : state_of (listen_rounds dead 2 (listener_on config fresh)) ≡ some (State.backoff 90)
unfolding listen_rounds listen_round next next_from try_init recv_discover send recv reset_sequence
    serialize_to_vec command_packet build with_sequence new transit_err state_after_err u64_of_f32
    mul f32_of_u64 round_to excess
dead_90 = refl

dead_100 : state_of (listen_rounds dead 3 (listener_on config fresh)) ≡ some (State.backoff 100)
unfolding listen_rounds listen_round next next_from try_init recv_discover send recv reset_sequence
    serialize_to_vec command_packet build with_sequence new transit_err state_after_err u64_of_f32
    mul f32_of_u64 round_to excess
dead_100 = refl

-- Every call of the listener's socket goes well.
abbrev willing : Kernel
willing = record {
  allows = λ _ _. true;
  local_addr = λ _. some scanner_address;
  recv_from = λ _. none;
}

-- A socket that was connected and does not know its peer.
abbrev peerless : Machine digits_time
peerless = record dead { network = record dead.network { peer_addr = λ _. none } }

peerless_panics : (listen willing peerless config 1 []).0 ≡ panic
unfolding listen listener_new channel_new perform listen_rounds listen_round next next_from try_init
    send recv reset_sequence
peerless_panics = refl

listen_rounds-Reaches_example :
    (self' : Listener) × (listen_rounds dead 3 (listener_on config fresh) ≡ some self')
    × Reaches config 3 State.init self'.state
    × (self'.config ≡ config)
listen_rounds-Reaches_example =
    listen_rounds-Reaches dead (λ _. (scanner_address, refl)) (λ _. new_year-HasText) 3
      (listener_on config fresh)

listen-IsListening_example :
    Ends {E = Failure}
      (λ self effects. IsListening config 3 self effects × IsKnown (some scanner_address) 3)
      (IsUnconnected scanner_address [])
      ((some scanner_address ≡ none) × (1 ≤ 3))
      (listen willing dead config 3 [])
listen-IsListening_example =
    listen-IsListening dead (λ _. new_year-HasText) (some scanner_address) (λ _. refl) willing
      config 3

-- A packet of a poll response, by its status, session and interrupt.
abbrev pub reply : ℕ → List ℕ → List ℕ
reply status_high payload =
    b'B' ∷ b'J' ∷ b'N' ∷ b'P' ∷ 0x82 ∷ 0x32 ∷ 0 ∷ 0 ∷ 0 ∷ 1 ∷ 0 ∷ 0 ∷ 0 ∷ 0 ∷ 0 ∷ 36 ∷ 0 ∷ 0
    ∷ status_high ∷ payload

abbrev pub answering : List ℕ → Machine digits_time
answering datagram = record {
  network = record {
    peer_addr = λ _. some scanner_address;
    send = λ _ _ _. done tt;
    recv = λ _ _. done datagram;
  };
  now = λ _. new_year;
  spawn = λ _. true;
}

-- Session 9, and no interrupt.
abbrev pub idle_reply : List ℕ
idle_reply = reply 0 (0 ∷ 0 ∷ 0 ∷ 0 ∷ 9 ∷ replicate 28 0)

abbrev idle : Machine digits_time
idle = answering idle_reply

abbrev pub polling : Listener
polling = record {
  channel = record { sequence = 2; log = [] };
  state = State.poll;
  session_id = 4;
  config = config;
}

abbrev idle_response : Response
idle_response = record { status = 0; session_id = some 9; action_id = none; interrupt = none }

abbrev sent_poll : Machine digits_time → Channel
sent_poll m = (send m.network 60 PayloadType.poll (full_command m polling) polling.channel).1

abbrev heard : Machine digits_time → Channel → Channel
heard m c = (recv {T = Response} m.network 60 c).1

send_done :
    (m : Machine digits_time) (c : Command digits_time) (channel : Channel)
    → HasPeer m.network channel.log
    → m.network.send ≡ (λ _ _ _. done tt)
    → IsDated c
    → send m.network 60 PayloadType.poll c channel
      ≡ (ok tt, (send m.network 60 PayloadType.poll c channel).1)
send_done m c channel peer answers h =
    let (buffer, written) = command_written c PayloadType.poll channel h in
    rw (send-delivered m.network 60 PayloadType.poll c channel buffer peer written, answers)

idle-heard : (c : Channel) → recv idle.network 60 c ≡ (ok idle_response, heard idle c)
unfolding recv parse deserialize_sized header_try_from try_from_u8 from_be_bytes response_try_from
    packet_try_from
idle-heard c = refl

poll_once_idle_example : poll_once idle polling ≡ (
  ok State.poll,
  record polling { channel = rested (heard idle (sent_poll idle)); session_id = 9 },
)
poll_once_idle_example =
    poll_once_idle idle polling (sent_poll idle) (heard idle (sent_poll idle)) idle_response
      (send_done idle (full_command idle polling) polling.channel (scanner_address, refl) refl
        new_year-HasText)
      (idle-heard (sent_poll idle)) (λ e. omega arith)
