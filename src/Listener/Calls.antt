-- ===== src/Listener/Calls.antt =====
-- src/poll.rs: on a socket that knows its peer, the listener's sends and receives do not panic, as
-- its commands are complete and its dates have a text.
use scanner_button.Prelude.{ℕ, ◌≡◌, ◌≢◌, refl, some, none, List, ap, ◌++◌}
use scanner_button.Rust.Outcome.{Outcome, ok, panic, unwrap}
use scanner_button.Rust.Triples.{Post, returns, fails, Ends-Post}
use scanner_button.Serdes.Traits.{
  IoError, Serialize, Deserialize, empty, empty_serialize, serialize_to_vec,
}
use scanner_button.Header.{PayloadType}
use scanner_button.Packet.{build, packet_serialize}
use scanner_button.Poll.Command.{
  TimeCrate, HasText, Command, inner_serialize, command_serialize, raw_full, CommandBuilder,
}
use scanner_button.Poll.Command as Cmd
use scanner_button.Poll.Command.RoundTrip.{to_raw_full-HasText, raw_full_of}
use scanner_button.Poll.Response.{response_deserialize}
use scanner_button.Discover
use scanner_button.Poll.Response.Safety.{response_deserialize-ne-panic}
use scanner_button.Discover.Errors.{response_from_bytes-ne-panic}
use scanner_button.Channel.{
  Event, Network, HasPeer, Reply, done, failed, late, Failure, Channel, send, recv, command_packet,
}
use scanner_button.Channel.Sends.{delivered, send-delivered}
use scanner_button.Channel.Receives.{IsReceived, IsUnread, recv-IsReceived}
use scanner_button.Listener.Handlers.{Machine, on_channel, send_poll, recv_poll, recv_discover}
use scanner_button.Listener.Frame.{Yields, Any, Yields-on_channel}

abbrev Some : Channel → Unit {0} → Channel → Type 0
Some c a c' = Unit

abbrev Left : Channel → Channel → Type 0
Left c c' = Unit

delivered-Post :
    (buffer : List ℕ) (c : Channel) (reply : Reply (Unit {0}))
    → Post (Some c) (Left c) (delivered buffer c reply)
delivered-Post buffer c (done _) = returns tt _ tt
delivered-Post buffer c failed = fails _ _ tt
delivered-Post buffer c late = fails _ _ tt

send-Post :
    {T : Type 0} ⦃s : Serialize T⦄ (net : Network) (limit : ℕ) (payload_type : PayloadType) (x : T)
    → ((log : List Event) → HasPeer net log)
    → ((c : Channel)
        → (buffer : List ℕ) × (serialize_to_vec {E = Failure} (command_packet c payload_type x)
            ≡ ok buffer))
    → (c : Channel) → Post (Some c) (Left c) (send net limit payload_type x c)
send-Post net limit payload_type x peers written c =
    let (buffer, e) = written c in
    rw (send-delivered net limit payload_type x c buffer (peers c.log) e)
      (delivered-Post buffer c (net.send limit c.log buffer))

known-ne-none : (net : Network) (log : List Event) → HasPeer net log → net.peer_addr log ≢ none
known-ne-none net log (_, known) e = cc

recv-Post :
    {T : Type 0} ⦃d : Deserialize T⦄
    → ((buffer : List ℕ) → d.deserialize buffer ≢ panic)
    → (net : Network) (limit : ℕ) → ((log : List Event) → HasPeer net log)
    → (c : Channel)
    → Post {A = T} (IsReceived net limit c) (IsUnread net limit c) (recv net limit c)
recv-Post sound net limit peers c =
    Ends-Post _ (known-ne-none net c.log (peers c.log)) (recv-IsReceived sound net limit c)

pub send_empty-Yields :
    (net : Network) (limit : ℕ) (payload_type : PayloadType)
    → ((log : List Event) → HasPeer net log)
    → Yields Any (on_channel (send net limit payload_type empty))
unfolding command_packet build serialize_to_vec
send_empty-Yields net limit payload_type peers =
    Yields-on_channel (send net limit payload_type empty)
      (send-Post net limit payload_type empty peers λ c. (_, refl))

module _ {t : TimeCrate} where
  -- A date has a text.
  abbrev pub IsDated : Command t → Type 0
  IsDated (Command.full c) = HasText t c.datetime
  IsDated _ = Unit

  inner_written :
      (c : Command t) (out : List ℕ)
      → IsDated c
      → (buffer : List ℕ) × (inner_serialize c out ≡ ok buffer)
  unfolding inner_serialize
  inner_written (Command.empty c) out h = (_, refl)
  inner_written (Command.host_only c) out h = (_, refl)
  inner_written (Command.full c) out h =
      (out ++ raw_full.bytes (raw_full_of c), rw (to_raw_full-HasText c h))
  inner_written (Command.reset c) out h = (_, refl)

  pub command_written :
      (c : Command t) (payload_type : PayloadType) (channel : Channel)
      → IsDated c
      → (buffer : List ℕ) × (serialize_to_vec {E = Failure} (command_packet channel payload_type c)
          ≡ ok buffer)
  unfolding command_packet build serialize_to_vec
  command_written c payload_type channel h =
      let (buffer, e) = inner_written c _ h in
      (buffer, ap (λ (r : Outcome (List ℕ) IoError). unwrap {F = Failure} r) e)

  module _ (m : Machine t) (peers : (log : List Event) → HasPeer m.network log) where
    pub send_poll-Yields :
        (limit : ℕ) (builder : CommandBuilder t) (c : Command t)
        → Cmd.build builder ≡ some c
        → IsDated c
        → Yields Any (send_poll m limit builder)
    unfolding send_poll
    send_poll-Yields limit builder c e h = rw e (
        Yields-on_channel (send m.network limit PayloadType.poll c) (
          send-Post m.network limit PayloadType.poll c peers
            λ channel. command_written c PayloadType.poll channel h))

    pub recv_poll-Yields : (limit : ℕ) → Yields Any (recv_poll m limit)
    unfolding recv_poll
    recv_poll-Yields limit =
        Yields-on_channel (recv m.network limit)
          (recv-Post ⦃d = response_deserialize⦄ response_deserialize-ne-panic m.network limit peers)

    pub recv_discover-Yields : (limit : ℕ) → Yields Any (recv_discover m limit)
    unfolding recv_discover
    recv_discover-Yields limit =
        Yields-on_channel (recv ⦃d = Discover.response_deserialize⦄ m.network limit) (
          recv-Post ⦃d = Discover.response_deserialize⦄ response_from_bytes-ne-panic m.network limit
            peers)
