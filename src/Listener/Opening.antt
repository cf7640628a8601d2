-- ===== src/Listener/Opening.antt =====
-- src/poll.rs: what `try_init` puts on the network, and the session that it opens.
use scanner_button.Prelude.{
  ℕ, ◌+◌, ◌%◌, ◌<◌, ◌≡◌, sym, ap, ◌∙◌, some, List, [], ◌∷◌, arith, length, take,
}
use mathlib.Core.Path.{subst}
use scanner_button.Rust.Outcome.{ok}
use scanner_button.Rust.Triples.{Ends-eq-ok}
use scanner_button.Serdes.Traits.{
  empty, empty_serialize, empty_deserialize, Empty-IsCodec, Empty-encode,
}
use scanner_button.Header.{PayloadType}
use scanner_button.Packet.{PacketHeaderOnly, parse}
use scanner_button.Poll.Host.{Host}
use scanner_button.Poll.Host.Buffer.{IsHost}
use scanner_button.Poll.Command.{
  TimeCrate, Command, command_serialize, command_deserialize, inner_size,
}
use scanner_button.Poll.Command.RoundTrip.{Command-IsCodec, Command-encode, command_bytes}
use scanner_button.Poll.Response.{Response, response_deserialize}
use scanner_button.Poll.Response.Safety.{response_deserialize-ne-panic}
use scanner_button.Discover
use scanner_button.Discover.Errors.{response_from_bytes-ne-panic}
use scanner_button.Channel.{Event, sent, received, Channel}
use scanner_button.Channel.Sends.{IsSent, send-IsSent, command_header}
use scanner_button.Channel.Receives.{IsReceived, recv-IsReceived}
use scanner_button.Listener.Handlers.{Machine, Listener, try_init}
use scanner_button.Listener.Dialogue.{Calls, host_command, try_init-Calls}

-- The conversation that opens a session: a discover command numbered 0 and a host-only poll numbered
-- 1, each followed by a datagram; the second answer has the session.
pub record IsOpened {t : TimeCrate} (m : Machine t) (limit : ℕ) (self self' : Listener)
    : Type 0 where
  pub discover : List ℕ
  pub discover_answer : List ℕ
  pub host_poll : List ℕ
  pub poll_answer : List ℕ
  pub response : Response
  pub conversation :
      self'.channel.log
      ≡ received (take 65536 poll_answer)
        ∷ sent host_poll
        ∷ received (take 65536 discover_answer)
        ∷ sent discover
        ∷ self.channel.log
  pub discover_parsed :
      parse discover
      ≡ ok (record { header = command_header PayloadType.discover 0 0; payload = [] })
  pub poll_parsed :
      parse host_poll
      ≡ ok (record {
        header = command_header PayloadType.poll 1 (
            length
              (command_bytes {t = t} (Command.host_only (record { host = self.config.hostname }))));
        payload =
            command_bytes {t = t} (Command.host_only (record { host = self.config.hostname }));
      })
  pub answer_read :
      (packet : PacketHeaderOnly) × (size : ℕ) × (parse (take 65536 poll_answer) ≡ ok packet)
      × (response_deserialize.deserialize packet.payload ≡ ok (response, size))
  pub session_opened : response.session_id ≡ some self'.session_id
  pub numbered : self'.channel.sequence ≡ 2

module _ {t : TimeCrate} (m : Machine t) where
  -- The first two calls: the discover command and its answer.
  discover-IsSent :
      (limit : ℕ) (self self' : Listener) (k : Calls m limit self self')
      → IsSent PayloadType.discover [] (record self.channel { sequence = 0 }) k.c1
  discover-IsSent limit self self' k =
      subst
        (λ (bs : List ℕ).
          IsSent PayloadType.discover bs (record self.channel { sequence = 0 }) k.c1)
        Empty-encode
        (Ends-eq-ok _ tt k.c1
          (send-IsSent Empty-IsCodec m.network limit PayloadType.discover empty
            (record self.channel { sequence = 0 }) tt (omega arith) (omega arith))
          k.discover_sent).1

  device_read :
      (limit : ℕ) (self self' : Listener) (k : Calls m limit self self')
      → IsReceived ⦃d = Discover.response_deserialize⦄ m.network limit k.c1 k.device k.c2
  device_read limit self self' k =
      Ends-eq-ok _ k.device k.c2
        (recv-IsReceived ⦃d = Discover.response_deserialize⦄ response_from_bytes-ne-panic m.network
          limit k.c1)
        k.device_read

  host_command_small : (host : Host) → command_serialize.size (host_command m host) < 4294967296
  unfolding inner_size
  host_command_small host = omega arith

  -- The other two: the poll, which is numbered 1, and its answer.
  poll-IsSent :
      (limit : ℕ) (self self' : Listener) (k : Calls m limit self self')
      → IsHost self.config.hostname
      → k.c2.sequence ≡ 1
      → IsSent PayloadType.poll (command_bytes (host_command m self.config.hostname)) k.c2 k.c3
  poll-IsSent limit self self' k host one =
      let c : Command t = host_command m self.config.hostname in
      subst (λ (bs : List ℕ). IsSent PayloadType.poll bs k.c2 k.c3) (Command-encode c)
        (Ends-eq-ok _ tt k.c3
          (send-IsSent Command-IsCodec m.network limit PayloadType.poll c k.c2 host
            (host_command_small self.config.hostname) (omega arith))
          k.poll_sent).1

  resp_read :
      (limit : ℕ) (self self' : Listener) (k : Calls m limit self self')
      → IsReceived ⦃d = response_deserialize⦄ m.network limit k.c3 k.resp k.c4
  resp_read limit self self' k =
      Ends-eq-ok _ k.resp k.c4
        (recv-IsReceived ⦃d = response_deserialize⦄ response_deserialize-ne-panic m.network limit
          k.c3)
        k.resp_read

  numbered_one :
      (limit : ℕ) (self self' : Listener) (k : Calls m limit self self')
      → IsSent PayloadType.discover [] (record self.channel { sequence = 0 }) k.c1
      → IsReceived ⦃d = Discover.response_deserialize⦄ m.network limit k.c1 k.device k.c2
      → k.c2.sequence ≡ 1
  numbered_one limit self self' k s1 r1 =
      ap (λ (c : Channel). c.sequence) r1.same_channel ∙ s1.numbered

  assemble :
      (limit : ℕ) (self self' : Listener) (k : Calls m limit self self')
      → IsSent PayloadType.discover [] (record self.channel { sequence = 0 }) k.c1
      → IsReceived ⦃d = Discover.response_deserialize⦄ m.network limit k.c1 k.device k.c2
      → k.c2.sequence ≡ 1
      → IsSent PayloadType.poll (command_bytes (host_command m self.config.hostname)) k.c2 k.c3
      → IsReceived ⦃d = response_deserialize⦄ m.network limit k.c3 k.resp k.c4
      → IsOpened m limit self self'
  assemble limit self self' k s1 r1 one s2 r2 = record {
    discover = s1.buffer;
    discover_answer = r1.datagram;
    host_poll = s2.buffer;
    poll_answer = r2.datagram;
    response = k.resp;
    conversation =
        ap (λ (x : Listener). x.channel.log) k.left
        ∙ ap (λ (c : Channel). c.log) r2.same_channel
        ∙ ap (λ (log : List Event). received (take 65536 r2.datagram) ∷ log)
            (s2.logged
              ∙ ap (λ (log : List Event). sent s2.buffer ∷ log)
                  (ap (λ (c : Channel). c.log) r1.same_channel
                    ∙ ap (λ (log : List Event). received (take 65536 r1.datagram) ∷ log)
                        s1.logged));
    discover_parsed = s1.parsed;
    poll_parsed = rw one at s2.parsed;
    answer_read = (r2.packet, r2.size, r2.parsed, r2.payload_read);
    session_opened = k.has_session ∙ ap (λ (x : Listener). some x.session_id) (sym k.left);
    numbered =
        ap (λ (x : Listener). x.channel.sequence) k.left
        ∙ ap (λ (x : Channel). x.sequence) r2.same_channel
        ∙ s2.numbered
        ∙ ap (λ (n : ℕ). (n + 1) % 65536) one;
  }

  -- If `try_init` succeeds, and the configured host name has its 64 bytes, then it held this
  -- conversation, and the session is that of the second answer.
  pub try_init-IsOpened :
      (limit : ℕ) (self self' : Listener)
      → IsHost self.config.hostname
      → try_init m limit self ≡ (ok tt, self')
      → IsOpened m limit self self'
  try_init-IsOpened limit self self' host e =
      let k : Calls m limit self self' = try_init-Calls m limit self self' e in
      let s1 = discover-IsSent limit self self' k in
      let r1 = device_read limit self self' k in
      let one = numbered_one limit self self' k s1 r1 in
      assemble limit self self' k s1 r1 one (poll-IsSent limit self self' k host one)
        (resp_read limit self self' k)
