-- ===== src/Channel/Sends.antt =====
-- src/channel.rs: what `send` puts on the network, and the sequence number.
use scanner_button.Prelude.{
  ℕ, ◌+◌, ◌%◌, ◌^◌, ◌<◌, ◌≡◌, refl, List, [], ◌∷◌, ◌++◌, arith, some, none, length, append-nil, ap,
  ◌∙◌, inl, inr, Option-cases,
}
use scanner_button.Rust.Outcome.{Outcome, ok, err, panic}
use scanner_button.Rust.Triples.{Ends, ends_ok, ends_err, ends_panic}
use scanner_button.Serdes.Traits.{Serialize, Deserialize, IsCodec, serialize_to_vec}
use scanner_button.Header.{Header, PacketType, PayloadType}
use scanner_button.Header.RoundTrip.{header_bytes}
use scanner_button.Packet.{PacketBuilder, parse, new, build, with_sequence, packet_serialize}
use scanner_button.Packet.RoundTrip.{IsPacketBuilder, parse-build, serialize_to_vec-build}
use scanner_button.Channel.Wire.{
  sent, Network, HasPeer, Reply, done, failed, late, Failure, Channel, Reply-cases, send,
  command_packet,
}

-- The header of a command with the channel's sequence number.
abbrev pub command_header : PayloadType → ℕ → ℕ → Header
command_header payload_type sequence size = record {
  packet_type = PacketType.scanner_command;
  payload_type = payload_type;
  error = 0;
  sequence = sequence;
  job_id = none;
  payload_size = size;
}

-- One packet is sent, which the parser of packets reads back, and the sequence number is the next.
pub record IsSent (payload_type : PayloadType) (payload : List ℕ) (channel channel' : Channel)
    : Type 0 where
  pub buffer : List ℕ
  pub logged : channel'.log ≡ sent buffer ∷ channel.log
  pub parsed :
      parse buffer
      ≡ ok (record {
        header = command_header payload_type channel.sequence (length payload);
        payload = payload;
      })
  pub numbered : channel'.sequence ≡ (channel.sequence + 1) % 65536

-- How `send` ends, by the reply of the socket.
abbrev pub delivered : List ℕ → Channel → Reply (Unit {0}) → Outcome (Unit {0}) Failure × Channel
delivered buffer channel (done _) =
    (ok tt, record { sequence = (channel.sequence + 1) % 2 ^ 16; log = sent buffer ∷ channel.log })
delivered buffer channel failed = (err Failure.io_error, channel)
delivered buffer channel late = (err Failure.elapsed, channel)

pub send-delivered :
    {T : Type 0} ⦃s : Serialize T⦄ (net : Network) (limit : ℕ) (payload_type : PayloadType) (x : T)
    (channel : Channel) (buffer : List ℕ)
    → HasPeer net channel.log
    → serialize_to_vec {E = Failure} (command_packet channel payload_type x) ≡ ok buffer
    → send net limit payload_type x channel
      ≡ delivered buffer channel (net.send limit channel.log buffer)
unfolding send
send-delivered net limit payload_type x channel buffer (_, p) e =
    elim (Reply-cases (net.send limit channel.log buffer)) [
      | inl (_, a) ↦ rw (p, e, a)
      | inr (inl a) ↦ rw (p, e, a)
      | inr (inr a) ↦ rw (p, e, a)
    ]

pub send-unknown_peer :
    {T : Type 0} ⦃s : Serialize T⦄ (net : Network) (limit : ℕ) (payload_type : PayloadType) (x : T)
    (channel : Channel)
    → net.peer_addr channel.log ≡ none
    → send net limit payload_type x channel ≡ (panic, channel)
unfolding send
send-unknown_peer net limit payload_type x channel p = rw p

abbrev builder : Channel → PayloadType → PacketBuilder
builder channel payload_type = record {
  packet_type = PacketType.scanner_command;
  payload_type = payload_type;
  error = none;
  sequence = some channel.sequence;
  job_id = none;
}

valid :
    (channel : Channel) (payload_type : PayloadType)
    → channel.sequence < 65536
    → IsPacketBuilder (builder channel payload_type)
valid channel payload_type n = record {
  error_byte = omega arith;
  sequence_u16 = n;
  job_id_u16 = tt;
}

delivered-IsSent :
    (net : Network) (channel : Channel) (payload_type : PayloadType) (payload buffer : List ℕ)
    → HasPeer net channel.log
    → parse buffer
      ≡ ok (record {
        header = command_header payload_type channel.sequence (length payload);
        payload = payload;
      })
    → (reply : Reply (Unit {0}))
    → Ends
        (λ _ channel'. HasPeer net channel.log × IsSent payload_type payload channel channel')
        (λ channel'. HasPeer net channel.log × (channel' ≡ channel))
        (net.peer_addr channel.log ≡ none)
        (delivered buffer channel reply)
delivered-IsSent net channel payload_type payload buffer p e (done _) =
    ends_ok tt _ (p, record { buffer = buffer; logged = refl; parsed = e; numbered = refl })
delivered-IsSent net channel payload_type payload buffer p e failed = ends_err _ _ (p, refl)
delivered-IsSent net channel payload_type payload buffer p e late = ends_err _ _ (p, refl)

module _ {T : Type 0} ⦃s : Serialize T⦄ ⦃d : Deserialize T⦄ {Valid : T → Type 0} where
  packet-parse :
      (c : IsCodec Valid) (channel : Channel) (payload_type : PayloadType) (x : T)
      → Valid x
      → s.size x < 4294967296
      → channel.sequence < 65536
      → parse (header_bytes (build (builder channel payload_type) x).header ++ c.encode x)
        ≡ ok (record {
          header = command_header payload_type channel.sequence (length (c.encode x));
          payload = c.encode x;
        })
  unfolding build
  packet-parse c channel payload_type x h small n =
      let size : s.size x % 4294967296 ≡ length (c.encode x) = omega (arith, c.length-encode x h) in
      rw append-nil at
        (parse-build c (builder channel payload_type) x [] (valid channel payload_type n) h small)
      ∙ ap
          (λ (k : ℕ). ok (record {
            header = command_header payload_type channel.sequence k;
            payload = c.encode x;
          }))
          size

  written :
      (c : IsCodec Valid) (channel : Channel) (payload_type : PayloadType) (x : T)
      → Valid x
      → serialize_to_vec {E = Failure} (command_packet channel payload_type x)
        ≡ ok (header_bytes (build (builder channel payload_type) x).header ++ c.encode x)
  unfolding command_packet new with_sequence
  written c channel payload_type x h = serialize_to_vec-build c (builder channel payload_type) x h

  -- A payload with a lawful codec: if the socket knows its peer, then either one packet is sent,
  -- which the parser of packets reads back with the channel's sequence number, and the number is the
  -- next one, 0 behind 65535; or there is an error, and the channel is as before. If the socket does
  -- not know its peer, `send` panics; and there is no other panic.
  pub send-IsSent :
      (c : IsCodec Valid) (net : Network) (limit : ℕ) (payload_type : PayloadType) (x : T)
      (channel : Channel)
      → Valid x
      → s.size x < 4294967296
      → channel.sequence < 65536
      → Ends
          (λ _ channel'.
            HasPeer net channel.log × IsSent payload_type (c.encode x) channel channel')
          (λ channel'. HasPeer net channel.log × (channel' ≡ channel))
          (net.peer_addr channel.log ≡ none)
          (send net limit payload_type x channel)
  send-IsSent c net limit payload_type x channel h small n =
      elim (Option-cases (net.peer_addr channel.log)) [
        | inl p ↦ rw (send-unknown_peer net limit payload_type x channel p) (ends_panic _ p)
        | inr p ↦
            rw
              (send-delivered net limit payload_type x channel _ p
                (written c channel payload_type x h))
              (delivered-IsSent net channel payload_type (c.encode x) _ p
                (packet-parse c channel payload_type x h small n) (net.send limit channel.log _))
      ]

  -- On a network that takes the packet, it is sent.
  pub send-done :
      (c : IsCodec Valid) (net : Network) (limit : ℕ) (payload_type : PayloadType) (x : T)
      (channel : Channel)
      → Valid x
      → s.size x < 4294967296
      → channel.sequence < 65536
      → HasPeer net channel.log
      → ((buffer : List ℕ) → net.send limit channel.log buffer ≡ done tt)
      → (channel' : Channel) × (send net limit payload_type x channel ≡ (ok tt, channel'))
        × IsSent payload_type (c.encode x) channel channel'
  send-done c net limit payload_type x channel h small n p takes =
      let buffer : List ℕ =
        header_bytes (build (builder channel payload_type) x).header ++ c.encode x in
      (
        _,
        send-delivered net limit payload_type x channel buffer p
              (written c channel payload_type x h)
            ∙ ap (delivered buffer channel) (takes buffer),
        record {
          buffer = buffer;
          logged = refl;
          parsed = packet-parse c channel payload_type x h small n;
          numbered = refl;
        },
      )
