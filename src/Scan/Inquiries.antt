-- ===== src/Scan/Inquiries.antt =====
-- src/scan.rs: what `inquire_device` asks a scanner, and what it writes.
use scanner_button.Prelude.{ℕ, ◌≡◌, refl, ap, ◌∙◌, List, [], ◌∷◌, arith, take}
use scanner_button.Rust.Outcome.{Outcome, ok, err, panic}
use scanner_button.Rust.Run.{Run, continue}
use scanner_button.Rust.Triples.{continue-eq-ok, Post-eq-ok, Ends-eq-ok}
use scanner_button.Serdes.Traits.{
  empty, Empty-IsCodec, Empty-encode, empty_serialize, empty_deserialize,
}
use scanner_button.Header.{PayloadType}
use scanner_button.Packet.{PacketHeaderOnly, parse}
use scanner_button.Discover.{Response}
use scanner_button.Identity
use scanner_button.Identity.{identity_from_bytes, identity_deserialize}
use mathlib.Core.Path.{subst}
use scanner_button.Channel.{
  Channel, Event, sent, received, Network, Failure, SocketAddr, Effect, Kernel, channel_new, send,
  recv,
}
use scanner_button.Channel.Sends.{command_header, IsSent, send-IsSent}
use scanner_button.Channel.Receives.{IsReceived, recv-Ends}
use scanner_button.Channel.Connects.{fresh, connected_to, channel_new-Post}
use scanner_button.Scan.Broadcast.{bjnp_port}
use scanner_button.Scan.Sort.{sort_entries}
use scanner_button.Scan.Lines.{entry_lines, report-eq-ok}
use scanner_button.Scan.Inquire.{
  Terminal, Inquiry, device_line, ask, inquire_device, put_effects, put_packets,
}

-- One question was sent and one packet came back, which holds the identity whose sorted entries
-- stand behind the line of the scanner.
pub record IsInquired (terminal : Terminal) (device : Response) (before after : Inquiry)
    : Type 0 where
  pub question : List ℕ
  pub answer : List ℕ
  pub packet : PacketHeaderOnly
  pub id : Identity.Response
  pub size : ℕ
  pub socket :
      after.effects ≡ connected_to (record { ip = device.ip_addr; port = bjnp_port }) before.effects
  pub packets : after.packets ≡ received answer ∷ sent question ∷ []
  pub asked :
      parse question ≡ ok (record { header = command_header PayloadType.get_id 0 0; payload = [] })
  pub parsed : parse answer ≡ ok packet
  pub identity : identity_from_bytes packet.payload ≡ ok (id, size)
  pub lines :
      after.lines
      ≡ entry_lines terminal (sort_entries id.entries) (device_line terminal device ∷ before.lines)

-- What the two calls of a successful `ask` leave behind.
record IsAsked (net : Network) (limit : ℕ) (id : Identity.Response) (channel : Channel)
    : Type 0 where
  middle : Channel
  asked : IsSent PayloadType.get_id [] fresh middle
  answered : IsReceived net limit middle id channel

ask-eq-ok :
    (net : Network) (limit : ℕ) (id : Identity.Response) (channel : Channel)
    → ask net limit fresh ≡ (ok id, channel)
    → IsAsked net limit id channel
unfolding ask
ask-eq-ok net limit id channel e =
    let (_, c1, e1, r1) =
      continue-eq-ok (send net limit PayloadType.get_id empty fresh) (λ _. recv net limit) id
        channel e in
    record {
      middle = c1;
      asked =
          subst (λ (bs : List ℕ). IsSent PayloadType.get_id bs fresh c1) Empty-encode
            (Ends-eq-ok _ tt c1
              (send-IsSent Empty-IsCodec net limit PayloadType.get_id empty fresh tt (omega arith)
                (omega arith))
              e1).1;
      answered = Ends-eq-ok _ id channel (recv-Ends net limit c1) r1;
    }

kernel-eq-ok :
    {A B : Type 0} (inquiry after : Inquiry) (r : Outcome A Failure × List Effect)
    (next : A → Run Inquiry Failure B) (b : B)
    → continue (put_effects inquiry r) next ≡ (ok b, after)
    → (a : A) × (effects : List Effect) × (r ≡ (ok a, effects))
      × (next a (record inquiry { effects = effects }) ≡ (ok b, after))
kernel-eq-ok inquiry after (ok a, effects) next b e = (a, effects, refl, e)
kernel-eq-ok inquiry after (err x, effects) next b e = cc (ap (λ p. p.0) e)
kernel-eq-ok inquiry after (panic, effects) next b e = cc (ap (λ p. p.0) e)

packets-eq-ok :
    {A B : Type 0} (inquiry after : Inquiry) (r : Outcome A Failure × Channel)
    (next : A → Run Inquiry Failure B) (b : B)
    → continue (put_packets inquiry r) next ≡ (ok b, after)
    → (a : A) × (channel : Channel) × (r ≡ (ok a, channel))
      × (next a (record inquiry { packets = channel.log }) ≡ (ok b, after))
packets-eq-ok inquiry after (ok a, channel) next b e = (a, channel, refl, e)
packets-eq-ok inquiry after (err x, channel) next b e = cc (ap (λ p. p.0) e)
packets-eq-ok inquiry after (panic, channel) next b e = cc (ap (λ p. p.0) e)

-- An inquiry that ends well: over a socket that is connected to port 8612 of the scanner's address
-- it sent one question for the identity, numbered 0, and received one packet, which holds an
-- identity; it wrote the line of the scanner and then the lines of the entries in their sorted
-- order.
pub inquire_device-IsInquired :
    (kernel : Kernel) (net : Network) (terminal : Terminal) (limit : ℕ) (device : Response)
    (before after : Inquiry)
    → inquire_device kernel net terminal limit device before ≡ (ok tt, after)
    → IsInquired terminal device before after
unfolding inquire_device
inquire_device-IsInquired kernel net terminal limit device before after e =
    let addr : SocketAddr = record { ip = device.ip_addr; port = bjnp_port } in
    let (channel, effects, e1, r1) =
      kernel-eq-ok before after (channel_new kernel addr before.effects) _ tt e in
    let (new, made) =
      Post-eq-ok _ channel effects (channel_new-Post kernel addr before.effects) e1 in
    let (id, channel', e2, r2) =
      packets-eq-ok (record before { effects = effects }) after (ask net limit channel) _ tt r1 in
    let written = report-eq-ok terminal device id.entries _ after r2 in
    let talk =
      ask-eq-ok net limit id channel'
        (subst (λ (c : Channel). ask net limit c ≡ (ok id, channel')) new e2) in
    record {
      question = talk.asked.buffer;
      answer = take 65536 talk.answered.datagram;
      packet = talk.answered.packet;
      id = id;
      size = talk.answered.size;
      socket = ap (λ (i : Inquiry). i.effects) written ∙ made;
      packets =
          ap (λ (i : Inquiry). i.packets) written
          ∙ ap (λ (c : Channel). c.log) talk.answered.same_channel
          ∙ ap (λ (es : List Event). received (take 65536 talk.answered.datagram) ∷ es)
              talk.asked.logged;
      asked = talk.asked.parsed;
      parsed = talk.answered.parsed;
      identity = talk.answered.payload_read;
      lines = ap (λ (i : Inquiry). i.lines) written;
    }
