-- ===== src/Channel/Receives.antt =====
-- src/channel.rs: which datagrams `recv` accepts.
use scanner_button.Prelude.{
  ℕ, ◌<◌, ◌≡◌, ◌≢◌, ◌⊎◌, refl, List, ◌∷◌, arith, take, inl, inr, ◌==◌, ltb, ◌||◌, true, false,
  Bool-cases, Option, Option-cases, none,
}
use scanner_button.Rust.Outcome.{ok, err, panic, Outcome-cases}
use scanner_button.Rust.Triples.{Ends, ends_ok, ends_err, ends_panic, weaken-panics}
use scanner_button.Serdes.Traits.{Deserialize}
use scanner_button.Packet.{PacketHeaderOnly, parse, packet_try_from}
use scanner_button.Packet.Bounds.{parse-ne-panic}
use scanner_button.Channel.Wire.{
  Event, received, Network, HasPeer, done, remote_error, Channel, SocketAddr, Reply-cases, recv,
}

-- The channel after a datagram.
abbrev pub after : Channel → List ℕ → Channel
after channel datagram = record channel { log = received (take 65536 datagram) ∷ channel.log }

-- The datagram is a whole packet, without an error code or with a payload all the same, and `x`
-- stands in its payload.
pub record IsReceived {T : Type 0} ⦃d : Deserialize T⦄ (net : Network) (limit : ℕ)
    (channel : Channel) (x : T) (channel' : Channel) : Type 0 where
  pub has_peer : HasPeer net channel.log
  pub datagram : List ℕ
  pub packet : PacketHeaderOnly
  pub size : ℕ
  pub answered : net.recv limit channel.log ≡ done datagram
  pub parsed : parse (take 65536 datagram) ≡ ok packet
  pub no_error : (packet.header.error ≡ 0) ⊎ (0 < packet.header.payload_size)
  pub payload_read : d.deserialize packet.payload ≡ ok (x, size)
  pub same_channel : channel' ≡ after channel datagram

-- After an error the channel is as it was, or has one datagram more in its log.
pub data IsUnread (net : Network) (limit : ℕ) (channel channel' : Channel) : Type 0 where
  nothing : HasPeer net channel.log → channel' ≡ channel → IsUnread net limit channel channel'
  refused :
      HasPeer net channel.log
      → (datagram : List ℕ) → net.recv limit channel.log ≡ done datagram
      → channel' ≡ after channel datagram
      → IsUnread net limit channel channel'

error_test : (error size : ℕ) → ((error == 0 || ltb 0 size) ≡ true) → (error ≡ 0) ⊎ (0 < size)
error_test error size h = ground arith

module _ {T : Type 0} ⦃d : Deserialize T⦄ where
  try_from_ok :
      (p : PacketHeaderOnly) {x : T} {n : ℕ}
      → d.deserialize p.payload ≡ ok (x, n)
      → packet_try_from p ≡ ok (record { header = p.header; payload = x })
  unfolding packet_try_from
  try_from_ok p e = rw e

  try_from_err :
      (p : PacketHeaderOnly) {e : _}
      → d.deserialize p.payload ≡ err e
      → packet_try_from {T = T} p ≡ err e
  unfolding packet_try_from
  try_from_err p e = rw e

  recv-unknown_peer :
      (net : Network) (limit : ℕ) (channel : Channel)
      → net.peer_addr channel.log ≡ none
      → recv {T = T} net limit channel ≡ (panic, channel)
  unfolding recv
  recv-unknown_peer net limit channel p = rw p

  -- `recv` panics only where the peer is not known or the payload's reader panics.
  pub recv-Ends :
      (net : Network) (limit : ℕ) (channel : Channel)
      → Ends {A = T}
          (λ x channel'. IsReceived net limit channel x channel')
          (IsUnread net limit channel)
          ((net.peer_addr channel.log ≡ none)
            ⊎ ((buffer : List ℕ) × (d.deserialize buffer ≡ panic)))
          (recv net limit channel)
  unfolding recv packet_try_from
  recv-Ends net limit channel = elim (Option-cases (net.peer_addr channel.log)) [
    | inl unknown ↦ rw (recv-unknown_peer net limit channel unknown) (ends_panic _ (inl unknown))
    | inr (address, known) ↦
        let peer : HasPeer net channel.log = (address, known) in
        elim (Reply-cases (net.recv limit channel.log)) [
          | inr (inl a) ↦ rw (known, a) (ends_err _ _ (nothing peer refl))
          | inr (inr a) ↦ rw (known, a) (ends_err _ _ (nothing peer refl))
          | inl (datagram, a) ↦ elim (Outcome-cases (parse (take 65536 datagram))) [
            | inr (inr p) ↦ absurd (parse-ne-panic _ p)
            | inr (inl (e, p)) ↦ rw (known, a, p) (ends_err _ _ (refused peer datagram a refl))
            | inl (packet, p) ↦
                elim (Bool-cases (packet.header.error == 0 || ltb 0 packet.header.payload_size)) [
                  | inr bad ↦ rw (known, a, p, bad) (ends_err _ _ (refused peer datagram a refl))
                  | inl good ↦ elim (Outcome-cases (d.deserialize packet.payload)) [
                    | inr (inr q) ↦
                        rw (known, a, p, good, q) (ends_panic _ (inr (packet.payload, q)))
                    | inr (inl (e, q)) ↦
                        rw (known, a, p, good, try_from_err packet q)
                          (ends_err _ _ (refused peer datagram a refl))
                    | inl ((x, n), q) ↦
                        rw (known, a, p, good, try_from_ok packet q)
                          (ends_ok x _ (record {
                            has_peer = peer;
                            datagram = datagram;
                            packet = packet;
                            size = n;
                            answered = a;
                            parsed = p;
                            no_error = error_test _ _ good;
                            payload_read = q;
                            same_channel = refl;
                          }))
                  ]
                ]
          ]
        ]
  ]

  only_unknown :
      ((buffer : List ℕ) → d.deserialize buffer ≢ panic)
      → (peer : Option SocketAddr)
      → (peer ≡ none) ⊎ ((buffer : List ℕ) × (d.deserialize buffer ≡ panic))
      → peer ≡ none
  only_unknown sound peer (inl p) = p
  only_unknown sound peer (inr (buffer, e)) = absurd (sound buffer e)

  -- If the payload's reader does not panic: where the socket knows its peer, `recv` returns what
  -- stands in a packet that it received just now, or it fails and leaves at most one more datagram in
  -- the log; where the socket does not know its peer, `recv` panics, and nowhere else.
  pub recv-IsReceived :
      ((buffer : List ℕ) → d.deserialize buffer ≢ panic)
      → (net : Network) (limit : ℕ) (channel : Channel)
      → Ends {A = T}
          (λ x channel'. IsReceived net limit channel x channel')
          (IsUnread net limit channel)
          (net.peer_addr channel.log ≡ none)
          (recv net limit channel)
  recv-IsReceived sound net limit channel =
      weaken-panics _ (only_unknown sound (net.peer_addr channel.log)) (recv-Ends net limit channel)

  -- A packet with an error code and no payload is refused with that code, whatever the type that is
  -- awaited, and only the log of the channel changes.
  pub recv-remote_error :
      (net : Network) (limit : ℕ) (channel : Channel) (datagram : List ℕ)
      (packet : PacketHeaderOnly)
      → HasPeer net channel.log
      → net.recv limit channel.log ≡ done datagram
      → parse (take 65536 datagram) ≡ ok packet
      → packet.header.error ≢ 0
      → packet.header.payload_size ≡ 0
      → recv {T = T} net limit channel
        ≡ (err (remote_error packet.header.error), after channel datagram)
  unfolding recv
  recv-remote_error net limit channel datagram packet (_, known) a p bad none_left =
      let refused_test : (packet.header.error == 0 || ltb 0 packet.header.payload_size) ≡ false =
        ground arith in
      rw (known, a, p, refused_test)

-- The socket has a datagram that is a packet without an error code, in which `x` stands.
pub record Replies {T : Type 0} ⦃d : Deserialize T⦄ (net : Network) (limit : ℕ) (log : List Event)
    (x : T) : Type 0 where
  pub has_peer : HasPeer net log
  pub datagram : List ℕ
  pub packet : PacketHeaderOnly
  pub size : ℕ
  pub answered : net.recv limit log ≡ done datagram
  pub parsed : parse (take 65536 datagram) ≡ ok packet
  pub no_error : packet.header.error ≡ 0
  pub payload_read : d.deserialize packet.payload ≡ ok (x, size)

module _ {T : Type 0} ⦃d : Deserialize T⦄ where
  pub recv-done :
      (net : Network) (limit : ℕ) (channel : Channel) (x : T) (r : Replies net limit channel.log x)
      → recv net limit channel ≡ (ok x, after channel r.datagram)
  unfolding recv
  recv-done net limit channel x r =
      let good : (r.packet.header.error == 0 || ltb 0 r.packet.header.payload_size) ≡ true =
        ground (arith, r.no_error) in
      rw (r.has_peer.1, r.answered, r.parsed, good, try_from_ok r.packet r.payload_read)
