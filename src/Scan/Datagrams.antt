-- ===== src/Scan/Datagrams.antt =====
-- src/scan.rs and src/channel.rs: a datagram is read the same way by a broadcast and by `recv`.
use scanner_button.Prelude.{ℕ, ◌≡◌, ◌≢◌, List, take, inl, inr, ◌==◌, ltb, ◌||◌, Bool-cases}
use scanner_button.Rust.Outcome.{panic, Outcome-cases}
use scanner_button.Packet.{parse, packet_try_from}
use scanner_button.Packet.Bounds.{parse-ne-panic}
use scanner_button.Discover.{Response, response_deserialize, response_from_bytes}
use scanner_button.Discover.Errors.{response_from_bytes-ne-panic}
use scanner_button.Channel.{Network, HasPeer, done, Channel, recv}
use scanner_button.Channel.Receives.{after}
use scanner_button.Scan.Decode.{decode}

-- When the socket knows its peer and has a datagram, `recv` of a discover response returns what a broadcast makes of
-- the datagram, errors included.
pub recv-decode :
    (net : Network) (limit : ℕ) (channel : Channel) (datagram : List ℕ)
    → HasPeer net channel.log
    → net.recv limit channel.log ≡ done datagram
    → recv net limit channel ≡ (decode (take 65536 datagram), after channel datagram)
unfolding recv decode
recv-decode net limit channel datagram (_, known) a =
    elim (Outcome-cases (parse (take 65536 datagram))) [
      | inr (inr p) ↦ rw (known, a, p)
      | inr (inl (e, p)) ↦ rw (known, a, p)
      | inl (packet, p) ↦
          elim (Bool-cases (packet.header.error == 0 || ltb 0 packet.header.payload_size)) [
            | inr bad ↦ rw (known, a, p, bad)
            | inl good ↦ elim (Outcome-cases (packet_try_from {T = Response} packet)) [
              | inr (inr q) ↦ rw (known, a, p, good, q)
              | inr (inl (e, q)) ↦ rw (known, a, p, good, q)
              | inl (x, q) ↦ rw (known, a, p, good, q)
            ]
          ]
    ]

-- A datagram never makes the task panic.
pub decode-ne-panic : (buffer : List ℕ) → decode buffer ≢ panic
unfolding decode packet_try_from
decode-ne-panic buffer h = elim (Outcome-cases (parse buffer)) [
  | inr (inr p) ↦ parse-ne-panic _ p
  | inr (inl (e, p)) ↦ cc (rw p at h)
  | inl (packet, p) ↦
      elim (Bool-cases (packet.header.error == 0 || ltb 0 packet.header.payload_size)) [
        | inr bad ↦ cc (rw (p, bad) at h)
        | inl good ↦ elim (Outcome-cases (response_from_bytes packet.payload)) [
          | inr (inr q) ↦ response_from_bytes-ne-panic _ q
          | inr (inl (e, q)) ↦ cc (rw (p, good, q) at h)
          | inl (x, q) ↦ cc (rw (p, good, q) at h)
        ]
      ]
]
