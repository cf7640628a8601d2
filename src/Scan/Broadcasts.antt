-- ===== src/Scan/Broadcasts.antt =====
-- src/scan.rs: the whole life of the task of one network interface.
use scanner_button.Prelude.{
  ℕ, ◌≡◌, refl, List, [], ◌∷◌, inl, inr, none, some, Option, Bool-cases, Option-cases,
}
use scanner_button.Rust.Outcome.{ok}
use scanner_button.Rust.Triples.{Post, returns, fails, continue-Post}
use scanner_button.Discover.{Ipv4Addr, v4, v6}
use scanner_button.Header.{header_serialize, to_raw_header}
use scanner_button.Rust.Word.{u16_to_be_bytes, u32_to_be_bytes}
use scanner_button.Serdes.Traits.{serialize_to_vec, empty_serialize}
use scanner_button.Packet.{new, build, packet_serialize}
use scanner_button.Channel.{
  SocketAddr, Failure, Effect, Kernel, perform, bound, broadcasting, sent_to,
}
use scanner_button.Scan.Broadcast.{
  Addr, addr_v4, addr_v6, local_of, broadcast_of, or_broadcast, open_socket, discover_command,
  broadcast_scan,
}
use scanner_button.Scan.Collects.{Collecting, collect_rounds-Collecting}

-- The address of the interface, at any port.
abbrev pub own : Addr → SocketAddr
own (addr_v4 ip _) = record { ip = v4 ip; port = 0 }
own (addr_v6 ip) = record { ip = v6 ip; port = 0 }

-- Port 8612 of the broadcast address of the interface, or else of 255.255.255.255; and of ff02::1, the
-- nodes of the link.
abbrev pub target : Addr → SocketAddr
target (addr_v4 ip (some broadcast)) = record { ip = v4 broadcast; port = 8612 }
target (addr_v4 ip none) = record {
  ip = v4 (record { octets = 255 ∷ 255 ∷ 255 ∷ 255 ∷ [] });
  port = 8612;
}
target (addr_v6 ip) = record {
  ip = v6 (record {
    octets = 0xff ∷ 0x02 ∷ 0 ∷ 0 ∷ 0 ∷ 0 ∷ 0 ∷ 0 ∷ 0 ∷ 0 ∷ 0 ∷ 0 ∷ 0 ∷ 0 ∷ 0 ∷ 1 ∷ [];
  });
  port = 8612;
}

-- The effects of an open socket.
abbrev pub opened : Addr → List Effect
opened (addr_v4 ip broadcast) = broadcasting ∷ bound (own (addr_v4 ip broadcast)) ∷ []
opened (addr_v6 ip) = bound (own (addr_v6 ip)) ∷ []

-- What is left of a task that gave up before it sent anything.
pub data Unsent (ifaddr : Addr) : List Effect → Type 0 where
  no_socket : Unsent ifaddr []
  not_broadcasting : Unsent ifaddr (bound (own ifaddr) ∷ [])
  not_sent : Unsent ifaddr (opened ifaddr)

-- The bytes of the discover command: its sequence number is 0, and nothing follows the header.
abbrev pub discover_bytes : List ℕ
discover_bytes =
    b'B' ∷ b'J' ∷ b'N' ∷ b'P' ∷ 0x02 ∷ 0x01 ∷ 0 ∷ 0 ∷ 0 ∷ 0 ∷ 0 ∷ 0 ∷ 0 ∷ 0 ∷ 0 ∷ 0 ∷ []

discover_written : serialize_to_vec {E = Failure} discover_command ≡ ok discover_bytes
unfolding serialize_to_vec discover_command new build to_raw_header u16_to_be_bytes u32_to_be_bytes
discover_written = refl

or_broadcast-target :
    (ip : Ipv4Addr) (broadcast : Option Ipv4Addr)
    → record { ip = v4 (or_broadcast broadcast); port = 8612 } ≡ target (addr_v4 ip broadcast)
unfolding or_broadcast
or_broadcast-target ip (some broadcast) = refl
or_broadcast-target ip none = refl

open_socket-Post :
    (kernel : Kernel) (ifaddr : Addr)
    → Post {E = Failure}
        (λ broadcast effects. (broadcast ≡ target ifaddr) × (effects ≡ opened ifaddr))
        (Unsent ifaddr)
        (open_socket kernel ifaddr [])
unfolding open_socket perform local_of broadcast_of
open_socket-Post kernel (addr_v4 ip broadcast) =
    let local = bound (own (addr_v4 ip broadcast)) in
    elim (Bool-cases (kernel.allows [] local)) [
      | inr e ↦ rw (perform, e) (fails _ _ no_socket)
      | inl e ↦ elim (Bool-cases (kernel.allows (local ∷ []) broadcasting)) [
        | inr e' ↦ rw (perform, e, e') (fails _ _ not_broadcasting)
        | inl e' ↦ rw (perform, e, e') (returns _ _ (or_broadcast-target ip broadcast, refl))
      ]
    ]
open_socket-Post kernel (addr_v6 ip) =
    elim (Bool-cases (kernel.allows [] (bound (own (addr_v6 ip))))) [
      | inr e ↦ rw (perform, e) (fails _ _ no_socket)
      | inl e ↦ rw (perform, e) (returns _ _ (refl, refl))
    ]

pub broadcast_scan-Collecting :
    (kernel : Kernel) (ifaddr : Addr) (n : ℕ)
    → Post {E = Failure}
        (Collecting (sent_to discover_bytes (target ifaddr) ∷ opened ifaddr))
        (Unsent ifaddr)
        (broadcast_scan kernel ifaddr n [])
unfolding broadcast_scan perform
broadcast_scan-Collecting kernel ifaddr n =
    continue-Post (open_socket kernel ifaddr []) _ (open_socket-Post kernel ifaddr)
      λ broadcast effects (same, socket).
        rw (same, socket)
          (let command = sent_to discover_bytes (target ifaddr) in
            elim (Option-cases (kernel.local_addr (opened ifaddr))) [
              | inl e ↦ rw e (fails _ _ not_sent)
              | inr (local, e) ↦ elim (Bool-cases (kernel.allows (opened ifaddr) command)) [
                | inr e' ↦ rw (e, discover_written, perform, e') (fails _ _ not_sent)
                | inl e' ↦
                    rw (e, discover_written, perform, e')
                      (collect_rounds-Collecting kernel (command ∷ opened ifaddr) n)
              ]
            ])
