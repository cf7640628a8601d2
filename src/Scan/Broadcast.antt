-- ===== src/Scan/Broadcast.antt =====
-- src/scan.rs: `broadcast_scan`, the task of one network interface.
use scanner_button.Prelude.{
  ℕ, zero, suc, List, [], ◌∷◌, ◌++◌, Bool, true, false, Option, none, some, replicate, take,
  if◌then◌else◌,
}
use scanner_button.Rust.Outcome.{Outcome, ok, err, panic, ok_or}
use scanner_button.Scan.Decode.{decode}
use scanner_button.Rust.Run.{Run, ◌>>=◌, ◌>>◌, pure, lift, get}
use scanner_button.Serdes.Traits.{Empty, empty, empty_serialize, serialize_to_vec}
use scanner_button.Header.{PacketType, PayloadType}
use scanner_button.Packet.{Packet, new, build, packet_serialize}
use scanner_button.Discover.{Response, Ipv4Addr, Ipv6Addr, v4, v6}
use scanner_button.Channel.{
  Failure, io_error, SocketAddr, Effect, Kernel, perform, bound, broadcasting, sent_to, heard,
  delivered,
}

-- src/utils.rs
abbrev pub bjnp_port : ℕ
bjnp_port = 8612

-- The address of an interface, as far as the crate `network_interface` is asked for it.
pub data Addr : Type 0 where
  addr_v4 : Ipv4Addr → Option Ipv4Addr → Addr
  addr_v6 : Ipv6Addr → Addr

abbrev pub ipv4_broadcast : Ipv4Addr
ipv4_broadcast = record { octets = 255 ∷ 255 ∷ 255 ∷ 255 ∷ [] }

abbrev pub ipv6_linklocal_multicast : Ipv6Addr
ipv6_linklocal_multicast = record { octets = 0xff ∷ 0x02 ∷ (replicate 13 0 ++ (0x01 ∷ [])) }

unfoldable pub or_broadcast : Option Ipv4Addr → Ipv4Addr
or_broadcast none = ipv4_broadcast
or_broadcast (some addr) = addr

-- The address that `bind` is given.
unfoldable pub local_of : Addr → SocketAddr
local_of (addr_v4 ip broadcast) = record { ip = v4 ip; port = 0 }
local_of (addr_v6 ip) = record { ip = v6 ip; port = 0 }

-- The address that the command is sent to.
unfoldable pub broadcast_of : Addr → SocketAddr
broadcast_of (addr_v4 ip broadcast) = record { ip = v4 (or_broadcast broadcast); port = bjnp_port }
broadcast_of (addr_v6 ip) = record { ip = v6 ipv6_linklocal_multicast; port = bjnp_port }

-- The `match` that makes the socket; only a socket of the fourth version is set to broadcast.
unfoldable pub open_socket : Kernel → Addr → Run (List Effect) Failure SocketAddr
unfolding local_of broadcast_of or_broadcast
open_socket kernel (addr_v4 ip broadcast) = do
  perform kernel (bound (local_of (addr_v4 ip broadcast)))
  perform kernel broadcasting
  pure (broadcast_of (addr_v4 ip broadcast))
open_socket kernel (addr_v6 ip) = do
  perform kernel (bound (local_of (addr_v6 ip)))
  pure (broadcast_of (addr_v6 ip))

-- The discover command, with the sequence number that a builder starts with.
unfoldable pub discover_command : Packet Empty
discover_command = build (new PacketType.scanner_command PayloadType.discover) empty

-- `sender.send(resp)`, which fails when the receiver is gone: whether the loop goes on. A panic
-- ends the task.
unfoldable pub deliver : Kernel → Outcome Response Failure → Run (List Effect) Failure Bool
deliver kernel panic effects = (panic, effects)
deliver kernel resp effects =
    if kernel.allows effects (delivered resp)
    then (ok true, delivered resp ∷ effects)
    else (ok false, effects)

-- One round of the loop: a datagram, cut to the buffer, or the error of the socket.
unfoldable pub collect_round : Kernel → Run (List Effect) Failure Bool
collect_round kernel effects = elim (kernel.recv_from effects) [
  | none ↦ deliver kernel (err io_error) effects
  | some datagram ↦
      let buffer = take 65536 datagram in deliver kernel (decode buffer) (heard buffer ∷ effects)
]

-- The first `n` rounds; `false` when the loop has ended in them.
unfoldable pub collect_rounds : Kernel → ℕ → Run (List Effect) Failure Bool
collect_rounds kernel zero = pure true
collect_rounds kernel (suc n) = do
  running ← collect_rounds kernel n
  if running then collect_round kernel else pure false

unfoldable pub broadcast_scan : Kernel → Addr → ℕ → Run (List Effect) Failure Bool
broadcast_scan kernel ifaddr n = do
  broadcast ← open_socket kernel ifaddr
  effects ← get
  lift (ok_or (kernel.local_addr effects) io_error)
  buffer ← lift (serialize_to_vec discover_command)
  perform kernel (sent_to buffer broadcast)
  collect_rounds kernel n
