-- ===== src/Channel/Sockets.antt =====
-- src/channel.rs: `Channel::new`, over what a task asks of the kernel and of the other tasks.
use scanner_button.Prelude.{ℕ, List, [], ◌∷◌, Bool, true, false, Option, replicate, if◌then◌else◌}
use scanner_button.Rust.Outcome.{Outcome, ok, err}
use scanner_button.Rust.Run.{Run, ◌>>◌, pure}
use scanner_button.Discover.{IpAddr, v4, v6, Response}
use scanner_button.Channel.Wire.{Channel, Failure, io_error, SocketAddr}

-- What a task did, newest first: the calls on its socket that went well, and the answers that it
-- delivered to the task that collects them.
pub data Effect : Type 0 where
  bound : SocketAddr → Effect
  broadcasting : Effect
  connected : SocketAddr → Effect
  sent_to : List ℕ → SocketAddr → Effect
  heard : List ℕ → Effect
  delivered : Outcome Response Failure → Effect

-- Whether a call goes well after the effects so far, and what a socket is asked for: its own
-- address, and the next datagram.
pub record Kernel : Type 0 where
  pub allows : List Effect → Effect → Bool
  pub local_addr : List Effect → Option SocketAddr
  pub recv_from : List Effect → Option (List ℕ)

unfoldable pub perform : Kernel → Effect → Run (List Effect) Failure (Unit {0})
perform kernel effect effects =
    if kernel.allows effects effect then (ok tt, effect ∷ effects) else (err io_error, effects)

unfoldable pub is_ipv4 : IpAddr → Bool
is_ipv4 (v4 _) = true
is_ipv4 (v6 _) = false

abbrev pub ipv4_any : IpAddr
ipv4_any = v4 (record { octets = replicate 4 0 })

abbrev pub ipv6_any : IpAddr
ipv6_any = v6 (record { octets = replicate 16 0 })

-- The address to bind: any port of any address of the same version.
unfoldable pub any_of : IpAddr → SocketAddr
unfolding is_ipv4
any_of ip = record { ip = if is_ipv4 ip then ipv4_any else ipv6_any; port = 0 }

unfoldable pub channel_new : Kernel → SocketAddr → Run (List Effect) Failure Channel
channel_new kernel addr = do
  perform kernel (bound (any_of addr.ip))
  perform kernel (connected addr)
  pure (record { sequence = 0; log = [] })
