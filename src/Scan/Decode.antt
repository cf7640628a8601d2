-- ===== src/Scan/Decode.antt =====
-- src/scan.rs: what `broadcast_scan` makes of a datagram.
use scanner_button.Prelude.{ℕ, List, ◌==◌, ltb, ◌||◌, if◌then◌else◌}
use scanner_button.Rust.Outcome.{Outcome, ok, err, ◌>>=◌, map_err}
use scanner_button.Packet.{parse, packet_try_from}
use scanner_button.Discover.{Response, response_deserialize}
use scanner_button.Channel.{Failure, unreadable, remote_error}

-- What the closure of `and_then` makes of a datagram.
unfoldable pub decode : List ℕ → Outcome Response Failure
decode buffer = do
  packet ← map_err unreadable (parse buffer)
  if packet.header.error == 0 || ltb 0 packet.header.payload_size
      then (do packet ← map_err unreadable (packet_try_from packet); ok packet.payload)
      else err (remote_error packet.header.error)
