-- ===== src/Scan/Tests.antt =====
-- src/scan.rs: runs over concrete kernels, networks and events.
mod Sources
use scanner_button.Prelude.{ℕ, ◌≡◌, ◌↔◌, refl, List, [], ◌∷◌, true, some, none, take}
use mathlib.Core.List.{Perm}
use mathlib.Core.List.Perm
use scanner_button.Rust.Run.{◌>>◌}
use scanner_button.Rust.Outcome.{ok, err}
use scanner_button.Rust.Format.{codes, digits, digit, decimal, hex, zeros, hex_padded}
use scanner_button.Rust.Net.{ipv4_shown}
use scanner_button.Rust.Text.{
  from_utf8, split_terminator, split_once, check, follow, split, terminated,
}
use scanner_button.Serdes.Field.{try_from_u8}
use scanner_button.Serdes.Traits.{deserialize_sized, serialize_to_vec, empty_serialize}
use scanner_button.Header.{header_try_from, to_raw_header}
use scanner_button.Rust.Word.{from_be_bytes, u16_to_be_bytes, u32_to_be_bytes}
use scanner_button.Packet.{parse, packet_try_from, new, build, with_sequence, packet_serialize}
use scanner_button.Discover.{response_deserialize, ip_shown, mac_shown, eui48_shown, octets_shown}
use scanner_button.Discover.Tests.{scanner}
use scanner_button.Identity.{identity_from_bytes, read_identity, collect, insert}
use scanner_button.Channel.{
  Network, Channel, done, received, sent, recv, send, command_packet, io_error, Kernel, perform,
  channel_new, is_ipv4,
}
use scanner_button.Channel.Connects.{connected_to}
use scanner_button.Channel.Receives.{after}
use scanner_button.Scan.Decode.{decode}
use scanner_button.Scan.Broadcast.{Addr, addr_v4, bjnp_port}
use scanner_button.Scan.Sort.{
  sort_entries, insert_sorted, is_less, cmp_entry, cmp_str, cmp_byte, followed_by,
}
use scanner_button.Scan.Inquire.{
  Terminal, Inquiry, inquire_device, ask, report, write_line, write_entries, device_line,
  entry_line, ip_text,
}
use scanner_button.Scan.Select.{Happening, answered, joined, deadline, Scan, scan_loop, broadcast}
use scanner_button.Scan.Datagrams.{recv-decode}
use scanner_button.Scan.Until.{IsScanned, scan_loop-IsScanned}
use scanner_button.Scan.Inquiries.{IsInquired, inquire_device-IsInquired}

-- The answer of the scanner to a question for its identity.
abbrev identity_answer : List ℕ
identity_answer =
    b'B'
    ∷ b'J'
    ∷ b'N'
    ∷ b'P'
    ∷ 0x82
    ∷ 0x30
    ∷ 0
    ∷ 0
    ∷ 0
    ∷ 0
    ∷ 0
    ∷ 0
    ∷ 0
    ∷ 0
    ∷ 0
    ∷ 16
    ∷ 0
    ∷ 16
    ∷ codes "MFG:CN;MDL:MX;"

abbrev answering : Network
answering = record {
  peer_addr = λ _. some (record { ip = scanner.ip_addr; port = bjnp_port });
  send = λ _ _ _. done tt;
  recv = λ _ _. done identity_answer;
}

abbrev channel : Channel
channel = record { sequence = 0; log = [] }

recv-decode_example :
    recv answering 5 channel ≡ (decode (take 65536 identity_answer), after channel identity_answer)
recv-decode_example = recv-decode answering 5 channel identity_answer (_, refl) refl

-- Every call goes well but for the first two answers, which are lost.
abbrev willing : Kernel
willing = record {
  allows = λ _ _. true;
  local_addr = λ _. some (record { ip = scanner.ip_addr; port = 8000 });
  recv_from = λ _. none;
}

abbrev interface : Addr
interface = addr_v4 (record { octets = 192 ∷ 168 ∷ 1 ∷ 5 ∷ [] }) none

-- An error, a response, a task that ended, the deadline, and a response that is too late.
abbrev events : List Happening
events =
    answered (codes "eth0") scanner.ip_addr (err io_error)
    ∷ answered (codes "eth0") scanner.ip_addr (ok scanner)
    ∷ joined 0 (err io_error)
    ∷ deadline
    ∷ answered (codes "eth0") scanner.ip_addr (ok scanner)
    ∷ []

abbrev at_start : Scan
at_start = record { running = broadcast (codes "eth0") interface ∷ []; inquired = [] }

scan_loop-IsScanned_example :
    IsScanned events at_start (scan_loop events at_start).0 (scan_loop events at_start).1
scan_loop-IsScanned_example = scan_loop-IsScanned events at_start

abbrev by_model : List (List ℕ × List ℕ)
by_model = (codes "MDL", codes "MX") ∷ (codes "MFG", codes "CN") ∷ []

abbrev by_maker : List (List ℕ × List ℕ)
by_maker = (codes "MFG", codes "CN") ∷ (codes "MDL", codes "MX") ∷ []

-- A terminal without colours.
abbrev terminal : Terminal
terminal = record { key_style = λ x. x; value_style = λ x. x; takes = λ _. true }

abbrev before : Inquiry
before = record { effects = []; packets = []; lines = [] }

-- The question, and what is left of the inquiry.
abbrev question : List ℕ
question = b'B' ∷ b'J' ∷ b'N' ∷ b'P' ∷ 0x02 ∷ 0x30 ∷ 0 ∷ 0 ∷ 0 ∷ 0 ∷ 0 ∷ 0 ∷ 0 ∷ 0 ∷ 0 ∷ 0 ∷ []

abbrev written : Inquiry
written = record {
  effects = connected_to (record { ip = scanner.ip_addr; port = bjnp_port }) [];
  packets = received identity_answer ∷ sent question ∷ [];
  lines =
      codes "  MFG: CN"
      ∷ codes "  MDL: MX"
      ∷ codes "Scanner IP=192.168.1.20:8612 MAC=c8:b5:ad:ce:aa:01"
      ∷ [];
}

inquired : inquire_device willing answering terminal 5 scanner before ≡ (ok tt, written)
unfolding inquire_device channel_new perform ask send serialize_to_vec recv parse deserialize_sized
    header_try_from try_from_u8 from_be_bytes packet_try_from identity_from_bytes read_identity
    from_utf8 check follow report write_line is_ipv4 command_packet eui48_shown ip_shown mac_shown
    octets_shown to_raw_header collect insert build new with_sequence decimal digit digits hex
    hex_padded zeros ipv4_shown split split_once split_terminator terminated u16_to_be_bytes
    u32_to_be_bytes device_line entry_line ip_text write_entries cmp_byte cmp_entry cmp_str
    followed_by insert_sorted is_less sort_entries
inquired = refl

inquire_device-IsInquired_example : IsInquired terminal scanner before written
inquire_device-IsInquired_example =
    inquire_device-IsInquired willing answering terminal 5 scanner before written inquired
