-- ===== src/Scan/Tests/Sources.antt =====
-- src/scan.rs: a scanner that answers to the broadcast of one interface.
use scanner_button.Prelude.{◌^◌, ◌-◌, ℕ, ◌≡◌, refl, ap, List, [], ◌∷◌, true, false, some, none}
use mathlib.Core.List.Memᴰ
use mathlib.Core.List.{Memᴰ}
use scanner_button.Rust.Outcome.{Outcome, ok, panic}
use scanner_button.Rust.Word.{from_be_bytes, u16_to_be_bytes, u32_to_be_bytes}
use scanner_button.Rust.Format.{codes}
use scanner_button.Serdes.Field.{try_from_u8}
use scanner_button.Serdes.Traits.{deserialize_sized, serialize_to_vec, empty_serialize}
use scanner_button.Header.{header_try_from, to_raw_header}
use scanner_button.Packet.{parse, packet_try_from, new, build}
use scanner_button.Discover
use scanner_button.Discover.{IpAddr, Response, v4}
use scanner_button.Discover.Tests.{scanner}
use scanner_button.Channel.{Failure, Kernel, delivered, perform}
use scanner_button.Listener.Tests.Opening.{discover_reply}
use scanner_button.Scan.Decode.{decode}
use scanner_button.Scan.Broadcast.{
  Addr, addr_v4, local_of, broadcast_of, or_broadcast, open_socket, discover_command, deliver,
  collect_round, collect_rounds, broadcast_scan,
}
use scanner_button.Scan.Select.{
  Happening, answered, deadline, Scan, scan, instant_add, scan_loop, on_answer, spawn_inquiry,
  shutdown, broadcast_tasks,
}
use scanner_button.Scan.Sources.{Station, effects_of, Streamed, IsHeard, scan-IsHeard}

abbrev answering : Kernel
answering = record {
  allows = λ _ _. true;
  local_addr = λ _. some (record { ip = scanner.ip_addr; port = 8000 });
  recv_from = λ _. some discover_reply;
}

abbrev ethernet : Addr
ethernet = addr_v4 (record { octets = 192 ∷ 168 ∷ 1 ∷ 5 ∷ [] }) none

abbrev station : Station
station = record {
  interface = record { name = codes "eth0"; addr = some ethernet };
  kernel = answering;
  rounds = 1;
}

abbrev ethernet_ip : IpAddr
ethernet_ip = v4 (record { octets = 192 ∷ 168 ∷ 1 ∷ 5 ∷ [] })

abbrev events : List Happening
events = answered (codes "eth0") ethernet_ip (ok scanner) ∷ deadline ∷ []

scanner_delivered : Memᴰ (delivered (ok scanner)) (effects_of station ethernet)
unfolding broadcast_scan open_socket local_of broadcast_of or_broadcast perform collect_rounds
    collect_round deliver decode discover_command new build serialize_to_vec to_raw_header
    u16_to_be_bytes u32_to_be_bytes parse deserialize_sized header_try_from try_from_u8
    from_be_bytes packet_try_from Discover.response_from_bytes Discover.mac_from_bytes
    Discover.octets_exact Discover.ip_from_bytes
scanner_delivered = Memᴰ.head refl

name_of : Happening → List ℕ
name_of (answered name ip resp) = name
name_of _ = []

ip_of : Happening → IpAddr
ip_of (answered name ip resp) = ip
ip_of _ = ethernet_ip

resp_of : Happening → Outcome Response Failure
resp_of (answered name ip resp) = resp
resp_of _ = panic

events-Streamed :
    (name : List ℕ) (ip : IpAddr) (resp : Outcome Response Failure)
    → Memᴰ (answered name ip resp) events
    → Streamed (station ∷ []) name ip resp
unfolding name_of ip_of resp_of
events-Streamed name ip resp (Memᴰ.head e) = record {
  station = station;
  present = Memᴰ.head refl;
  addr = ethernet;
  has_addr = refl;
  same_name = ap name_of e;
  same_ip = ap ip_of e;
  taken = rw (ap resp_of e) scanner_delivered;
}
events-Streamed name ip resp (Memᴰ.tail (Memᴰ.head e)) = cc
events-Streamed name ip resp (Memᴰ.tail (Memᴰ.tail m)) = absurd (Memᴰ.not-nil m)

abbrev searched : Scan
searched = record { running = []; inquired = scanner ∷ [] }

scan_run : scan 1000 5 (some (station.interface ∷ [])) events ≡ ok (searched, false)
unfolding scan instant_add scan_loop on_answer spawn_inquiry shutdown broadcast_tasks
scan_run = refl

scan-IsHeard_example : IsHeard (station ∷ []) scanner
scan-IsHeard_example =
    scan-IsHeard 1000 5 (station ∷ []) events searched false events-Streamed scan_run scanner
      (Memᴰ.head refl)

-- The longest waiting time that the command line accepts is too long for the clock.
too_long : scan 1000 (2 ^ 64 - 1) (some []) [] ≡ panic
unfolding scan instant_add
too_long = refl
