-- ===== src/Scan/Sources.antt =====
-- src/scan.rs: where the responses come from that `scan` starts an inquiry for.
use scanner_button.Prelude.{ℕ, ◌≡◌, sym, ap, ◌∙◌, List, [], ◌∷◌, Bool, some}
use mathlib.Core.List.{map, Memᴰ}
use mathlib.Core.List.Memᴰ
use mathlib.Core.Path.{subst}
use scanner_button.Rust.Outcome.{Outcome, ok, err, panic, ok-injective, >>=-eq-ok}
use scanner_button.Discover.{IpAddr, Response}
use scanner_button.Channel.{Failure, Effect, Kernel, delivered}
use scanner_button.Scan.Broadcast.{Addr, broadcast_scan}
use scanner_button.Scan.Select.{
  NetworkInterface, Happening, answered, joined, deadline, Scan, scan, instant_add, broadcast_tasks,
}
use scanner_button.Scan.Broadcasts.{own, broadcast_scan-Collecting}
use scanner_button.Scan.Until.{found, scan_loop-IsScanned}
use scanner_button.Scan.Hears.{HeardBehind, asked, run-HeardBehind}

-- An interface, what the kernel answers to its task, and the rounds of its loop.
pub record Station : Type 0 where
  pub interface : NetworkInterface
  pub kernel : Kernel
  pub rounds : ℕ

abbrev pub effects_of : Station → Addr → List Effect
effects_of station addr = (broadcast_scan station.kernel addr station.rounds []).1

-- An answer that the task of a station delivered, under the name and the address of its interface.
pub record Streamed (stations : List Station) (name : List ℕ) (ip : IpAddr)
    (resp : Outcome Response Failure) : Type 0 where
  pub station : Station
  pub present : Memᴰ station stations
  pub addr : Addr
  pub has_addr : station.interface.addr ≡ some addr
  pub same_name : name ≡ station.interface.name
  pub same_ip : ip ≡ (own addr).ip
  pub taken : Memᴰ (delivered resp) (effects_of station addr)

-- The response is what a datagram decodes to that the task of an interface heard, behind the
-- discover command that it had sent.
pub record IsHeard (stations : List Station) (resp : Response) : Type 0 where
  pub station : Station
  pub present : Memᴰ station stations
  pub addr : Addr
  pub has_addr : station.interface.addr ≡ some addr
  pub heard : HeardBehind (asked addr) (effects_of station addr) resp

-- A response that is found is among the answers.
found-answered :
    (happenings : List Happening) (resp : Response)
    → Memᴰ resp (found happenings)
    → (name : List ℕ) × (ip : IpAddr) × Memᴰ (answered name ip (ok resp)) happenings
found-answered [] resp m = absurd (Memᴰ.not-nil m)
found-answered (answered name ip (ok r) ∷ rest) resp (Memᴰ.head e) =
    (name, ip, Memᴰ.head (ap (λ (x : Response). answered name ip (ok x)) e))
found-answered (answered name ip (ok r) ∷ rest) resp (Memᴰ.tail m) =
    let (n, i, k) = found-answered rest resp m in (n, i, Memᴰ.tail k)
found-answered (answered name ip (err e) ∷ rest) resp m =
    let (n, i, k) = found-answered rest resp m in (n, i, Memᴰ.tail k)
found-answered (answered name ip panic ∷ rest) resp m =
    let (n, i, k) = found-answered rest resp m in (n, i, Memᴰ.tail k)
found-answered (joined place result ∷ rest) resp m =
    let (n, i, k) = found-answered rest resp m in (n, i, Memᴰ.tail k)
found-answered (deadline ∷ rest) resp m = absurd (Memᴰ.not-nil m)

-- If every answer that the streams give to `scan` was delivered by the task of an interface: each
-- scanner that `scan` starts an inquiry for has answered. A datagram came from the network, to the
-- task of an interface with an address, behind the discover command that this task had sent, and
-- the scanner's response is what the datagram decodes to.
pub scan-IsHeard :
    (now max_waiting : ℕ) (stations : List Station) (happenings : List Happening) (s : Scan)
    (waiting : Bool)
    → ((name : List ℕ) (ip : IpAddr) (resp : Outcome Response Failure)
        → Memᴰ (answered name ip resp) happenings
        → Streamed stations name ip resp)
    → scan now max_waiting (some (map (λ (t : Station). t.interface) stations)) happenings
      ≡ ok (s, waiting)
    → (resp : Response) → Memᴰ resp s.inquired
    → IsHeard stations resp
unfolding scan
scan-IsHeard now max_waiting stations happenings s waiting streamed e resp m =
    let (_, _, looped) = >>=-eq-ok (instant_add now max_waiting) _ e in
    let started : Scan = record {
      running = broadcast_tasks (map (λ (t : Station). t.interface) stations);
      inquired = [];
    } in
    let same = ap (λ (p : Scan × Bool). p.0.inquired) (ok-injective _ (s, waiting) looped) in
    let all = (scan_loop-IsScanned happenings started).inquired in
    let (name, ip, k) =
      found-answered happenings resp
        (subst (λ (l : List Response). Memᴰ resp l) (sym same ∙ all) m) in
    let t = streamed name ip (ok resp) k in
    record {
      station = t.station;
      present = t.present;
      addr = t.addr;
      has_addr = t.has_addr;
      heard =
          run-HeardBehind t.addr resp _
            (broadcast_scan-Collecting t.station.kernel t.addr t.station.rounds) t.taken;
    }
