-- ===== src/Scan/Select.antt =====
-- src/scan.rs: `scan`, the loop that waits for the first of three kinds of events.
use scanner_button.Prelude.{
  ℕ, ◌+◌, ◌^◌, ltb, if◌then◌else◌, zero, suc, List, [], ◌∷◌, ◌++◌, Bool, true, false, Option, none,
  some,
}
use scanner_button.Rust.Outcome.{Outcome, ok, err, panic, ◌>>=◌}
use scanner_button.Discover.{IpAddr, Response}
use scanner_button.Channel.{Failure, io_error}
use scanner_button.Scan.Broadcast.{Addr}

-- The crate `network_interface`: a name, and an address if it has one.
pub record NetworkInterface : Type 0 where
  pub name : List ℕ
  pub addr : Option Addr

-- The tasks of the set.
pub data Task : Type 0 where
  broadcast : List ℕ → Addr → Task
  inquiry : Response → Task

-- What `select!` wakes up for: an answer of the stream of an interface, the end of the task at a
-- place of the set, and the deadline. `select!` picks any of those that are ready, so that every
-- order of them is one of its runs.
pub data Happening : Type 0 where
  answered : List ℕ → IpAddr → Outcome Response Failure → Happening
  joined : ℕ → Outcome (Unit {0}) Failure → Happening
  deadline : Happening

-- The tasks that run, and the scanners that an inquiry was started for, the first one first.
pub record Scan : Type 0 where
  pub running : List Task
  pub inquired : List Response

unfoldable pub remove_at : {A : Type 0} → ℕ → List A → List A
remove_at n [] = []
remove_at zero (x ∷ xs) = xs
remove_at (suc n) (x ∷ xs) = x ∷ remove_at n xs

-- `task_set.spawn`
unfoldable pub spawn_inquiry : Response → Scan → Scan
spawn_inquiry resp scan = record {
  running = scan.running ++ (inquiry resp ∷ []);
  inquired = scan.inquired ++ (resp ∷ []);
}

-- The first branch: an error is only logged.
unfoldable pub on_answer : Outcome Response Failure → Scan → Scan
on_answer (ok resp) scan = spawn_inquiry resp scan
on_answer _ scan = scan

-- The second branch: whatever the task ended with, it is only logged.
unfoldable pub on_joined : ℕ → Scan → Scan
on_joined place scan = record scan { running = remove_at place scan.running }

-- `shutdown` drops the tasks that are left.
unfoldable pub shutdown : Scan → Scan
shutdown scan = record scan { running = [] }

-- The loop over a run of events, and whether it still waits behind them.
unfoldable pub scan_loop : List Happening → Scan → Scan × Bool
scan_loop [] scan = (scan, true)
scan_loop (answered name addr maybe_resp ∷ rest) scan = scan_loop rest (on_answer maybe_resp scan)
scan_loop (joined place result ∷ rest) scan = scan_loop rest (on_joined place scan)
scan_loop (deadline ∷ rest) scan = (shutdown scan, false)

-- `filter` and `map`: a task for every interface that has an address.
unfoldable pub broadcast_tasks : List NetworkInterface → List Task
broadcast_tasks [] = []
broadcast_tasks (interface ∷ rest) = elim interface.addr [
  | none ↦ broadcast_tasks rest
  | some addr ↦ broadcast interface.name addr ∷ broadcast_tasks rest
]

-- `Instant + Duration::from_secs(secs)`: on Unix the seconds of an instant are an `i64`; the fraction is
-- not changed, and an overflow panics.
unfoldable pub instant_add : ℕ → ℕ → Outcome ℕ Failure
instant_add now secs = if ltb (now + secs) (2 ^ 63) then ok (now + secs) else panic

-- `scan`, given the seconds of the clock and what the list of interfaces is asked with, over a run of
-- events. That the event `deadline` comes at the deadline is up to the runtime.
unfoldable pub scan :
    ℕ → ℕ → Option (List NetworkInterface) → List Happening → Outcome (Scan × Bool) Failure
scan now max_waiting none happenings = err io_error
scan now max_waiting (some interfaces) happenings = do
  let started : Scan = record { running = broadcast_tasks interfaces; inquired = [] }
  sleep_until ← instant_add now max_waiting
  ok (scan_loop happenings started)
