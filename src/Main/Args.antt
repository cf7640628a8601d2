-- ===== src/Main/Args.antt =====
-- src/main.rs: the command line, and what `main` starts. A text of the system is given by what
-- `to_string_lossy` makes of it.
use scanner_button.Prelude.{
  ℕ, ◌^◌, Bool, true, false, ◌&&◌, Option, none, some, String, List, [], ◌∷◌, ltb, leb,
  if◌then◌else◌,
}
use scanner_button.Rust.Outcome.{Outcome, ok, err, panic, ◌>>=◌, map_ok}
use scanner_button.Rust.Float.{F32}
use scanner_button.Rust.Format.{codes}
use scanner_button.Rust.ParseFloat.{Float, nan, infinite, finite, parse_f32}
use scanner_button.Poll.Host.{Endian, host_new}
use scanner_button.Channel.{SocketAddr}
use scanner_button.Listener.{ListenConfig}

pub data ArgError : Type 0 where
  no_address : ArgError
  not_a_number : List ℕ → ArgError
  not_in_range : List ℕ → ArgError
  out_of_bounds : ℕ → ArgError

-- What the system answers to `to_socket_addrs`. The `expect` panics on an empty answer.
unfoldable pub parse_addr :
    (List ℕ → Option (List SocketAddr)) → List ℕ → Outcome SocketAddr ArgError
parse_addr to_socket_addrs s = elim (to_socket_addrs s) [
  | none ↦ err no_address
  | some [] ↦ panic
  | some (addr ∷ _) ↦ ok addr
]

-- `f32::is_finite`
unfoldable pub is_finite : Float → Bool
is_finite (finite negative a) = true
is_finite _ = false

-- `partial_cmp(&1.0)` gives `Greater`; nothing is greater than a number that is none.
unfoldable pub is_greater_than_one : Float → Bool
is_greater_than_one nan = false
is_greater_than_one (infinite negative) = if negative then false else true
is_greater_than_one (finite negative a) = if negative then false else ltb (2 ^ 149) a.units

-- A number that is accepted is its own magnitude.
unfoldable pub magnitude : Float → F32
magnitude (finite negative a) = a
magnitude _ = record { units = 0 }

unfoldable pub parse_factor : List ℕ → Outcome F32 ArgError
parse_factor s = elim (parse_f32 s) [
  | none ↦ err (not_a_number s)
  | some factor ↦
      if is_finite factor && is_greater_than_one factor
      then ok (magnitude factor)
      else err (not_in_range s)
]

-- `value_parser!(u64).range(1..)`
unfoldable pub at_least_one : ℕ → Outcome ℕ ArgError
at_least_one n = if leb 1 n && ltb n (2 ^ 64) then ok n else err (out_of_bounds n)

unfoldable pub or_default : {A : Type 0} → Option A → A → A
or_default none a = a
or_default (some b) a = b

pub record Listen : Type 0 where
  pub scanner : SocketAddr
  pub hostname : List ℕ
  pub backoff_factor : F32
  pub backoff_maximum : ℕ
  pub command : String
  pub args : List String

pub data Commands : Type 0 where
  listen : Listen → Commands
  scan : Commands

pub record Cli : Type 0 where
  pub max_waiting : ℕ
  pub verbose : ℕ
  pub quiet : Bool
  pub command : Commands

-- What the crate `clap` finds on the command line, where an option may be left out.
pub record ListenOptions : Type 0 where
  pub scanner : List ℕ
  pub hostname : Option (List ℕ)
  pub backoff_factor : Option (List ℕ)
  pub backoff_maximum : Option ℕ
  pub command : String
  pub args : List String

pub record Options : Type 0 where
  pub max_waiting : Option ℕ
  pub verbose : ℕ
  pub quiet : Bool
  pub listen : Option ListenOptions

-- The system, as far as the command line asks it.
pub record System : Type 0 where
  pub to_socket_addrs : List ℕ → Option (List SocketAddr)
  pub gethostname : List ℕ

-- Of several arguments that are refused, the crate `clap` chooses the one that it reports; here it
-- is the first field.
unfoldable pub parse_listen : System → ListenOptions → Outcome Listen ArgError
parse_listen system o = do
  scanner ← parse_addr system.to_socket_addrs o.scanner
  backoff_factor ← parse_factor (or_default o.backoff_factor (codes "2"))
  backoff_maximum ← at_least_one (or_default o.backoff_maximum 1800)
  ok (record {
    scanner = scanner;
    hostname = or_default o.hostname system.gethostname;
    backoff_factor = backoff_factor;
    backoff_maximum = backoff_maximum;
    command = o.command;
    args = o.args;
  })

unfoldable pub parse_command : System → Option ListenOptions → Outcome Commands ArgError
parse_command system none = ok scan
parse_command system (some o) = map_ok listen (parse_listen system o)

-- `Cli::parse`
unfoldable pub parse_cli : System → Options → Outcome Cli ArgError
parse_cli system o = do
  max_waiting ← at_least_one (or_default o.max_waiting 5)
  command ← parse_command system o.listen
  ok (record { max_waiting = max_waiting; verbose = o.verbose; quiet = o.quiet; command = command })

-- What the runtime is given to run.
pub data Started : Type 0 where
  listening : ListenConfig → Started
  scanning : ℕ → Started

unfoldable pub start : Endian → Cli → Commands → Outcome Started ArgError
start e cli scan = ok (scanning cli.max_waiting)
start e cli (listen args) = do
  hostname ← host_new e args.hostname
  ok (
      listening (record {
        scanner_addr = args.scanner;
        hostname = hostname;
        initial_max_waiting = cli.max_waiting;
        backoff_factor = args.backoff_factor;
        backoff_maximum = args.backoff_maximum;
        command = (args.command, args.args);
      }))

unfoldable pub main : Endian → System → Options → Outcome Started ArgError
main e system o = do cli ← parse_cli system o; start e cli cli.command
