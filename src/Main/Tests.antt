-- ===== src/Main/Tests.antt =====
-- src/main.rs: runs of the command line.
use scanner_button.Prelude.{◌≤◌, ◌≡◌, refl, none, some, [], ◌∷◌, ◌^◌, ◌*◌, false, replicate, true}
use scanner_button.Rust.Outcome.{ok, err}
use scanner_button.Rust.Float.{excess, round_to}
use scanner_button.Rust.Format.{codes}
use scanner_button.Rust.ParseFloat.{parse_f32}
use scanner_button.Poll.Host.{
  big, host_new, host_buffer, fill_loop, copy_at, encode_utf16, len_utf16, to_be, units_to_bytes,
}
use scanner_button.Discover.Tests.{scanner}
use scanner_button.Rust.Triples.{Ends}
use scanner_button.Poll.Command.Tests.{digits_time, new_year, new_year-HasText}
use scanner_button.Channel.{SocketAddr, Kernel, Failure, done, late}
use scanner_button.Channel.Connects.{IsUnconnected}
use scanner_button.Listener.{ListenConfig, Machine, listen}
use scanner_button.Main.Args.{
  Options, System, listening, main, parse_cli, parse_command, parse_listen, parse_addr,
  parse_factor, is_finite, is_greater_than_one, magnitude, at_least_one, or_default, start,
  not_in_range, out_of_bounds,
}
use scanner_button.Listener.Runs.{IsKnown}
use scanner_button.Main.Program.{IsRunning, main_listens}

abbrev address : SocketAddr
address = record { ip = scanner.ip_addr; port = 8612 }

abbrev system : System
system = record { to_socket_addrs = λ _. some (address ∷ []); gethostname = codes "pc" }

-- `--backoff-factor 1.5 listen --scanner scanner:8612 scan.sh`
abbrev options : Options
options = record {
  max_waiting = none;
  verbose = 0;
  quiet = false;
  listen = some (record {
    scanner = codes "scanner:8612";
    hostname = none;
    backoff_factor = some (codes "1.5");
    backoff_maximum = none;
    command = "scan.sh";
    args = [];
  });
}

-- The name "pc" and thirty NULs.
abbrev config : ListenConfig
config = record {
  scanner_addr = address;
  hostname = record { octets = 0 ∷ b'p' ∷ 0 ∷ b'c' ∷ replicate 60 0 };
  initial_max_waiting = 5;
  backoff_factor = record { units = 3 * 2 ^ 148 };
  backoff_maximum = 1800;
  command = ("scan.sh", []);
}

started : main big system options ≡ ok (listening config)
unfolding main parse_cli parse_command parse_listen parse_addr parse_factor is_finite
    is_greater_than_one magnitude at_least_one or_default start parse_f32 excess round_to host_new
    host_buffer fill_loop copy_at encode_utf16 len_utf16 to_be units_to_bytes
started = refl

-- A network that is silent, and every call of the socket goes well.
abbrev silent : Machine digits_time
silent = record {
  network = record { peer_addr = λ _. some address; send = λ _ _ _. done tt; recv = λ _ _. late };
  now = λ _. new_year;
  spawn = λ _. true;
}

abbrev willing : Kernel
willing = record { allows = λ _ _. true; local_addr = λ _. some address; recv_from = λ _. none }

main_listens_example :
    Ends {E = Failure}
      (λ self effects. IsRunning config 3 self effects × IsKnown (some address) 3)
      (IsUnconnected address [])
      ((some address ≡ none) × (1 ≤ 3))
      (listen willing silent config 3 [])
main_listens_example =
    main_listens big system options config started silent (λ _. new_year-HasText) (some address)
      (λ _. refl) willing 3

-- A factor that does not make a back off longer, and a time of no seconds.
refused :
    (parse_factor (codes "1") ≡ err (not_in_range (codes "1")))
    × (parse_factor (codes "inf") ≡ err (not_in_range (codes "inf")))
    × (main big system (record options { max_waiting = some 0 }) ≡ err (out_of_bounds 0))
unfolding main parse_cli parse_factor is_finite is_greater_than_one at_least_one or_default
    parse_f32 excess round_to
refused = (refl, refl, refl)
