-- ===== src/Main/Program.antt =====
-- src/main.rs and src/poll.rs: the program from its command line on.
use Prim.Native.Nat.{min}
use scanner_button.Prelude.{ℕ, ◌≡◌, ◌≤◌, arith, List, [], Option, none}
use scanner_button.Rust.Outcome.{ok}
use scanner_button.Rust.Triples.{Ends, weaken-Ends}
use scanner_button.Poll.Host.{Endian}
use scanner_button.Poll.Command.{TimeCrate, HasText}
use scanner_button.Channel.{Event, Failure, Effect, Kernel, SocketAddr}
use scanner_button.Channel.Connects.{IsUnconnected}
use scanner_button.Listener.{ListenConfig, State, Machine, Listener, listen}
use scanner_button.Listener.Rounds.{
  IsStep, opened, not_opened, polled, lost, recovered, not_recovered, Reaches, here, more,
}
use scanner_button.Listener.Runs.{IsListening, IsKnown, listen-IsListening}
use scanner_button.Main.Args.{Options, System, listening, main}
use scanner_button.Main.Patience.{IsPatient, main-IsPatient}

-- The least seconds of a back off.
abbrev pub shortest : ListenConfig → ℕ
shortest config = min (min config.initial_max_waiting 0xffffff) config.backoff_maximum

abbrev pub IsLong : ListenConfig → State → Type 0
IsLong config (State.backoff d) = shortest config ≤ d
IsLong config _ = Unit

step-IsLong :
    (config : ListenConfig) (a b : State)
    → IsPatient config
    → IsLong config a
    → IsStep config a b
    → IsLong config b
step-IsLong config a b p h opened = tt
step-IsLong config a b p h not_opened = omega arith
step-IsLong config a b p h polled = tt
step-IsLong config a b p h lost = tt
step-IsLong config a b p h (recovered d) = tt
step-IsLong config a b p h (not_recovered d) = omega (arith, p.grows d)

Reaches-IsLong :
    (config : ListenConfig) (n : ℕ) (a b : State)
    → IsPatient config
    → IsLong config a
    → Reaches config n a b
    → IsLong config b
Reaches-IsLong config n a b p h (here st) = h
Reaches-IsLong config n a c p h (more k _ b _ step path) =
    Reaches-IsLong config k b c p (step-IsLong config a b p h step) path

-- A listener that runs, whose back off is neither too long nor too short.
pub record IsRunning (config : ListenConfig) (n : ℕ) (self : Listener) (effects : List Effect)
    : Type 0 where
  pub listens : IsListening config n self effects
  pub lasts : IsLong config self.state
  pub positive : 1 ≤ shortest config

running :
    (config : ListenConfig) (n : ℕ)
    → IsPatient config
    → (self : Listener) (effects : List Effect) → IsListening config n self effects
    → IsRunning config n self effects
running config n p self effects h = record {
  listens = h;
  lasts = Reaches-IsLong config n State.init self.state p tt h.path;
  positive = omega (arith, p.initial_positive, p.maximum_positive);
}

-- If the command line is accepted and starts a listener, every date has a text, and the socket knows
-- the same peer all the time, or none, then whatever the kernel, the network, the clock and the
-- programs do: its socket is not connected; or a round was tried, the socket does not know its peer,
-- and the program panics; or the peer is known, or no round was tried, and after any number of rounds
-- it listens, and each back off lasts at least a second, and at least the least of the initial time,
-- the maximum and 2 ^ 24 - 1 seconds.
pub main_listens :
    (e : Endian) (system : System) (o : Options) (config : ListenConfig)
    → main e system o ≡ ok (listening config)
    → {t : TimeCrate} (m : Machine t) → ((log : List Event) → HasText t (m.now log))
    → (peer : Option SocketAddr) → ((log : List Event) → m.network.peer_addr log ≡ peer)
    → (kernel : Kernel) (n : ℕ)
    → Ends {E = Failure}
        (λ self effects. IsRunning config n self effects × IsKnown peer n)
        (IsUnconnected config.scanner_addr [])
        ((peer ≡ none) × (1 ≤ n))
        (listen kernel m config n [])
main_listens e system o config h m dated peer same_peer kernel n =
    weaken-Ends (listen-IsListening m dated peer same_peer kernel config n)
      λ self effects (listens, known).
        (running config n (main-IsPatient e system o config h) self effects listens, known)
