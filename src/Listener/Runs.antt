-- ===== src/Listener/Runs.antt =====
-- src/poll.rs: a whole run of `listen`, from the socket on.
use scanner_button.Prelude.{
  ℕ, zero, suc, ◌≡◌, ◌≤◌, ◌⊎◌, refl, ap, ◌∙◌, List, [], inl, inr, Option, none, some, Option-cases,
  arith,
}
use scanner_button.Rust.Outcome.{unwrap_option}
use scanner_button.Rust.Triples.{
  Post, returns, Ends, ends_ok, ends_panic, continue-Post, continue-Ends,
}
use scanner_button.Serdes.Traits.{empty, empty_serialize}
use scanner_button.Header.{PayloadType}
use scanner_button.Poll.Command.{TimeCrate, HasText}
use scanner_button.Channel.{
  Event, Failure, Effect, Kernel, channel_new, SocketAddr, HasPeer, reset_sequence,
}
use scanner_button.Channel.Sends.{send-unknown_peer}
use scanner_button.Channel.Connects.{fresh, connected_to, IsUnconnected, channel_new-Post}
use scanner_button.Listener.Launch.{ListenConfig}
use scanner_button.Listener.Handlers.{
  Machine, State, Listener, listen_rounds, listen_round, next, next_from, try_init,
}
use scanner_button.Listener.Listen.{listener_on, listener_new, listen}
use scanner_button.Listener.Rounds.{
  Reaches, here, IsBounded, Reaches-IsBounded, listen_rounds-Reaches,
}

-- A listener after `n` rounds from the start.
pub record IsListening (config : ListenConfig) (n : ℕ) (self : Listener) (effects : List Effect)
    : Type 0 where
  pub socket : effects ≡ connected_to config.scanner_addr []
  pub path : Reaches config n State.init self.state
  pub bounded : IsBounded config self.state
  pub same_config : self.config ≡ config

-- The socket knows its peer, or there was no round that asks for it.
abbrev pub IsKnown : Option SocketAddr → ℕ → Type 0
IsKnown peer n = (n ≡ 0) ⊎ ((address : SocketAddr) × (peer ≡ some address))

listener_new-Post :
    (kernel : Kernel) (config : ListenConfig)
    → Post {E = Failure}
        (λ self effects.
          (self ≡ listener_on config fresh) × (effects ≡ connected_to config.scanner_addr []))
        (IsUnconnected config.scanner_addr [])
        (listener_new kernel config [])
unfolding listener_new
listener_new-Post kernel config =
    continue-Post (channel_new kernel config.scanner_addr []) _
      (channel_new-Post kernel config.scanner_addr [])
      λ channel effects (new, socket). returns _ effects (ap (listener_on config) new, socket)

module _ {t : TimeCrate} (m : Machine t) (dated : (log : List Event) → HasText t (m.now log))
    (peer : Option SocketAddr)
    (same_peer : (log : List Event) → m.network.peer_addr log ≡ peer) where
  -- On a socket without a known peer, the first send of the first round panics.
  first_send_panics :
      (config : ListenConfig) (n : ℕ)
      → peer ≡ none
      → listen_rounds m (suc n) (listener_on config fresh) ≡ none
  unfolding listen_rounds listen_round next next_from try_init reset_sequence
  first_send_panics config n unknown = rw (
    listen_rounds,
    send-unknown_peer m.network config.initial_max_waiting PayloadType.discover empty fresh
        (same_peer [] ∙ unknown),
  )

  rounds-IsListening :
      (config : ListenConfig) (n : ℕ) (effects : List Effect)
      → effects ≡ connected_to config.scanner_addr []
      → Ends {E = Failure}
          (λ self s. IsListening config n self s × IsKnown peer n)
          (IsUnconnected config.scanner_addr [])
          ((peer ≡ none) × (1 ≤ n))
          (unwrap_option (listen_rounds m n (listener_on config fresh)), effects)
  unfolding listen_rounds
  rounds-IsListening config zero effects socket = ends_ok (listener_on config fresh) effects (
    record { socket = socket; path = here State.init; bounded = tt; same_config = refl },
    inl refl,
  )
  rounds-IsListening config (suc n) effects socket = elim (Option-cases peer) [
    | inl unknown ↦
        rw (first_send_panics config n unknown) (ends_panic effects (unknown, omega arith))
    | inr (address, known) ↦
        let peers : (log : List Event) → HasPeer m.network log =
          λ log. (address, same_peer log ∙ known) in
        let (self, e, path, kept) =
          listen_rounds-Reaches m peers dated (suc n) (listener_on config fresh) in
        rw e (
          ends_ok self effects (
            record {
              socket = socket;
              path = path;
              bounded = Reaches-IsBounded config (suc n) State.init self.state tt path;
              same_config = kept;
            },
            inr (address, known),
          ))
  ]

  -- Whatever the kernel, the network, the clock and the programs do, if every date has a text, and
  -- the socket knows the same peer all the time, or none. Either `listen` cannot bind or connect its
  -- socket. Or a round was tried, the socket does not know its peer, and `listen` panics. Or the peer
  -- is known, or no round was tried, and after any number of rounds `listen` still runs, on a socket
  -- that is connected to the scanner, by that many transitions of the state machine from the start,
  -- and a back off lasts at most the initial time or the maximum.
  pub listen-IsListening :
      (kernel : Kernel) (config : ListenConfig) (n : ℕ)
      → Ends {E = Failure}
          (λ self effects. IsListening config n self effects × IsKnown peer n)
          (IsUnconnected config.scanner_addr [])
          ((peer ≡ none) × (1 ≤ n))
          (listen kernel m config n [])
  unfolding listen
  listen-IsListening kernel config n =
      continue-Ends (listener_new kernel config []) _ (listener_new-Post kernel config)
        λ listener effects (new, socket). rw new (rounds-IsListening config n effects socket)
