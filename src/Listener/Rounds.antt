-- ===== src/Listener/Rounds.antt =====
-- src/poll.rs: the rounds of `listen`: on a socket that knows its peer they follow the transitions of the state
-- machine, and keep the time of a back off in bounds.
use Prim.Native.Nat.{min}
use mathlib.Core.Path.{subst}
use scanner_button.Prelude.{
  ℕ, zero, suc, ◌≡◌, ◌≤◌, ◌⊎◌, refl, sym, ◌∙◌, inl, inr, some, List, arith,
}
use scanner_button.Rust.Outcome.{Outcome}
use scanner_button.Rust.Float.{mul, f32_of_u64, u64_of_f32}
use scanner_button.Rust.Triples.{Post, returns, fails}
use scanner_button.Poll.Command.{TimeCrate, HasText}
use scanner_button.Channel.{Event, HasPeer, Failure}
use scanner_button.Listener.Launch.{ListenConfig}
use scanner_button.Listener.Handlers.{
  Machine, State, Listener, next, transit_err, state_after_err, settle, listen_round, listen_rounds,
}
use scanner_button.Listener.Frame.{Frame}
use scanner_button.Listener.Steps.{next-Yields}

-- The transitions: what works leads to polling; what fails, to the start while polling, and
-- otherwise to a back off, whose time is scaled by the factor and cut at the maximum.
pub data IsStep (config : ListenConfig) : State → State → Type 0 where
  opened : IsStep config State.init State.poll
  not_opened : IsStep config State.init (State.backoff config.initial_max_waiting)
  polled : IsStep config State.poll State.poll
  lost : IsStep config State.poll State.init
  recovered : (d : ℕ) → IsStep config (State.backoff d) State.poll
  not_recovered :
      (d : ℕ)
      → IsStep config (State.backoff d) (
          State.backoff
            (min config.backoff_maximum (u64_of_f32 (mul (f32_of_u64 d) config.backoff_factor))))

pub data Reaches (config : ListenConfig) : ℕ → State → State → Type 0 where
  here : (st : State) → Reaches config 0 st st
  more :
      (n : ℕ) (a b c : State)
      → IsStep config a b
      → Reaches config n b c
      → Reaches config (suc n) a c

to_poll : (config : ListenConfig) (st : State) → IsStep config st State.poll
to_poll config State.init = opened
to_poll config State.poll = polled
to_poll config (State.backoff d) = recovered d

after_err : (config : ListenConfig) (st : State) → IsStep config st (state_after_err config st)
unfolding state_after_err
after_err config State.init = not_opened
after_err config State.poll = lost
after_err config (State.backoff d) = not_recovered d

abbrev pub Advances : Listener → Listener → Type 0
Advances self self' = IsStep self.config self.state self'.state × (self'.config ≡ self.config)

settle-Advances :
    (self : Listener) (r : Outcome State Failure × Listener)
    → Post {A = State} (λ st self'. (st ≡ State.poll) × Frame self self') (Frame self) r
    → (self' : Listener) × (settle r ≡ some self') × Advances self self'
unfolding transit_err
settle-Advances self r (returns st s (e, frame)) = (
  _,
  refl,
  (
    subst (IsStep self.config self.state) (sym e) (to_poll self.config self.state),
    frame.same_config,
  ),
)
settle-Advances self r (fails x s frame) = (
  transit_err s,
  refl,
  (rw (frame.same_config, frame.same_state) (after_err self.config self.state), frame.same_config),
)

-- The seconds of a back off are at most the initial ones or the maximum.
abbrev pub IsBounded : ListenConfig → State → Type 0
IsBounded config (State.backoff d) = (d ≤ config.initial_max_waiting) ⊎ (d ≤ config.backoff_maximum)
IsBounded config _ = Unit

step-IsBounded : (config : ListenConfig) (a b : State) → IsStep config a b → IsBounded config b
step-IsBounded config a b opened = tt
step-IsBounded config a b not_opened = inl (omega arith)
step-IsBounded config a b polled = tt
step-IsBounded config a b lost = tt
step-IsBounded config a b (recovered d) = tt
step-IsBounded config a b (not_recovered d) = inr (omega arith)

pub Reaches-IsBounded :
    (config : ListenConfig) (n : ℕ) (a b : State)
    → IsBounded config a
    → Reaches config n a b
    → IsBounded config b
Reaches-IsBounded config n a b h (here st) = h
Reaches-IsBounded config n a c h (more k _ b _ step path) =
    Reaches-IsBounded config k b c (step-IsBounded config a b step) path

module _ {t : TimeCrate} (m : Machine t) (peers : (log : List Event) → HasPeer m.network log)
    (dated : (log : List Event) → HasText t (m.now log)) where
  pub listen_round-Advances :
      (self : Listener)
      → (self' : Listener) × (listen_round m self ≡ some self') × Advances self self'
  unfolding listen_round
  listen_round-Advances self = settle-Advances self (next m self) (next-Yields m peers dated self)

  -- Whatever the network, the clock and the programs do, if the socket knows its peer and every date
  -- has a text: from any listener, any number of rounds is reached without a panic, by as many
  -- transitions of the state machine, under the same configuration.
  pub listen_rounds-Reaches :
      (n : ℕ) (self : Listener)
      → (self' : Listener) × (listen_rounds m n self ≡ some self')
        × Reaches self.config n self.state self'.state
        × (self'.config ≡ self.config)
  unfolding listen_rounds
  listen_rounds-Reaches zero self = (self, refl, here self.state, refl)
  listen_rounds-Reaches (suc n) self =
      let (one, e, (step, same)) = listen_round-Advances self in
      let (last, f, path, kept) = listen_rounds-Reaches n one in
      (
        last,
        rw (listen_rounds, e) f,
        more n self.state one.state last.state step
            (subst (λ c. Reaches c n one.state last.state) same path),
        kept ∙ same,
      )
