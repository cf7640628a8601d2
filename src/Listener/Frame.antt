-- ===== src/Listener/Frame.antt =====
-- src/poll.rs: what the calls of the listener leave alone, and that they do not panic.
use scanner_button.Prelude.{◌≡◌, ◌≢◌, refl, ◌∙◌}
use scanner_button.Rust.Outcome.{Outcome, ok, err, panic}
use scanner_button.Rust.Run.{Run, ◌>>=◌, pure, lift, get}
use scanner_button.Rust.Triples.{Post, returns, fails, continue-Post}
use scanner_button.Channel.{Event, Failure, Channel}
use scanner_button.Listener.Handlers.{Listener, on_channel, log_event}

pub record Frame (self self' : Listener) : Type 0 where
  pub same_config : self'.config ≡ self.config
  pub same_state : self'.state ≡ self.state

pub Frame-refl : (self : Listener) → Frame self self
Frame-refl self = record { same_config = refl; same_state = refl }

Frame-trans : (a b c : Listener) → Frame a b → Frame b c → Frame a c
Frame-trans a b c p q = record {
  same_config = q.same_config ∙ p.same_config;
  same_state = q.same_state ∙ p.same_state;
}

-- The call does not panic, and what it returns is `good`; on both ways out the configuration and
-- the state are the same.
abbrev pub Yields : {A : Type 0} → (A → Type 0) → Run Listener Failure A → Type 0
Yields {A} good call =
    (self : Listener) → Post {A = A} (λ a self'. good a × Frame self self') (Frame self) (call self)

abbrev pub Any : {A : Type 0} → A → Type 0
Any a = Unit

extend :
    {A : Type 0} {good : A → Type 0} (a b : Listener) (r : Outcome A Failure × Listener)
    → Frame a b
    → Post (λ x c. good x × Frame b c) (Frame b) r
    → Post (λ x c. good x × Frame a c) (Frame a) r
extend a b r p (returns x s (h, q)) = returns x s (h, Frame-trans a b s p q)
extend a b r p (fails e s q) = fails e s (Frame-trans a b s p q)

pub Yields-bind :
    {A B : Type 0} {good : A → Type 0} {good' : B → Type 0} (call : Run Listener Failure A)
    (next : A → Run Listener Failure B)
    → Yields good call
    → ((a : A) → good a → Yields good' (next a))
    → Yields good' (call >>= next)
Yields-bind call next h rest self =
    continue-Post (call self) next (h self) (λ a s g. extend self s (next a s) g.1 (rest a g.0 s))

pub Yields-pure : {A : Type 0} {good : A → Type 0} (a : A) → good a → Yields good (pure a)
Yields-pure a h self = returns a self (h, Frame-refl self)

pub Yields-get : Yields Any get
Yields-get self = returns self self (tt, Frame-refl self)

pub Yields-lift : {A : Type 0} (r : Outcome A Failure) → r ≢ panic → Yields Any (lift r)
Yields-lift (ok a) h self = returns a self (tt, Frame-refl self)
Yields-lift (err e) h self = fails e self (Frame-refl self)
Yields-lift panic h self = absurd (h refl)

framed :
    {A : Type 0} {good : A → Channel → Type 0} {bad : Channel → Type 0}
    (call : Run Channel Failure A) (self : Listener) (r : Outcome A Failure × Channel)
    → call self.channel ≡ r
    → Post good bad r
    → Post {A = A} (λ a self'. Any a × Frame self self') (Frame self) (on_channel call self)
framed call self r e (returns a c h) =
    rw e (returns a _ (tt, record { same_config = refl; same_state = refl }))
framed call self r e (fails x c h) =
    rw e (fails x _ (record { same_config = refl; same_state = refl }))

-- What a call on the channel does, it does to the channel.
pub Yields-on_channel :
    {A : Type 0} {good : Channel → A → Channel → Type 0} {bad : Channel → Channel → Type 0}
    (call : Run Channel Failure A)
    → ((c : Channel) → Post (good c) (bad c) (call c))
    → Yields Any (on_channel call)
Yields-on_channel call h self = framed call self (call self.channel) refl (h self.channel)

pub Yields-log_event : (e : Event) → Yields Any (log_event e)
Yields-log_event e self = returns tt _ (tt, record { same_config = refl; same_state = refl })
