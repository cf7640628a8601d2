-- ===== src/Listener/Serving.antt =====
-- src/poll.rs: a round in the state `Poll` whose answer says that the button was pressed.
use scanner_button.Prelude.{
  ℕ, ◌+◌, ◌%◌, ◌<◌, ◌≤◌, ◌≡◌, refl, sym, ap, ◌∙◌, none, some, String, List, [], ◌∷◌, ◌++◌, arith,
  length, take, inl, inr, Bool-cases, if◌then◌else◌, Bool,
}
use mathlib.Core.Path.{subst}
use scanner_button.Rust.Outcome.{ok}
use scanner_button.Rust.Word.{IsU32}
use scanner_button.Poll.Host.Buffer.{IsHost}
use scanner_button.Poll.Command.{
  TimeCrate, HasText, Command, command_serialize, command_deserialize,
}
use scanner_button.Poll.Command.RoundTrip.{}
use scanner_button.Poll.Response.{Response, Interrupt, response_deserialize}
use scanner_button.Channel.{Event, sent, received, launched, slept, HasPeer, done, Channel}
use scanner_button.Channel.Receives.{Replies, recv-done, after}
use scanner_button.Listener.Handlers.{Machine, State, Listener, poll_once}
use scanner_button.Listener.Carried.{Carries, command_sent}
use scanner_button.Listener.Polling.{
  full_command, reset_command, with_launch, rested, poll_once_pressed,
}
use scanner_button.Listener.Launch.{environment}
use scanner_button.Listener.Environment.{IsEnvironment, environment-IsEnvironment}

-- The event of a command that started.
abbrev pub launches : Bool → String × List String → List (String × String) → List Event
launches started (command, args) env = if started then launched command args env ∷ [] else []

-- The listener polled; the answer was the pressed button; it launched the command for the interrupt,
-- reset the job, got an answer and slept for a second.
pub record IsServed {t : TimeCrate} (m : Machine t) (i : Interrupt) (action_id : ℕ)
    (self self' : Listener) : Type 0 where
  pub polled : List ℕ
  pub answer : List ℕ
  pub reset : List ℕ
  pub reset_answer : List ℕ
  pub env : List (String × String)
  pub conversation :
      self'.channel.log
      ≡ slept 1
        ∷ received reset_answer
        ∷ sent reset
        ∷ (launches
              (m.spawn (received answer ∷ sent polled ∷ self.channel.log))
              self.config.command
              env
            ++ (received answer ∷ sent polled ∷ self.channel.log))
  pub documented : IsEnvironment i env
  pub poll_written : Carries {t = t} polled self.channel.sequence (
      Command.full (record {
        session_id = self.session_id;
        host = self.config.hostname;
        datetime = m.now self.channel.log;
      }))
  pub reset_written : Carries {t = t} reset ((self.channel.sequence + 1) % 65536) (
      Command.reset (record {
        session_id = self.session_id;
        host = self.config.hostname;
        action_id = action_id;
      }))
  pub same_session : self'.session_id ≡ self.session_id
  pub same_config : self'.config ≡ self.config

-- The answer of a scanner whose button was pressed.
abbrev pub pressed : Interrupt → ℕ → Response
pressed i action_id = record {
  status = 0x8000;
  session_id = none;
  action_id = some action_id;
  interrupt = some i;
}

module _ {t : TimeCrate} (m : Machine t) where
  launched_log :
      (self : Listener) (i : Interrupt) (channel : Channel)
      → (with_launch m self i channel).log
        ≡ launches (m.spawn channel.log) self.config.command (environment i) ++ channel.log
  launched_log self i channel = elim (Bool-cases (m.spawn channel.log)) [
    | inl e ↦ rw e refl
    | inr e ↦ rw e refl
  ]

  launched_sequence :
      (self : Listener) (i : Interrupt) (channel : Channel)
      → (with_launch m self i channel).sequence ≡ channel.sequence
  launched_sequence self i channel = elim (Bool-cases (m.spawn channel.log)) [
    | inl e ↦ rw e refl
    | inr e ↦ rw e refl
  ]

  launched_longer :
      (self : Listener) (i : Interrupt) (channel : Channel)
      → length channel.log ≤ length (with_launch m self i channel).log
  launched_longer self i channel = elim (Bool-cases (m.spawn channel.log)) [
    | inl e ↦ rw e (omega arith)
    | inr e ↦ rw e (omega arith)
  ]

  module _ (peers : (log : List Event) → HasPeer m.network log)
      (takes : (limit : ℕ) (log : List Event) (buffer : List ℕ)
        → m.network.send limit log buffer ≡ done tt) where
    -- On a network that takes every packet and knows its peer, with a host name of 64 bytes, numbers of
    -- 32 bits, and a date with a text: if the poll is answered with the status 0x8000, an interrupt
    -- and an action, and what is sent later is answered too, then the round ends well. The listener
    -- sent its full poll, launched its command with the seven variables that the help documents for
    -- the interrupt, whether it started or not sent a reset with the action and its session under the
    -- next number, received an answer, whatever it says, and slept for a second.
    pub poll_once-IsServed :
        (self : Listener) (i : Interrupt) (action_id : ℕ) (resp' : Response)
        → IsHost self.config.hostname
        → IsU32 self.session_id
        → IsU32 action_id
        → HasText t (m.now self.channel.log)
        → self.channel.sequence < 65536
        → ((buffer : List ℕ)
            → Replies {T = Response} m.network self.config.initial_max_waiting
                (sent buffer ∷ self.channel.log)
                (pressed i action_id))
        → ((log : List Event) (buffer : List ℕ)
            → length self.channel.log + 2 ≤ length log
            → Replies {T = Response} m.network self.config.initial_max_waiting
                (sent buffer ∷ log)
                resp')
        → (self' : Listener) × (poll_once m self ≡ (ok State.poll, self'))
          × IsServed m i action_id self self'
    poll_once-IsServed self i action_id resp' host session action dated n answers later =
        let limit = self.config.initial_max_waiting in
        let resp = pressed i action_id in
        let (c1, e1, b1, l1, w1, n1) =
          command_sent m limit (full_command m self) self.channel (session, host, dated) n
            (peers self.channel.log) (takes limit self.channel.log) in
        let r1 =
          subst (λ (log : List Event). Replies {T = Response} m.network limit log resp) (sym l1)
            (answers b1) in
        let c2 = after c1 r1.datagram in
        let c2' = with_launch m self i c2 in
        let numbered : c2'.sequence ≡ (self.channel.sequence + 1) % 65536 =
          launched_sequence self i c2 ∙ n1 in
        let (c3, e3, b3, l3, w3, n3) =
          command_sent m limit (reset_command m self action_id) c2' (session, host, action)
            (omega (arith, numbered)) (peers c2'.log) (takes limit c2'.log) in
        let longer : length self.channel.log + 2 ≤ length c2'.log =
          omega (arith, launched_longer self i c2, ap length l1) in
        let r3 =
          subst (λ (log : List Event). Replies {T = Response} m.network limit log resp') (sym l3)
            (later c2'.log b3 longer) in
        let c4 = after c3 r3.datagram in
        (
          record self { channel = rested c4 },
          poll_once_pressed m self c1 c2 c3 c4 resp resp' i action_id e1
              (recv-done m.network limit c1 resp r1) refl e3
              (recv-done m.network limit c3 resp' r3),
          record {
            polled = b1;
            answer = take 65536 r1.datagram;
            reset = b3;
            reset_answer = take 65536 r3.datagram;
            env = environment i;
            conversation =
                ap (λ (log : List Event). slept 1 ∷ received (take 65536 r3.datagram) ∷ log)
                  (l3
                    ∙ ap (λ (log : List Event). sent b3 ∷ log)
                        (launched_log self i c2
                          ∙ ap
                              (λ (log : List Event).
                                launches (m.spawn log) self.config.command (environment i) ++ log)
                              (ap (λ (log : List Event). received (take 65536 r1.datagram) ∷ log)
                                l1)));
            documented = environment-IsEnvironment i;
            poll_written = w1;
            reset_written = rw numbered at w3;
            same_session = refl;
            same_config = refl;
          },
        )
