-- ===== src/Listener/Steps.antt =====
-- src/poll.rs: the state machine of the listener. On a socket that knows its peer it never panics,
-- and its states follow the
-- transitions that are listed here.
use scanner_button.Prelude.{
  ℕ, ◌≡◌, ◌≢◌, refl, Option, none, some, List, Bool, true, false, ◌==◌, if◌then◌else◌,
}
use scanner_button.Rust.Outcome.{Outcome, err, panic, ok_or}
use scanner_button.Rust.Run.{pure, lift, modify}
use scanner_button.Rust.Triples.{Post, returns, fails}
use scanner_button.Serdes.Traits.{empty_serialize}
use scanner_button.Header.{PayloadType}
use scanner_button.Poll.Command.{
  Command, TimeCrate, HasText, PollType, new, build, with_host, with_session_id, with_action_id,
  with_datetime,
}
use scanner_button.Poll.Host.{Host}
use scanner_button.Poll.Response.{Response, Interrupt}
use scanner_button.Channel.{
  Event, HasPeer, Failure, unexpected_interrupt, not_launched, reset_sequence, launched, slept,
}
use scanner_button.Listener.Launch.{environment}
use scanner_button.Listener.Handlers.{
  Machine, State, Listener, on_channel, try_init, launch, launch_some, update_session, or_zero,
  serve_job, poll_once, next_from, next, forget, log_event,
}
use scanner_button.Listener.Frame.{
  Frame, Frame-refl, Yields, Any, Yields-bind, Yields-lift, Yields-get, Yields-pure,
  Yields-log_event,
}
use scanner_button.Listener.Calls.{
  send_empty-Yields, send_poll-Yields, recv_poll-Yields, recv_discover-Yields,
}

-- The commands of the listener are complete.
module _ {t : TimeCrate} where
  pub host_only_builds :
      (host : Host)
      → build (with_host (new t PollType.host_only) host)
        ≡ some (Command.host_only (record { host = host }))
  unfolding build new with_host
  host_only_builds host = refl

  pub full_builds :
      (host : Host) (session_id : ℕ) (datetime : t.DateTime)
      → build (
          with_datetime
            (with_session_id (with_host (new t PollType.full) host) session_id)
            datetime)
        ≡ some (Command.full (record { session_id = session_id; host = host; datetime = datetime }))
  unfolding build new with_host with_session_id with_datetime
  full_builds host session_id datetime = refl

  pub reset_builds :
      (host : Host) (session_id action_id : ℕ)
      → build (
          with_action_id
            (with_session_id (with_host (new t PollType.reset) host) session_id)
            action_id)
        ≡ some
            (Command.reset (record { session_id = session_id; host = host; action_id = action_id }))
  unfolding build new with_host with_session_id with_action_id
  reset_builds host session_id action_id = refl

module _ {t : TimeCrate} (m : Machine t) (peers : (log : List Event) → HasPeer m.network log) where
  ok_or-ne-panic : {A E : Type 0} (o : Option A) (e : E) → ok_or o e ≢ panic
  ok_or-ne-panic none e h = cc
  ok_or-ne-panic (some a) e h = cc

  reset_sequence-Yields : Yields Any (on_channel reset_sequence)
  unfolding reset_sequence
  reset_sequence-Yields self = returns tt _ (tt, record { same_config = refl; same_state = refl })

  modify_session-Yields :
      (session_id : ℕ) → Yields Any (modify λ self. record self { session_id = session_id })
  modify_session-Yields session_id self =
      returns tt _ (tt, record { same_config = refl; same_state = refl })

  try_init-Yields : (max_waiting : ℕ) → Yields Any (try_init m max_waiting)
  unfolding try_init
  try_init-Yields max_waiting = Yields-bind _ _ reset_sequence-Yields λ _ _.
      Yields-bind _ _ (send_empty-Yields m.network max_waiting PayloadType.discover peers) λ _ _.
        Yields-bind _ _ (recv_discover-Yields m peers max_waiting) λ _ _.
          Yields-bind _ _ Yields-get λ self _.
            Yields-bind _ _
              (send_poll-Yields m peers max_waiting _ _ (host_only_builds self.config.hostname) tt)
              λ _ _. Yields-bind _ _ (recv_poll-Yields m peers max_waiting) λ resp _.
                Yields-bind _ _
                  (Yields-lift (ok_or resp.session_id unexpected_interrupt) (ok_or-ne-panic _ _))
                  λ session_id _. modify_session-Yields session_id

  spawn-Yields :
      (started : Bool) (e : Event)
      → Yields Any (if started then log_event e else lift (err not_launched))
  spawn-Yields true e self = Yields-log_event e self
  spawn-Yields false e self = fails not_launched self (Frame-refl self)

  launch-Yields : (interrupt : Interrupt) → Yields Any (launch m interrupt)
  unfolding launch
  launch-Yields interrupt = Yields-bind _ _ Yields-get λ self _.
      spawn-Yields (m.spawn self.channel.log)
        (launched self.config.command.0 self.config.command.1 (environment interrupt))

  forget-Post :
      (self : Listener) (r : Outcome (Unit {0}) Failure × Listener)
      → Post {A = Unit {0}} (λ a self'. Any a × Frame self self') (Frame self) r
      → Post {A = Unit {0}} (λ a self'. Any a × Frame self self') (Frame self) (forget r)
  forget-Post self r (returns a s h) = returns tt s h
  forget-Post self r (fails e s h) = returns tt s (tt, h)

  launch_some-Yields : (interrupt : Option Interrupt) → Yields Any (launch_some m interrupt)
  launch_some-Yields none self = Yields-pure tt tt self
  launch_some-Yields (some interrupt) self =
      forget-Post self (launch m interrupt self) (launch-Yields interrupt self)

  update_session-Yields : (session_id : Option ℕ) → Yields Any (update_session session_id)
  update_session-Yields none = Yields-pure tt tt
  update_session-Yields (some session_id) = modify_session-Yields session_id

  serve_job-Yields : (max_waiting : ℕ) (resp : Response) → Yields Any (serve_job m max_waiting resp)
  unfolding serve_job
  serve_job-Yields max_waiting resp = Yields-bind _ _ (launch_some-Yields resp.interrupt) λ _ _.
      Yields-bind _ _ Yields-get λ self _.
        Yields-bind _ _
          (send_poll-Yields m peers max_waiting _ _
            (reset_builds self.config.hostname self.session_id (or_zero resp.action_id)) tt)
          λ _ _. Yields-bind _ _ (recv_poll-Yields m peers max_waiting) λ _ _. Yields-pure tt tt

  job-Yields :
      (pressed : Bool) (max_waiting : ℕ) (resp : Response)
      → Yields Any (if pressed then serve_job m max_waiting resp else pure tt)
  job-Yields true max_waiting resp = serve_job-Yields max_waiting resp
  job-Yields false max_waiting resp = Yields-pure tt tt

  module _ (dated : (log : List Event) → HasText t (m.now log)) where
    poll_once-Yields : Yields (λ st. st ≡ State.poll) (poll_once m)
    unfolding poll_once
    poll_once-Yields = Yields-bind _ _ Yields-get λ self _.
        Yields-bind _ _
          (send_poll-Yields m peers self.config.initial_max_waiting _ _
            (full_builds self.config.hostname self.session_id (m.now self.channel.log))
            (dated self.channel.log))
          λ _ _.
            Yields-bind _ _ (recv_poll-Yields m peers self.config.initial_max_waiting) λ resp _.
              Yields-bind _ _ (update_session-Yields resp.session_id) λ _ _.
                Yields-bind _ _
                  (job-Yields (resp.status == 0x8000) self.config.initial_max_waiting resp)
                  λ _ _.
                    Yields-bind _ _ (Yields-log_event (slept 1)) λ _ _. Yields-pure State.poll refl

    next_from-Yields : (state : State) → Yields (λ st. st ≡ State.poll) (next_from m state)
    unfolding next_from
    next_from-Yields State.init = Yields-bind _ _ Yields-get λ self _.
        Yields-bind _ _ (try_init-Yields self.config.initial_max_waiting)
          λ _ _. Yields-pure State.poll refl
    next_from-Yields State.poll = poll_once-Yields
    next_from-Yields (State.backoff duration) =
        Yields-bind _ _ (try_init-Yields duration) λ _ _. Yields-pure State.poll refl

    pub next-Yields : Yields (λ st. st ≡ State.poll) (next m)
    unfolding next
    next-Yields = Yields-bind _ _ Yields-get λ self _. next_from-Yields self.state
