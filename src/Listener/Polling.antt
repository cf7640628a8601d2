-- ===== src/Listener/Polling.antt =====
-- src/poll.rs: a round in the state `Poll`, with the button not pressed and pressed.
use scanner_button.Prelude.{
  ℕ, ◌≡◌, ◌≢◌, Option, none, some, ◌∷◌, arith, false, ◌==◌, if◌then◌else◌, inl, inr, Option-cases,
  Bool-cases,
}
use scanner_button.Rust.Outcome.{ok}
use scanner_button.Header.{PayloadType}
use scanner_button.Poll.Command.{TimeCrate, Command, command_serialize}
use scanner_button.Poll.Response.{Response, Interrupt, response_deserialize}
use scanner_button.Channel.{Channel, launched, slept, send, recv}
use scanner_button.Listener.Launch.{environment}
use scanner_button.Listener.Handlers.{
  Machine, State, Listener, send_poll, recv_poll, launch, serve_job, poll_once,
}
use scanner_button.Listener.Steps.{full_builds, reset_builds}

-- The session of a response, or else the one before.
abbrev pub session_or : ℕ → Option ℕ → ℕ
session_or old none = old
session_or old (some new) = new

-- The channel after a second of sleep.
abbrev pub rested : Channel → Channel
rested c = record c { log = slept 1 ∷ c.log }

module _ {t : TimeCrate} (m : Machine t) (self : Listener) where
  abbrev pub full_command : Command t
  full_command = Command.full (record {
    session_id = self.session_id;
    host = self.config.hostname;
    datetime = m.now self.channel.log;
  })

  -- A poll that is answered with any status but 0x8000, bit 15 set or not: one poll command with the
  -- current session and time is sent, one response is received, the session is the response's if it
  -- has one, and after a second the listener polls again. No program is started and nothing is reset.
  pub poll_once_idle :
      (c1 c2 : Channel) (resp : Response)
      → send m.network self.config.initial_max_waiting PayloadType.poll full_command self.channel
        ≡ (ok tt, c1)
      → recv m.network self.config.initial_max_waiting c1 ≡ (ok resp, c2)
      → resp.status ≢ 0x8000
      → poll_once m self ≡ (
        ok State.poll,
        record self {
          channel = rested c2;
          session_id = session_or self.session_id resp.session_id;
        },
      )
  unfolding poll_once send_poll recv_poll
  poll_once_idle c1 c2 resp sends receives other =
      let quiet : (resp.status == 0x8000) ≡ false = ground arith in
      let builds =
        full_builds {t = t} self.config.hostname self.session_id (m.now self.channel.log) in
      elim (Option-cases resp.session_id) [
        | inl e ↦ rw (builds, sends, receives, quiet, e)
        | inr (session_id, e) ↦ rw (builds, sends, receives, quiet, e)
      ]

  -- The channel after the command was launched for an interrupt: an event if it started.
  abbrev pub with_launch : Interrupt → Channel → Channel
  with_launch i c =
      if m.spawn c.log
      then record c {
        log = launched self.config.command.0 self.config.command.1 (environment i) ∷ c.log;
      }
      else c

  abbrev pub reset_command : ℕ → Command t
  reset_command action_id =
      Command.reset (record {
        session_id = self.session_id;
        host = self.config.hostname;
        action_id = action_id;
      })

  -- A poll that is answered with the status 0x8000, an interrupt and an action: the command is
  -- launched with the interrupt's environment, and whether it started or not, the job is reset with
  -- the response's action and the session that the listener had; once that is answered, whatever
  -- the answer says, the listener rests for a second and polls again.
  pub poll_once_pressed :
      (c1 c2 c3 c4 : Channel) (resp resp' : Response) (i : Interrupt) (action_id : ℕ)
      → send m.network self.config.initial_max_waiting PayloadType.poll full_command self.channel
        ≡ (ok tt, c1)
      → recv m.network self.config.initial_max_waiting c1 ≡ (ok resp, c2)
      → resp ≡ record {
        status = 0x8000;
        session_id = none;
        action_id = some action_id;
        interrupt = some i;
      }
      → send m.network self.config.initial_max_waiting PayloadType.poll
          (reset_command action_id)
          (with_launch i c2)
        ≡ (ok tt, c3)
      → recv m.network self.config.initial_max_waiting c3 ≡ (ok resp', c4)
      → poll_once m self ≡ (ok State.poll, record self { channel = rested c4 })
  unfolding poll_once send_poll recv_poll serve_job launch
  poll_once_pressed c1 c2 c3 c4 resp resp' i action_id sends receives pressed resets answers =
      let builds =
        full_builds {t = t} self.config.hostname self.session_id (m.now self.channel.log) in
      let rebuilds = reset_builds {t = t} self.config.hostname self.session_id action_id in
      elim (Bool-cases (m.spawn c2.log)) [
        | inl e ↦ rw (builds, sends, receives, pressed, e, rebuilds, rw e at resets, answers)
        | inr e ↦ rw (builds, sends, receives, pressed, e, rebuilds, rw e at resets, answers)
      ]
