-- ===== src/Listener/Handlers.antt =====
-- src/poll.rs: `Listener` and its state machine. src/utils.rs: `ignore_err`.
use Prim.Native.Nat.{min}
use scanner_button.Prelude.{ℕ, zero, suc, ◌==◌, Bool, Option, none, some, List, ◌∷◌, if◌then◌else◌}
use scanner_button.Rust.Outcome.{Outcome, ok, err, panic, ok_or, unwrap_option}
use scanner_button.Rust.Run.{Run, ◌>>=◌, ◌>>◌, pure, lift, get, modify}
use scanner_button.Rust.Float.{mul, f32_of_u64, u64_of_f32}
use scanner_button.Serdes.Traits.{empty, empty_serialize}
use scanner_button.Header.{PayloadType}
use scanner_button.Poll.Command.{TimeCrate, PollType, command_serialize, CommandBuilder}
use scanner_button.Poll.Command.{new, build, with_host, with_session_id, with_action_id}
use scanner_button.Poll.Command.{with_datetime}
use scanner_button.Poll.Response.{Response, response_deserialize, Interrupt}
use scanner_button.Discover
use scanner_button.Channel.{Event, Network, Failure, Channel, send, recv, reset_sequence, slept}
use scanner_button.Channel.{launched, unexpected_interrupt, not_launched}
use scanner_button.Listener.Launch.{ListenConfig, environment}

-- The outside: the socket, the clock, and whether a program starts.
pub record Machine (t : TimeCrate) : Type 0 where
  pub network : Network
  pub now : List Event → t.DateTime
  pub spawn : List Event → Bool

pub data State : Type 0 where
  init poll : State
  backoff : ℕ → State

pub record Listener : Type 0 where
  pub channel : Channel
  pub state : State
  pub session_id : ℕ
  pub config : ListenConfig

abbrev pub put_channel :
    {A : Type 0} → Listener → Outcome A Failure × Channel → Outcome A Failure × Listener
put_channel self (r, channel) = (r, record self { channel = channel })

-- A call on `self.channel`.
abbrev pub on_channel : {A : Type 0} → Run Channel Failure A → Run Listener Failure A
on_channel call = λ self. put_channel self (call self.channel)

abbrev pub log_event : Event → Run Listener Failure (Unit {0})
log_event e = on_channel (modify λ channel. record channel { log = e ∷ channel.log })

-- `utils::ignore_err`
abbrev pub forget :
    {A : Type 0} → Outcome A Failure × Listener → Outcome (Unit {0}) Failure × Listener
forget (ok a, self) = (ok tt, self)
forget (err e, self) = (ok tt, self)
forget (panic, self) = (panic, self)

abbrev pub ignore_err : {A : Type 0} → Run Listener Failure A → Run Listener Failure (Unit {0})
ignore_err call = λ self. forget (call self)

abbrev pub update_session : Option ℕ → Run Listener Failure (Unit {0})
update_session none = pure tt
update_session (some session_id) = modify λ self. record self { session_id = session_id }

abbrev pub or_zero : Option ℕ → ℕ
or_zero none = 0
or_zero (some n) = n

module _ {t : TimeCrate} (m : Machine t) where
  unfoldable pub send_poll : ℕ → CommandBuilder t → Run Listener Failure (Unit {0})
  send_poll limit builder = do
    command ← lift (unwrap_option (build builder))
    on_channel (send m.network limit PayloadType.poll command)

  unfoldable pub recv_poll : ℕ → Run Listener Failure Response
  recv_poll limit = on_channel (recv m.network limit)

  unfoldable pub recv_discover : ℕ → Run Listener Failure Discover.Response
  recv_discover limit = on_channel (recv ⦃d = Discover.response_deserialize⦄ m.network limit)

  unfoldable pub try_init : ℕ → Run Listener Failure (Unit {0})
  try_init max_waiting = do
    on_channel reset_sequence
    on_channel (send m.network max_waiting PayloadType.discover empty)
    recv_discover max_waiting
    self ← get
    send_poll max_waiting (with_host (new t PollType.host_only) self.config.hostname)
    resp ← recv_poll max_waiting
    session_id ← lift (ok_or resp.session_id unexpected_interrupt)
    modify λ self. record self { session_id = session_id }

  -- A command that does not start leaves no event; the error is logged and forgotten.
  unfoldable pub launch : Interrupt → Run Listener Failure (Unit {0})
  launch interrupt = do
    self ← get
    if m.spawn self.channel.log
        then log_event
            (launched self.config.command.0 self.config.command.1 (environment interrupt))
        else lift (err not_launched)

  abbrev pub launch_some : Option Interrupt → Run Listener Failure (Unit {0})
  launch_some none = pure tt
  launch_some (some interrupt) = ignore_err (launch interrupt)

  -- What a pressed button makes the listener do.
  unfoldable pub serve_job : ℕ → Response → Run Listener Failure (Unit {0})
  serve_job max_waiting resp = do
    launch_some resp.interrupt
    self ← get
    send_poll max_waiting (
        with_action_id
          (with_session_id (with_host (new t PollType.reset) self.config.hostname) self.session_id)
          (or_zero resp.action_id))
    recv_poll max_waiting
    pure tt

  unfoldable pub poll_once : Run Listener Failure State
  poll_once = do
    self ← get
    let max_waiting = self.config.initial_max_waiting
    let now = m.now self.channel.log
    send_poll max_waiting (
        with_datetime
          (with_session_id (with_host (new t PollType.full) self.config.hostname) self.session_id)
          now)
    resp ← recv_poll max_waiting
    update_session resp.session_id
    if resp.status == 0x8000 then serve_job max_waiting resp else pure tt
    log_event (slept 1)
    pure poll

  unfoldable pub next_from : State → Run Listener Failure State
  next_from init = do self ← get; try_init self.config.initial_max_waiting; pure poll
  next_from poll = poll_once
  next_from (backoff duration) = do try_init duration; pure poll

  unfoldable pub next : Run Listener Failure State
  next = do self ← get; next_from self.state

unfoldable pub state_after_err : ListenConfig → State → State
state_after_err config init = backoff config.initial_max_waiting
state_after_err config poll = init
state_after_err config (backoff duration) =
    backoff
      (min config.backoff_maximum (u64_of_f32 (mul (f32_of_u64 duration) config.backoff_factor)))

unfoldable pub transit_err : Listener → Listener
transit_err self = record self { state = state_after_err self.config self.state }

-- One round of the loop of `listen`, where `none` is a panic.
abbrev pub settle : Outcome State Failure × Listener → Option Listener
settle (ok state, self) = some (record self { state = state })
settle (err e, self) = some (transit_err self)
settle (panic, self) = none

unfoldable pub listen_round : {t : TimeCrate} → Machine t → Listener → Option Listener
listen_round m self = settle (next m self)

-- The loop never ends by itself: this is its first rounds.
unfoldable pub listen_rounds : {t : TimeCrate} → Machine t → ℕ → Listener → Option Listener
listen_rounds m zero self = some self
listen_rounds m (suc n) self = elim (listen_round m self) [
  | none ↦ none
  | some self' ↦ listen_rounds m n self'
]
