-- ===== src/Poll/Command/Builder.antt =====
-- bjnp/src/poll/command.rs: `CommandBuilder`.
use scanner_button.Prelude.{ℕ, Option, none, some}
use scanner_button.Poll.Host.{Host}
use scanner_button.Poll.Command.Time.{TimeCrate}
use scanner_button.Poll.Command.Types.{PollType, Command, empty_command}

-- The `?` operator on options.
infixl 5 ◌>>=◌
abbrev ◌>>=◌ : {A B : Type 0} → Option A → (A → Option B) → Option B
none >>= f = none
some a >>= f = f a

pub record CommandBuilder (t : TimeCrate) : Type 0 where
  pub poll_type : PollType
  pub session_id : Option ℕ
  pub host : Option Host
  pub action_id : Option ℕ
  pub datetime : Option t.DateTime

module _ {t : TimeCrate} where
  unfoldable pub with_poll_type : CommandBuilder t → PollType → CommandBuilder t
  with_poll_type b poll_type = record b { poll_type = poll_type }

  unfoldable pub with_session_id : CommandBuilder t → ℕ → CommandBuilder t
  with_session_id b session_id = record b { session_id = some session_id }

  unfoldable pub with_host : CommandBuilder t → Host → CommandBuilder t
  with_host b host = record b { host = some host }

  unfoldable pub with_action_id : CommandBuilder t → ℕ → CommandBuilder t
  with_action_id b action_id = record b { action_id = some action_id }

  unfoldable pub with_datetime : CommandBuilder t → t.DateTime → CommandBuilder t
  with_datetime b datetime = record b { datetime = some datetime }

  unfoldable pub build_as : PollType → CommandBuilder t → Option (Command t)
  build_as PollType.empty b = some (Command.empty empty_command)
  build_as PollType.host_only b = do
    host ← b.host
    some (Command.host_only (record { host = host }))
  build_as PollType.full b = do
    session_id ← b.session_id
    host ← b.host
    datetime ← b.datetime
    some (Command.full (record { session_id = session_id; host = host; datetime = datetime }))
  build_as PollType.reset b = do
    session_id ← b.session_id
    host ← b.host
    action_id ← b.action_id
    some (Command.reset (record { session_id = session_id; host = host; action_id = action_id }))

  unfoldable pub build : CommandBuilder t → Option (Command t)
  unfolding build_as
  build b = build_as b.poll_type b

unfoldable pub new : (t : TimeCrate) → PollType → CommandBuilder t
new t poll_type = record {
  poll_type = poll_type;
  session_id = none;
  host = none;
  action_id = none;
  datetime = none;
}
