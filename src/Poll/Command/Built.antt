-- ===== src/Poll/Command/Built.antt =====
-- bjnp/src/poll/command.rs: when `CommandBuilder::build` gives a command, and which.
use scanner_button.Prelude.{ℕ, ◌≡◌, refl, Option, none, some, arith, ◌↔◌}
use scanner_button.Poll.Host.{Host}
use scanner_button.Poll.Command.Time.{TimeCrate}
use scanner_button.Poll.Command.Types.{PollType, Command, empty_command}
use scanner_button.Poll.Command.Wire.{poll_type, session_id, host, action_id, datetime}
use scanner_button.Poll.Command.Builder.{CommandBuilder, build, build_as}

-- The fields that a type of command carries, as a table: those of the others are dropped.
abbrev pub when_full_or_reset : {A : Type 0} → PollType → Option A → Option A
when_full_or_reset PollType.empty x = none
when_full_or_reset PollType.host_only x = none
when_full_or_reset PollType.full x = x
when_full_or_reset PollType.reset x = x

abbrev pub unless_empty : {A : Type 0} → PollType → Option A → Option A
unless_empty PollType.empty x = none
unless_empty PollType.host_only x = x
unless_empty PollType.full x = x
unless_empty PollType.reset x = x

abbrev pub when_full : {A : Type 0} → PollType → Option A → Option A
when_full PollType.full x = x
when_full _ x = none

abbrev pub when_reset : {A : Type 0} → PollType → Option A → Option A
when_reset PollType.reset x = x
when_reset _ x = none

-- The fields that a command of a type wants.
abbrev pub IsComplete : {t : TimeCrate} → PollType → CommandBuilder t → Type 0
IsComplete {t} PollType.empty b = Unit
IsComplete {t} PollType.host_only b = (h : Host) × (b.host ≡ some h)
IsComplete {t} PollType.full b =
    ((s : ℕ) × (b.session_id ≡ some s))
    × ((h : Host) × (b.host ≡ some h))
    × ((d : t.DateTime) × (b.datetime ≡ some d))
IsComplete {t} PollType.reset b =
    ((s : ℕ) × (b.session_id ≡ some s))
    × ((h : Host) × (b.host ≡ some h))
    × ((a : ℕ) × (b.action_id ≡ some a))

-- The command has the type, and exactly the builder's fields that this type carries.
pub record IsBuilt {t : TimeCrate} (p : PollType) (b : CommandBuilder t) (c : Command t)
    : Type 0 where
  pub same_type : poll_type c ≡ p
  pub same_session : session_id c ≡ when_full_or_reset p b.session_id
  pub same_host : host c ≡ unless_empty p b.host
  pub same_action : action_id c ≡ when_reset p b.action_id
  pub same_datetime : datetime c ≡ when_full p b.datetime

module _ {t : TimeCrate} where
  build_as-IsBuilt :
      (p : PollType) (b : CommandBuilder t)
      → IsComplete p b
      → (c : Command t) × (build_as p b ≡ some c) × IsBuilt p b c
  unfolding build_as poll_type session_id host action_id datetime
  build_as-IsBuilt PollType.empty b h = (Command.empty empty_command, refl, ground arith)
  build_as-IsBuilt PollType.host_only b (h, e) =
      (Command.host_only (record { host = h }), rw e, ground arith)
  build_as-IsBuilt PollType.full b ((s, e), (h, f), (d, g)) =
      (Command.full (record { session_id = s; host = h; datetime = d }), rw (e, f, g), ground arith)
  build_as-IsBuilt PollType.reset b ((s, e), (h, f), (a, g)) = (
    Command.reset (record { session_id = s; host = h; action_id = a }),
    rw (e, f, g),
    ground arith,
  )

  build_as-IsComplete :
      (p : PollType) (b : CommandBuilder t) (c : Command t) → build_as p b ≡ some c → IsComplete p b
  unfolding build_as
  build_as-IsComplete PollType.empty b c e = tt
  build_as-IsComplete PollType.host_only b c e = ground arith
  build_as-IsComplete PollType.full b c e = ground arith
  build_as-IsComplete PollType.reset b c e = ground arith

  -- The builder gives a command exactly when the fields that its type wants are set, and then the
  -- command has that type, carries those fields, and none of the others.
  pub build_iff :
      (b : CommandBuilder t)
      → IsComplete b.poll_type b ↔ ((c : Command t) × (build b ≡ some c) × IsBuilt b.poll_type b c)
  unfolding build
  build_iff b = (build_as-IsBuilt b.poll_type b, λ r. build_as-IsComplete b.poll_type b r.0 r.1)
