-- ===== src/Poll/Command/Types.antt =====
-- bjnp/src/poll/command.rs: `PollType` and the four commands.
use scanner_button.Prelude.{ℕ, ◌≡◌, refl, some, String, [], ◌∷◌, arith}
use scanner_button.Serdes.Field.{Field, IsField, find_variant}
use scanner_button.Poll.Host.{Host}
use scanner_button.Poll.Command.Time.{TimeCrate}

pub data PollType : Type 0 where
  empty host_only full reset : PollType

abbrev poll_type_repr : PollType → ℕ
poll_type_repr empty = 0x00
poll_type_repr host_only = 0x01
poll_type_repr full = 0x02
poll_type_repr reset = 0x05

abbrev poll_type_name : PollType → String
poll_type_name empty = "empty"
poll_type_name host_only = "host only"
poll_type_name full = "full"
poll_type_name reset = "reset"

abbrev pub poll_type_field : Field PollType
poll_type_field = record {
  field_name = "poll type";
  variants = (empty, 0x00) ∷ (host_only, 0x01) ∷ (full, 0x02) ∷ (reset, 0x05) ∷ [];
  as_repr = poll_type_repr;
  variant_name = poll_type_name;
}

poll_type_find : (a : PollType) → find_variant poll_type_field.variants (poll_type_repr a) ≡ some a
poll_type_find empty = refl
poll_type_find _ = refl

pub poll_type-IsField : IsField poll_type_field
poll_type-IsField = record { find-as_repr = poll_type_find; as_repr-find = λ v a h. ground arith }

pub data EmptyCommand : Type 0 where
  empty_command : EmptyCommand

pub record HostOnlyCommand : Type 0 where
  pub host : Host

pub record FullCommand (t : TimeCrate) : Type 0 where
  pub session_id : ℕ
  pub host : Host
  pub datetime : t.DateTime

pub record ResetCommand : Type 0 where
  pub session_id : ℕ
  pub host : Host
  pub action_id : ℕ

-- `Command`, with the variants of `InnerCommand`.
pub data Command (t : TimeCrate) : Type 0 where
  empty : EmptyCommand → Command t
  host_only : HostOnlyCommand → Command t
  full : FullCommand t → Command t
  reset : ResetCommand → Command t
