-- ===== src/Poll/Command/Shown.antt =====
-- bjnp/src/poll/command.rs: `Display` of the commands. How a date is shown is the crate `time`'s.
use scanner_button.Prelude.{ℕ, List, [], ◌++◌}
use scanner_button.Rust.Format.{Display, codes, pad, plain, decimal, shown}
use scanner_button.Poll.Host.{Endian, Host, host_fmt}
use scanner_button.Poll.Command.Time.{TimeCrate}
use scanner_button.Poll.Command.Types.{
  EmptyCommand, HostOnlyCommand, FullCommand, ResetCommand, Command, empty, host_only, full, reset,
}

abbrev pub empty_command_display : Display EmptyCommand
empty_command_display = record { fmt = λ c f. pad f [] ++ codes "empty" }

module _ (e : Endian) where
  unfoldable pub host_shown : Host → List ℕ
  host_shown host = host_fmt e host plain

  unfoldable pub host_only_shown : HostOnlyCommand → List ℕ
  host_only_shown cmd = codes "host=" ++ host_shown cmd.host

  unfoldable pub full_shown : (t : TimeCrate) ⦃d : Display t.DateTime⦄ → FullCommand t → List ℕ
  full_shown t cmd =
      codes "session_id="
      ++ (decimal cmd.session_id
          ++ (codes " host="
              ++ (host_shown cmd.host ++ (codes " datetime=" ++ shown cmd.datetime))))

  unfoldable pub reset_shown : ResetCommand → List ℕ
  reset_shown cmd =
      codes "session_id="
      ++ (decimal cmd.session_id
          ++ (codes " host="
              ++ (host_shown cmd.host ++ (codes " action_id=" ++ decimal cmd.action_id))))

  unfoldable pub command_line : (t : TimeCrate) ⦃d : Display t.DateTime⦄ → Command t → List ℕ
  command_line t (empty _) = codes "empty"
  command_line t (host_only cmd) = codes "host-only: " ++ host_only_shown cmd
  command_line t (full cmd) = codes "full: " ++ full_shown t cmd
  command_line t (reset cmd) = codes "reset: " ++ reset_shown cmd

  abbrev pub command_display : {t : TimeCrate} ⦃d : Display t.DateTime⦄ → Display (Command t)
  command_display {t} = record { fmt = λ c f. pad f [] ++ command_line t c }
