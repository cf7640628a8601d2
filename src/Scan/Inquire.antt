-- ===== src/Scan/Inquire.antt =====
-- src/scan.rs: `inquire_device`, the conversation with one scanner.
use scanner_button.Prelude.{ℕ, List, [], ◌∷◌, ◌++◌, Bool, if◌then◌else◌}
use scanner_button.Rust.Outcome.{Outcome, ok, err}
use scanner_button.Rust.Run.{Run, ◌>>=◌, ◌>>◌, pure}
use scanner_button.Rust.Format.{codes, decimal}
use scanner_button.Serdes.Traits.{empty, empty_serialize}
use scanner_button.Header.{PayloadType}
use scanner_button.Discover.{Response, ip_shown, mac_shown}
use scanner_button.Identity
use scanner_button.Identity.{identity_deserialize}
use scanner_button.Channel.{
  Channel, Event, Network, Failure, io_error, Effect, Kernel, channel_new, send, recv,
}
use scanner_button.Scan.Broadcast.{bjnp_port}
use scanner_button.Scan.Sort.{sort_entries}

-- What the terminal makes of a text in one of the two styles, and whether it takes a line after
-- the lines so far.
pub record Terminal : Type 0 where
  pub key_style : List ℕ → List ℕ
  pub value_style : List ℕ → List ℕ
  pub takes : List (List ℕ) → Bool

-- What an inquiry leaves behind: the effects on its socket, the packets, and the lines on the
-- terminal, newest first.
pub record Inquiry : Type 0 where
  pub effects : List Effect
  pub packets : List Event
  pub lines : List (List ℕ)

-- `{addr}:{BJNP_PORT}`
unfoldable pub ip_text : Response → List ℕ
ip_text device = ip_shown device.ip_addr ++ (b':' ∷ decimal bjnp_port)

unfoldable pub device_line : Terminal → Response → List ℕ
device_line terminal device =
    codes "Scanner "
    ++ (terminal.key_style (codes "IP")
        ++ (b'='
            ∷ (terminal.value_style (ip_text device)
                ++ (b' '
                    ∷ (terminal.key_style (codes "MAC")
                        ++ (b'=' ∷ terminal.value_style (mac_shown device.mac_addr)))))))

unfoldable pub entry_line : Terminal → List ℕ × List ℕ → List ℕ
entry_line terminal (key, value) =
    codes "  " ++ (terminal.key_style key ++ (codes ": " ++ terminal.value_style value))

-- `writeln!`
unfoldable pub write_line : Terminal → List ℕ → Run Inquiry Failure (Unit {0})
write_line terminal line inquiry =
    if terminal.takes inquiry.lines
    then (ok tt, record inquiry { lines = line ∷ inquiry.lines })
    else (err io_error, inquiry)

unfoldable pub write_entries : Terminal → List (List ℕ × List ℕ) → Run Inquiry Failure (Unit {0})
write_entries terminal [] = pure tt
write_entries terminal (e ∷ rest) = do
  write_line terminal (entry_line terminal e)
  write_entries terminal rest

-- What follows the answer: the entries in the order of the map's iterator are sorted and written.
unfoldable pub report :
    Terminal → Response → List (List ℕ × List ℕ) → Run Inquiry Failure (Unit {0})
report terminal device entries = do
  let id = sort_entries entries
  write_line terminal (device_line terminal device)
  write_entries terminal id

-- The question and the answer. No `timeout` is around them: `limit` is the number of seconds up to
-- the end of the scan, which drops the task.
unfoldable pub ask : Network → ℕ → Run Channel Failure Identity.Response
ask net limit = do send net limit PayloadType.get_id empty; recv net limit

abbrev pub put_effects :
    {A : Type 0} → Inquiry → Outcome A Failure × List Effect → Outcome A Failure × Inquiry
put_effects inquiry (r, effects) = (r, record inquiry { effects = effects })

abbrev pub put_packets :
    {A : Type 0} → Inquiry → Outcome A Failure × Channel → Outcome A Failure × Inquiry
put_packets inquiry (r, channel) = (r, record inquiry { packets = channel.log })

abbrev pub on_kernel : {A : Type 0} → Run (List Effect) Failure A → Run Inquiry Failure A
on_kernel action inquiry = put_effects inquiry (action inquiry.effects)

-- A call on the channel that is a local variable of the task.
abbrev pub on_packets : {A : Type 0} → Channel → Run Channel Failure A → Run Inquiry Failure A
on_packets channel action inquiry = put_packets inquiry (action channel)

unfoldable pub inquire_device :
    Kernel → Network → Terminal → ℕ → Response → Run Inquiry Failure (Unit {0})
inquire_device kernel net terminal limit device = do
  channel ← on_kernel (channel_new kernel (record { ip = device.ip_addr; port = bjnp_port }))
  id ← on_packets channel (ask net limit)
  report terminal device id.entries
