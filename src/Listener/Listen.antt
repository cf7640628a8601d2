-- ===== src/Listener/Listen.antt =====
-- src/poll.rs: `Listener::new` and `listen`.
use scanner_button.Prelude.{ℕ, List}
use scanner_button.Rust.Outcome.{unwrap_option}
use scanner_button.Rust.Run.{Run, ◌>>=◌, pure, lift}
use scanner_button.Poll.Command.{TimeCrate}
use scanner_button.Channel.{Channel, Failure, Effect, Kernel, channel_new}
use scanner_button.Listener.Launch.{ListenConfig}
use scanner_button.Listener.Handlers.{Machine, Listener, init, listen_rounds}

-- A listener over a channel.
abbrev pub listener_on : ListenConfig → Channel → Listener
listener_on config channel = record {
  channel = channel;
  state = init;
  session_id = 0;
  config = config;
}

unfoldable pub listener_new : Kernel → ListenConfig → Run (List Effect) Failure Listener
listener_new kernel config = do
  channel ← channel_new kernel config.scanner_addr
  pure (listener_on config channel)

-- The first `n` rounds of `listen`.
unfoldable pub listen :
    {t : TimeCrate} → Kernel → Machine t → ListenConfig → ℕ → Run (List Effect) Failure Listener
listen kernel m config n = do
  listener ← listener_new kernel config
  lift (unwrap_option (listen_rounds m n listener))
