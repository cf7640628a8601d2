-- ===== src/Listener/Carried.antt =====
-- src/poll.rs: a command of the listener, and the packet that carries it.
use scanner_button.Prelude.{ℕ, ◌+◌, ◌%◌, ◌<◌, ◌≡◌, List, ◌∷◌, arith, length}
use mathlib.Core.Path.{subst}
use scanner_button.Rust.Outcome.{ok}
use scanner_button.Header.{PayloadType}
use scanner_button.Packet.{parse}
use scanner_button.Poll.Command.{
  TimeCrate, Command, command_serialize, command_deserialize, inner_size,
}
use scanner_button.Poll.Command.RoundTrip.{
  IsCommand, Command-IsCodec, Command-encode, command_bytes,
}
use scanner_button.Poll.Response.{response_deserialize}
use scanner_button.Channel.{sent, HasPeer, done, Channel, send}
use scanner_button.Channel.Sends.{IsSent, send-done, command_header}
use scanner_button.Listener.Handlers.{Machine}
use scanner_button.Listener.Polling.{}

-- A packet with a command, under the listener's numbers.
abbrev pub Carries : {t : TimeCrate} → List ℕ → ℕ → Command t → Type 0
Carries buffer sequence c =
    parse buffer
    ≡ ok (record {
      header = command_header PayloadType.poll sequence (length (command_bytes c));
      payload = command_bytes c;
    })

module _ {t : TimeCrate} (m : Machine t) where
  command_small : (c : Command t) → command_serialize.size c < 4294967296
  unfolding inner_size
  command_small (Command.empty c) = omega arith
  command_small (Command.host_only c) = omega arith
  command_small (Command.full c) = omega arith
  command_small (Command.reset c) = omega arith

  -- A command on a network that takes it, and the packet that carries it.
  pub command_sent :
      (limit : ℕ) (c : Command t) (channel : Channel)
      → IsCommand c
      → channel.sequence < 65536
      → HasPeer m.network channel.log
      → ((buffer : List ℕ) → m.network.send limit channel.log buffer ≡ done tt)
      → (channel' : Channel) × (send m.network limit PayloadType.poll c channel ≡ (ok tt, channel'))
        × (buffer : List ℕ) × (channel'.log ≡ sent buffer ∷ channel.log)
        × Carries buffer channel.sequence c
        × (channel'.sequence ≡ (channel.sequence + 1) % 65536)
  command_sent limit c channel h n peer takes =
      let (channel', e, s) =
        send-done Command-IsCodec m.network limit PayloadType.poll c channel h (command_small c) n
          peer takes in
      let s' =
        subst (λ (bs : List ℕ). IsSent PayloadType.poll bs channel channel') (Command-encode c) s in
      (channel', e, s'.buffer, s'.logged, s'.parsed, s'.numbered)
