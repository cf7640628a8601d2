-- ===== src/Listener/Tests/Serving.antt =====
-- src/poll.rs: a scanner that always says that its button was pressed.
use scanner_button.Prelude.{ℕ, ◌≡◌, refl, List, ◌∷◌, ◌++◌, replicate, arith}
use scanner_button.Rust.Outcome.{ok}
use scanner_button.Rust.Word.{from_be_bytes}
use scanner_button.Serdes.Field.{try_from_u8}
use scanner_button.Serdes.Traits.{deserialize_sized}
use scanner_button.Header.{header_try_from}
use scanner_button.Packet.{parse}
use scanner_button.Poll.Command.Tests.{digits_time, new_year-HasText}
use scanner_button.Poll.Response.{
  Response, response_deserialize, response_try_from, interrupt_try_from, option_try_from,
  to_raw_interrupt,
}
use scanner_button.Poll.Response.RoundTrip.{interrupt_bytes}
use scanner_button.Poll.Response.Tests.{duplex}
use scanner_button.Channel.{Event}
use scanner_button.Channel.Receives.{Replies}
use scanner_button.Listener.Handlers.{Machine, State, Listener, poll_once}
use scanner_button.Listener.Serving.{IsServed, pressed, poll_once-IsServed}
use scanner_button.Listener.Tests.{scanner_address, polling, reply, answering}

-- The status 0x8000, action 5 and an interrupt.
abbrev pressed_reply : List ℕ
unfolding interrupt_bytes to_raw_interrupt
pressed_reply = reply 0x80 (replicate 9 0 ++ (0 ∷ 0 ∷ 0 ∷ 5 ∷ interrupt_bytes duplex))

abbrev scanning : Machine digits_time
scanning = answering pressed_reply

always_pressed :
    (log : List Event) → Replies {T = Response} scanning.network 60 log (pressed duplex 5)
unfolding pressed_reply interrupt_bytes to_raw_interrupt parse deserialize_sized header_try_from
    try_from_u8 from_be_bytes response_try_from interrupt_try_from option_try_from
always_pressed log = record {
  has_peer = (scanner_address, refl);
  datagram = pressed_reply;
  packet = _;
  size = _;
  answered = refl;
  parsed = refl;
  no_error = refl;
  payload_read = refl;
}

poll_once-IsServed_example :
    (self' : Listener) × (poll_once scanning polling ≡ (ok State.poll, self'))
    × IsServed scanning duplex 5 polling self'
poll_once-IsServed_example =
    poll_once-IsServed scanning (λ _. (scanner_address, refl)) (λ _ _ _. refl) polling duplex 5
      (pressed duplex 5) refl (omega arith) (omega arith) new_year-HasText (omega arith)
      (λ buffer. always_pressed _) (λ log buffer longer. always_pressed _)
