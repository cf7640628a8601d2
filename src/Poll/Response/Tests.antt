-- ===== src/Poll/Response/Tests.antt =====
-- bjnp/src/poll/response.rs: runs at concrete inputs.
use scanner_button.Prelude.{ℕ, ◌≡◌, refl, some, none, List, [], ◌∷◌, ◌++◌, arith}
use scanner_button.Rust.Outcome.{ok, ◌>>=◌}
use scanner_button.Serdes.Traits.{deserialize_sized, serialize_to_vec}
use scanner_button.Poll.Response.Types.{ColorMode, Size, Format, Dpi, Source, FeederType}
use scanner_button.Poll.Response.Button.{Interrupt, interrupt_sized, interrupt_serialize}
use scanner_button.Poll.Response.Wire.{response_sized}
use scanner_button.Poll.Response.RoundTrip.{interrupt_bytes, interrupt_round_trip}
use scanner_button.Poll.Response.Status.{response_bytes, response_plain, response_interrupted}
use scanner_button.Poll.Response.Status.{IsResponse, response_deserialize-IsResponse}

abbrev pub duplex : Interrupt
duplex = record {
  color_mode = ColorMode.color;
  size = Size.a4;
  format = Format.jpeg;
  dpi = Dpi.dpi_300;
  source = Source.auto_document_feeder;
  feeder_type = some FeederType.duplex;
  feeder_orientation = none;
}

interrupt_round_trip_example :
    (do bytes ← serialize_to_vec duplex; deserialize_sized interrupt_sized (bytes ++ (1 ∷ [])))
    ≡ ok (duplex, 20)
interrupt_round_trip_example = interrupt_round_trip duplex (1 ∷ [])

abbrev junk : List ℕ
junk = 1 ∷ 2 ∷ 3 ∷ 4 ∷ 5 ∷ 6 ∷ 7 ∷ 8 ∷ 9 ∷ 10 ∷ 11 ∷ 12 ∷ 13 ∷ 14 ∷ 15 ∷ 16 ∷ 17 ∷ 18 ∷ 19 ∷ 20 ∷ []

response_plain_example :
    deserialize_sized response_sized
      (response_bytes 5 77 (0 ∷ 0 ∷ 0 ∷ 0 ∷ []) 99 (junk ++ (1 ∷ [])))
    ≡ ok (record { status = 5; session_id = some 77; action_id = none; interrupt = none }, 36)
response_plain_example =
    response_plain 5 77 99 0 0 0 0 (omega arith) junk (1 ∷ []) (omega arith) refl refl

response_interrupted_example :
    deserialize_sized response_sized
      (response_bytes 0x8000 77 (0 ∷ 0 ∷ 0 ∷ 0 ∷ []) 99 (interrupt_bytes duplex ++ (1 ∷ [])))
    ≡ ok (
      record { status = 0x8000; session_id = none; action_id = some 99; interrupt = some duplex },
      36,
    )
response_interrupted_example =
    response_interrupted 0x8000 77 99 0 0 0 0 (omega arith) duplex (1 ∷ []) (omega arith) refl

response_plain_once :
    deserialize_sized response_sized (response_bytes 5 77 (0 ∷ 0 ∷ 0 ∷ 0 ∷ []) 99 junk)
    ≡ ok (record { status = 5; session_id = some 77; action_id = none; interrupt = none }, 36)
response_plain_once = response_plain 5 77 99 0 0 0 0 (omega arith) junk [] (omega arith) refl refl

response_deserialize-IsResponse_example :
    ◌≡◌ {A = ℕ} 36 36
    × IsResponse (record { status = 5; session_id = some 77; action_id = none; interrupt = none })
response_deserialize-IsResponse_example = response_deserialize-IsResponse _ _ 36 response_plain_once
