-- ===== src/Poll/Response/RoundTrip.antt =====
-- bjnp/src/poll/response.rs: an interrupt is read back from its raw form.
use scanner_button.Prelude.{ℕ, ◌≡◌, ◌≢◌, refl, Option, none, some, List, ◌++◌, length, arith}
use scanner_button.Rust.Outcome.{ok, ◌>>=◌}
use scanner_button.Serdes.Field.{Field, IsField, try_from_u8-as_repr}
use scanner_button.Serdes.Traits.{deserialize_sized, IsCodec, serialize_to_vec, round_trip}
use scanner_button.Serdes.Raw.{deserialize-bytes}
use scanner_button.Poll.Response.Types.{color_mode_field, size_field, format_field, dpi_field}
use scanner_button.Poll.Response.Types.{source_field, feeder_type_field, feeder_orientation_field}
use scanner_button.Poll.Response.Types.{
  color_mode-IsField, size-IsField, format-IsField, dpi-IsField,
}
use scanner_button.Poll.Response.Types.{
  source-IsField, feeder_type-IsField, feeder_orientation-IsField,
}
use scanner_button.Poll.Response.Types.{feeder_type_repr-ne-zero, feeder_orientation_repr-ne-zero}
use scanner_button.Poll.Response.Button.{Interrupt, raw_interrupt, raw_interrupt_bytes}
use scanner_button.Poll.Response.Button.{raw_interrupt_view, option_value, option_try_from}
use scanner_button.Poll.Response.Button.{to_raw_interrupt, interrupt_try_from, interrupt_sized}
use scanner_button.Poll.Response.Button.{interrupt_serialize, interrupt_deserialize}

option_try_from-value :
    {A : Type 0} (f : Field A)
    → IsField f
    → ((a : A) → f.as_repr a ≢ 0)
    → (o : Option A) → option_try_from f (option_value f o) ≡ ok o
unfolding option_try_from
option_try_from-value f lawful nonzero none = refl
option_try_from-value f lawful nonzero (some a) =
    ground (arith, nonzero a, try_from_u8-as_repr f lawful a)

pub interrupt_try_from-to_raw : (i : Interrupt) → interrupt_try_from (to_raw_interrupt i) ≡ ok i
unfolding interrupt_try_from to_raw_interrupt
interrupt_try_from-to_raw i = rw (
  option_try_from-value feeder_type_field feeder_type-IsField feeder_type_repr-ne-zero
      i.feeder_type,
  option_try_from-value feeder_orientation_field feeder_orientation-IsField
      feeder_orientation_repr-ne-zero i.feeder_orientation,
  try_from_u8-as_repr color_mode_field color_mode-IsField i.color_mode,
  try_from_u8-as_repr source_field source-IsField i.source,
  try_from_u8-as_repr size_field size-IsField i.size,
  try_from_u8-as_repr format_field format-IsField i.format,
  try_from_u8-as_repr dpi_field dpi-IsField i.dpi,
)

unfoldable pub interrupt_bytes : Interrupt → List ℕ
interrupt_bytes i = raw_interrupt_bytes (to_raw_interrupt i)

pub view-interrupt_bytes :
    (i : Interrupt) (rest : List ℕ)
    → raw_interrupt_view (interrupt_bytes i ++ rest) ≡ to_raw_interrupt i
unfolding interrupt_bytes to_raw_interrupt
view-interrupt_bytes i rest = refl

pub length-interrupt_bytes : (i : Interrupt) → length (interrupt_bytes i) ≡ 20
unfolding interrupt_bytes to_raw_interrupt
length-interrupt_bytes i = refl

interrupt_deserialize-bytes :
    (i : Interrupt) (rest : List ℕ)
    → deserialize_sized interrupt_sized (interrupt_bytes i ++ rest) ≡ ok (i, 20)
unfolding interrupt_bytes
interrupt_deserialize-bytes i rest =
    deserialize-bytes raw_interrupt interrupt_try_from (to_raw_interrupt i) rest
      (length-interrupt_bytes i) (view-interrupt_bytes i rest) (interrupt_try_from-to_raw i)

-- An interrupt is written as twenty bytes, and reading those, whatever follows, gives it back.
pub Interrupt-IsCodec : IsCodec {T = Interrupt} (λ _. Unit {0})
unfolding interrupt_bytes
Interrupt-IsCodec = record {
  encode = interrupt_bytes;
  serialize-encode = λ x out _. refl;
  length-encode = λ x _. length-interrupt_bytes x;
  deserialize-encode = λ x rest _. interrupt_deserialize-bytes x rest;
}

-- An interrupt is written, anything is put behind, and what is read is that interrupt and the
-- size 20.
pub interrupt_round_trip :
    (i : Interrupt) (rest : List ℕ)
    → (do bytes ← serialize_to_vec i; deserialize_sized interrupt_sized (bytes ++ rest))
      ≡ ok (i, 20)
interrupt_round_trip i rest = round_trip Interrupt-IsCodec i rest tt
