-- ===== src/Poll/Response/Button.antt =====
-- bjnp/src/poll/response.rs: `Interrupt` and `RawInterrupt`.
use scanner_button.Prelude.{ℕ, Option, none, some, List, ◌∷◌, ◌++◌, take, drop, get_or, replicate}
use scanner_button.Prelude.{◌==◌, if◌then◌else◌}
use scanner_button.Rust.Outcome.{Outcome, ok, ◌>>=◌, map_ok}
use scanner_button.Serdes.Error.{FormatError}
use scanner_button.Serdes.Field.{Field, try_from_u8}
use scanner_button.Serdes.Traits.{Serialize, SizedDeserialize, Deserialize, sized_deserialize}
use scanner_button.Serdes.Raw.{Layout, raw_serialize, raw_deserialize}
use scanner_button.Poll.Response.Types.{ColorMode, Size, Format, Dpi, Source, FeederType}
use scanner_button.Poll.Response.Types.{
  FeederOrientation, color_mode_field, size_field, format_field,
}
use scanner_button.Poll.Response.Types.{dpi_field, source_field, feeder_type_field}
use scanner_button.Poll.Response.Types.{feeder_orientation_field}

pub record Interrupt : Type 0 where
  pub color_mode : ColorMode
  pub size : Size
  pub format : Format
  pub dpi : Dpi
  pub source : Source
  pub feeder_type : Option FeederType
  pub feeder_orientation : Option FeederOrientation

pub record RawInterrupt : Type 0 where
  pub unk_1 : List ℕ
  pub color_mode : ℕ
  pub source : ℕ
  pub feeder_type : ℕ
  pub size : ℕ
  pub format : ℕ
  pub dpi : ℕ
  pub unk_4 : List ℕ
  pub feeder_orientation : ℕ
  pub unk_5 : List ℕ

abbrev pub raw_interrupt_bytes : RawInterrupt → List ℕ
raw_interrupt_bytes r =
    r.unk_1
    ++ (r.color_mode
        ∷ r.source
        ∷ r.feeder_type
        ∷ r.size
        ∷ r.format
        ∷ r.dpi
        ∷ (r.unk_4 ++ (r.feeder_orientation ∷ r.unk_5)))

abbrev pub raw_interrupt_view : List ℕ → RawInterrupt
raw_interrupt_view buffer = record {
  unk_1 = take 7 buffer;
  color_mode = get_or buffer 7 0;
  source = get_or buffer 8 0;
  feeder_type = get_or buffer 9 0;
  size = get_or buffer 10 0;
  format = get_or buffer 11 0;
  dpi = get_or buffer 12 0;
  unk_4 = take 3 (drop 13 buffer);
  feeder_orientation = get_or buffer 16 0;
  unk_5 = take 3 (drop 17 buffer);
}

abbrev pub raw_interrupt : Layout RawInterrupt
raw_interrupt = record { size_of = 20; bytes = raw_interrupt_bytes; view = raw_interrupt_view }

-- `.map(|v| v as u8).unwrap_or(0)`
abbrev pub option_value : {A : Type 0} → Field A → Option A → ℕ
option_value f none = 0
option_value f (some a) = f.as_repr a

-- `if value != 0 { Some(value.try_into()?) } else { None }`
unfoldable pub option_try_from : {A : Type 0} → Field A → ℕ → Outcome (Option A) FormatError
option_try_from f value = if value == 0 then ok none else map_ok some (try_from_u8 f value)

-- `From<&Interrupt> for RawInterrupt`
unfoldable pub to_raw_interrupt : Interrupt → RawInterrupt
to_raw_interrupt interrupt = record {
  unk_1 = replicate 7 0;
  color_mode = color_mode_field.as_repr interrupt.color_mode;
  source = source_field.as_repr interrupt.source;
  feeder_type = option_value feeder_type_field interrupt.feeder_type;
  size = size_field.as_repr interrupt.size;
  format = format_field.as_repr interrupt.format;
  dpi = dpi_field.as_repr interrupt.dpi;
  unk_4 = replicate 3 0;
  feeder_orientation = option_value feeder_orientation_field interrupt.feeder_orientation;
  unk_5 = replicate 3 0;
}

-- `TryFrom<&RawInterrupt> for Interrupt`: the first field that is not accepted decides the error.
unfoldable pub interrupt_try_from : RawInterrupt → Outcome Interrupt FormatError
interrupt_try_from raw = do
  feeder_type ← option_try_from feeder_type_field raw.feeder_type
  feeder_orientation ← option_try_from feeder_orientation_field raw.feeder_orientation
  color_mode ← try_from_u8 color_mode_field raw.color_mode
  source ← try_from_u8 source_field raw.source
  size ← try_from_u8 size_field raw.size
  format ← try_from_u8 format_field raw.format
  dpi ← try_from_u8 dpi_field raw.dpi
  ok (record {
    color_mode = color_mode;
    size = size;
    format = format;
    dpi = dpi;
    source = source;
    feeder_type = feeder_type;
    feeder_orientation = feeder_orientation;
  })

instance abbrev pub interrupt_serialize : Serialize Interrupt
interrupt_serialize = raw_serialize raw_interrupt to_raw_interrupt

abbrev pub interrupt_sized : SizedDeserialize Interrupt
interrupt_sized = raw_deserialize raw_interrupt interrupt_try_from

instance abbrev pub interrupt_deserialize : Deserialize Interrupt
interrupt_deserialize = sized_deserialize interrupt_sized
