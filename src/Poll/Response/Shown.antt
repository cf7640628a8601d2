-- ===== src/Poll/Response/Shown.antt =====
-- bjnp/src/poll/response.rs: `Display` of `Interrupt` and of `Response`.
use scanner_button.Prelude.{ℕ, List, [], ◌++◌, Option, none, some}
use scanner_button.Rust.Format.{Formatter, Display, codes, pad, hex_prefixed}
use scanner_button.Serdes.Field.{Field}
use scanner_button.Serdes.Shown.{field_shown, write_nested}
use scanner_button.Header.{optional_shown}
use scanner_button.Poll.Response.Types.{
  color_mode_field, size_field, format_field, dpi_field, source_field, feeder_type_field,
  feeder_orientation_field,
}
use scanner_button.Poll.Response.Button.{Interrupt}
use scanner_button.Poll.Response.Wire.{Response}

unfoldable pub optional_field : {A : Type 0} → List ℕ → Field A → Option A → List ℕ
optional_field label field none = []
optional_field label field (some x) = label ++ field_shown field x

unfoldable pub interrupt_line : Interrupt → List ℕ
interrupt_line i =
    codes "interrupt: color_mode="
    ++ (field_shown color_mode_field i.color_mode
        ++ (codes " size="
            ++ (field_shown size_field i.size
                ++ (codes " source="
                    ++ (field_shown source_field i.source
                        ++ (codes " format="
                            ++ (field_shown format_field i.format
                                ++ (codes " dpi="
                                    ++ (field_shown dpi_field i.dpi
                                        ++ (optional_field (codes " feeder_type=") feeder_type_field
                                              i.feeder_type
                                            ++ optional_field (codes " feeder_orientation=")
                                                feeder_orientation_field
                                                i.feeder_orientation))))))))))

instance abbrev pub interrupt_display : Display Interrupt
interrupt_display = record { fmt = λ i f. pad f [] ++ interrupt_line i }

unfoldable pub response_line : Response → List ℕ
response_line r =
    codes "status="
    ++ (hex_prefixed 8 r.status
        ++ (optional_shown (codes " session_id=") r.session_id
            ++ optional_shown (codes " action_id=") r.action_id))

unfoldable pub nested_interrupt : Formatter → Option Interrupt → List ℕ
nested_interrupt f none = []
nested_interrupt f (some i) = write_nested f i

instance abbrev pub response_display : Display Response
response_display = record {
  fmt = λ r f. pad f [] ++ (response_line r ++ nested_interrupt f r.interrupt);
}
