-- ===== src/Packet/Shown.antt =====
-- bjnp/src/packet.rs: `Display` of `Packet` and of `PacketHeaderOnly`.
use scanner_button.Prelude.{[], ◌++◌}
use scanner_button.Rust.Format.{Display, shown, pad}
use scanner_button.Serdes.Shown.{write_nested}
use scanner_button.Header.{header_display}
use scanner_button.Packet.Builder.{Packet}
use scanner_button.Packet.Parse.{PacketHeaderOnly}

instance abbrev pub packet_display : {T : Type 0} ⦃d : Display T⦄ → Display (Packet T)
packet_display ⦃d⦄ = record {
  fmt = λ p f. pad f [] ++ (shown p.header ++ write_nested f p.payload);
}

instance abbrev pub packet_header_only_display : Display PacketHeaderOnly
packet_header_only_display = record { fmt = λ p f. header_display.fmt p.header f }
