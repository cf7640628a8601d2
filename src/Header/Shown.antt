-- ===== src/Header/Shown.antt =====
-- bjnp/src/header.rs: `Display for Header`.
use scanner_button.Prelude.{ℕ, List, [], ◌++◌, Option, none, some}
use scanner_button.Rust.Format.{Display, codes, pad, decimal, hex_prefixed}
use scanner_button.Serdes.Shown.{field_shown}
use scanner_button.Header.Types.{packet_type_field, payload_type_field}
use scanner_button.Header.Wire.{Header}

-- ` label=number`, where there is a number.
unfoldable pub optional_shown : List ℕ → Option ℕ → List ℕ
optional_shown label none = []
optional_shown label (some n) = label ++ decimal n

unfoldable pub header_line : Header → List ℕ
header_line h =
    codes "["
    ++ (field_shown packet_type_field h.packet_type
        ++ (codes "] ["
            ++ (field_shown payload_type_field h.payload_type
                ++ (codes "] error="
                    ++ (hex_prefixed 2 h.error
                        ++ (codes " sequence="
                            ++ (decimal h.sequence
                                ++ (optional_shown (codes " job_id=") h.job_id
                                    ++ (codes " payload_len=" ++ decimal h.payload_size)))))))))

instance abbrev pub header_display : Display Header
header_display = record { fmt = λ h f. pad f [] ++ header_line h }
