-- ===== src/Listener/Launch.antt =====
-- src/poll.rs: `ListenConfig`, and the environment that the command is launched with.
use scanner_button.Prelude.{ℕ, Option, none, some, String, List, [], ◌∷◌}
use scanner_button.Rust.Float.{F32}
use scanner_button.Channel.{SocketAddr}
use scanner_button.Poll.Host.{Host}
use scanner_button.Poll.Response.{
  Interrupt, ColorMode, Size, Format, Dpi, Source, FeederType, FeederOrientation,
}

-- The durations are in seconds.
pub record ListenConfig : Type 0 where
  pub scanner_addr : SocketAddr
  pub hostname : Host
  pub initial_max_waiting : ℕ
  pub backoff_factor : F32
  pub backoff_maximum : ℕ
  pub command : String × List String

abbrev pub color_mode_text : ColorMode → String
color_mode_text ColorMode.color = "COLOR"
color_mode_text ColorMode.mono = "MONO"

abbrev pub size_text : Size → String
size_text Size.a4 = "A4"
size_text Size.letter = "LETTER"
size_text Size.size_10x15 = "10x15"
size_text Size.size_13x18 = "13x18"
size_text Size.auto = "AUTO"

abbrev pub format_text : Format → String
format_text Format.jpeg = "JPEG"
format_text Format.tiff = "TIFF"
format_text Format.pdf = "PDF"
format_text Format.kompakt_pdf = "KOMPAKT_PDF"

abbrev pub dpi_text : Dpi → String
dpi_text Dpi.dpi_75 = "75"
dpi_text Dpi.dpi_150 = "150"
dpi_text Dpi.dpi_300 = "300"
dpi_text Dpi.dpi_600 = "600"

abbrev pub source_text : Source → String
source_text Source.flatbed = "FLATBED"
source_text Source.auto_document_feeder = "FEEDER"

abbrev pub feeder_type_text : Option FeederType → String
feeder_type_text none = ""
feeder_type_text (some FeederType.simplex) = "SIMPLEX"
feeder_type_text (some FeederType.duplex) = "DUPLEX"

abbrev pub feeder_orientation_text : Option FeederOrientation → String
feeder_orientation_text none = ""
feeder_orientation_text (some FeederOrientation.portrait) = "PORTRAIT"
feeder_orientation_text (some FeederOrientation.landscape) = "LANDSCAPE"

-- The variables that the command sees.
unfoldable pub environment : Interrupt → List (String × String)
environment i =
    ("SCANNER_COLOR_MODE", color_mode_text i.color_mode)
    ∷ ("SCANNER_PAGE", size_text i.size)
    ∷ ("SCANNER_FORMAT", format_text i.format)
    ∷ ("SCANNER_DPI", dpi_text i.dpi)
    ∷ ("SCANNER_SOURCE", source_text i.source)
    ∷ ("SCANNER_ADF_TYPE", feeder_type_text i.feeder_type)
    ∷ ("SCANNER_ADF_ORIENT", feeder_orientation_text i.feeder_orientation)
    ∷ []
