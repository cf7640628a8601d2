-- ===== src/Listener/Environment.antt =====
-- src/poll.rs and the help of src/main.rs: the variables that a launched command sees.
use scanner_button.Prelude.{◌≡◌, refl, Option, none, some, String, List, [], ◌∷◌}
use mathlib.Core.List.{Memᴰ}
use scanner_button.Poll.Response.{
  Interrupt, ColorMode, Size, Format, Dpi, Source, FeederType, FeederOrientation,
}
use scanner_button.Listener.Launch.{
  environment, color_mode_text, size_text, format_text, dpi_text, source_text, feeder_type_text,
  feeder_orientation_text,
}

-- The values, as the help of the command line lists them.
abbrev pub color_modes : List (ColorMode × String)
color_modes = (ColorMode.color, "COLOR") ∷ (ColorMode.mono, "MONO") ∷ []

abbrev pub pages : List (Size × String)
pages =
    (Size.a4, "A4")
    ∷ (Size.letter, "LETTER")
    ∷ (Size.size_10x15, "10x15")
    ∷ (Size.size_13x18, "13x18")
    ∷ (Size.auto, "AUTO")
    ∷ []

abbrev pub formats : List (Format × String)
formats =
    (Format.jpeg, "JPEG")
    ∷ (Format.tiff, "TIFF")
    ∷ (Format.pdf, "PDF")
    ∷ (Format.kompakt_pdf, "KOMPAKT_PDF")
    ∷ []

abbrev pub resolutions : List (Dpi × String)
resolutions =
    (Dpi.dpi_75, "75") ∷ (Dpi.dpi_150, "150") ∷ (Dpi.dpi_300, "300") ∷ (Dpi.dpi_600, "600") ∷ []

abbrev pub sources : List (Source × String)
sources = (Source.flatbed, "FLATBED") ∷ (Source.auto_document_feeder, "FEEDER") ∷ []

-- A feeder that is not reported leaves its two variables empty.
abbrev pub adf_types : List (Option FeederType × String)
adf_types =
    (some FeederType.simplex, "SIMPLEX") ∷ (some FeederType.duplex, "DUPLEX") ∷ (none, "") ∷ []

abbrev pub adf_orients : List (Option FeederOrientation × String)
adf_orients =
    (some FeederOrientation.portrait, "PORTRAIT")
    ∷ (some FeederOrientation.landscape, "LANDSCAPE")
    ∷ (none, "")
    ∷ []

-- Seven variables, each with the documented text of its part of the interrupt.
pub record IsEnvironment (i : Interrupt) (env : List (String × String)) : Type 0 where
  pub color_mode : String
  pub page : String
  pub format : String
  pub dpi : String
  pub source : String
  pub adf_type : String
  pub adf_orient : String
  pub listed :
      env
      ≡ ("SCANNER_COLOR_MODE", color_mode)
        ∷ ("SCANNER_PAGE", page)
        ∷ ("SCANNER_FORMAT", format)
        ∷ ("SCANNER_DPI", dpi)
        ∷ ("SCANNER_SOURCE", source)
        ∷ ("SCANNER_ADF_TYPE", adf_type)
        ∷ ("SCANNER_ADF_ORIENT", adf_orient)
        ∷ []
  pub has_color_mode : Memᴰ (i.color_mode, color_mode) color_modes
  pub has_page : Memᴰ (i.size, page) pages
  pub has_format : Memᴰ (i.format, format) formats
  pub has_dpi : Memᴰ (i.dpi, dpi) resolutions
  pub has_source : Memᴰ (i.source, source) sources
  pub has_adf_type : Memᴰ (i.feeder_type, adf_type) adf_types
  pub has_adf_orient : Memᴰ (i.feeder_orientation, adf_orient) adf_orients

color_mode_listed : (x : ColorMode) → Memᴰ (x, color_mode_text x) color_modes
color_mode_listed ColorMode.color = Memᴰ.head refl
color_mode_listed ColorMode.mono = Memᴰ.tail (Memᴰ.head refl)

size_listed : (x : Size) → Memᴰ (x, size_text x) pages
size_listed Size.a4 = Memᴰ.head refl
size_listed Size.letter = Memᴰ.tail (Memᴰ.head refl)
size_listed Size.size_10x15 = Memᴰ.tail (Memᴰ.tail (Memᴰ.head refl))
size_listed Size.size_13x18 = Memᴰ.tail (Memᴰ.tail (Memᴰ.tail (Memᴰ.head refl)))
size_listed Size.auto = Memᴰ.tail (Memᴰ.tail (Memᴰ.tail (Memᴰ.tail (Memᴰ.head refl))))

format_listed : (x : Format) → Memᴰ (x, format_text x) formats
format_listed Format.jpeg = Memᴰ.head refl
format_listed Format.tiff = Memᴰ.tail (Memᴰ.head refl)
format_listed Format.pdf = Memᴰ.tail (Memᴰ.tail (Memᴰ.head refl))
format_listed Format.kompakt_pdf = Memᴰ.tail (Memᴰ.tail (Memᴰ.tail (Memᴰ.head refl)))

dpi_listed : (x : Dpi) → Memᴰ (x, dpi_text x) resolutions
dpi_listed Dpi.dpi_75 = Memᴰ.head refl
dpi_listed Dpi.dpi_150 = Memᴰ.tail (Memᴰ.head refl)
dpi_listed Dpi.dpi_300 = Memᴰ.tail (Memᴰ.tail (Memᴰ.head refl))
dpi_listed Dpi.dpi_600 = Memᴰ.tail (Memᴰ.tail (Memᴰ.tail (Memᴰ.head refl)))

source_listed : (x : Source) → Memᴰ (x, source_text x) sources
source_listed Source.flatbed = Memᴰ.head refl
source_listed Source.auto_document_feeder = Memᴰ.tail (Memᴰ.head refl)

feeder_type_listed : (x : Option FeederType) → Memᴰ (x, feeder_type_text x) adf_types
feeder_type_listed (some FeederType.simplex) = Memᴰ.head refl
feeder_type_listed (some FeederType.duplex) = Memᴰ.tail (Memᴰ.head refl)
feeder_type_listed none = Memᴰ.tail (Memᴰ.tail (Memᴰ.head refl))

feeder_orientation_listed :
    (x : Option FeederOrientation) → Memᴰ (x, feeder_orientation_text x) adf_orients
feeder_orientation_listed (some FeederOrientation.portrait) = Memᴰ.head refl
feeder_orientation_listed (some FeederOrientation.landscape) = Memᴰ.tail (Memᴰ.head refl)
feeder_orientation_listed none = Memᴰ.tail (Memᴰ.tail (Memᴰ.head refl))

pub environment-IsEnvironment : (i : Interrupt) → IsEnvironment i (environment i)
unfolding environment
environment-IsEnvironment i = record {
  color_mode = color_mode_text i.color_mode;
  page = size_text i.size;
  format = format_text i.format;
  dpi = dpi_text i.dpi;
  source = source_text i.source;
  adf_type = feeder_type_text i.feeder_type;
  adf_orient = feeder_orientation_text i.feeder_orientation;
  listed = refl;
  has_color_mode = color_mode_listed i.color_mode;
  has_page = size_listed i.size;
  has_format = format_listed i.format;
  has_dpi = dpi_listed i.dpi;
  has_source = source_listed i.source;
  has_adf_type = feeder_type_listed i.feeder_type;
  has_adf_orient = feeder_orientation_listed i.feeder_orientation;
}
