-- ===== src/Poll/Response/Types.antt =====
-- bjnp/src/poll/response.rs: the fields of an interrupt.
use scanner_button.Prelude.{ℕ, ◌≡◌, ◌≢◌, refl, some, String, [], ◌∷◌, arith}
use scanner_button.Serdes.Field.{Field, IsField, find_variant}

pub data ColorMode : Type 0 where
  color mono : ColorMode

abbrev color_mode_repr : ColorMode → ℕ
color_mode_repr color = 0x01
color_mode_repr mono = 0x02

abbrev color_mode_name : ColorMode → String
color_mode_name color = "color"
color_mode_name mono = "mono"

abbrev pub color_mode_field : Field ColorMode
color_mode_field = record {
  field_name = "color mode";
  variants = (color, 0x01) ∷ (mono, 0x02) ∷ [];
  as_repr = color_mode_repr;
  variant_name = color_mode_name;
}

color_mode_find :
    (a : ColorMode) → find_variant color_mode_field.variants (color_mode_repr a) ≡ some a
color_mode_find color = refl
color_mode_find _ = refl

pub color_mode-IsField : IsField color_mode_field
color_mode-IsField = record { find-as_repr = color_mode_find; as_repr-find = λ v a h. ground arith }

pub data Size : Type 0 where
  a4 letter size_10x15 size_13x18 auto : Size

abbrev size_repr : Size → ℕ
size_repr a4 = 0x01
size_repr letter = 0x02
size_repr size_10x15 = 0x08
size_repr size_13x18 = 0x09
size_repr auto = 0x0b

abbrev size_name : Size → String
size_name a4 = "A4"
size_name letter = "Letter"
size_name size_10x15 = "10x15"
size_name size_13x18 = "13x18"
size_name auto = "Auto"

abbrev pub size_field : Field Size
size_field = record {
  field_name = "page size";
  variants =
      (a4, 0x01) ∷ (letter, 0x02) ∷ (size_10x15, 0x08) ∷ (size_13x18, 0x09) ∷ (auto, 0x0b) ∷ [];
  as_repr = size_repr;
  variant_name = size_name;
}

size_find : (a : Size) → find_variant size_field.variants (size_repr a) ≡ some a
size_find a4 = refl
size_find _ = refl

pub size-IsField : IsField size_field
size-IsField = record { find-as_repr = size_find; as_repr-find = λ v a h. ground arith }

pub data Format : Type 0 where
  jpeg tiff pdf kompakt_pdf : Format

abbrev format_repr : Format → ℕ
format_repr jpeg = 0x01
format_repr tiff = 0x02
format_repr pdf = 0x03
format_repr kompakt_pdf = 0x04

abbrev format_name : Format → String
format_name jpeg = "JPEG"
format_name tiff = "TIFF"
format_name pdf = "PDF"
format_name kompakt_pdf = "Kompakt-PDF"

abbrev pub format_field : Field Format
format_field = record {
  field_name = "format";
  variants = (jpeg, 0x01) ∷ (tiff, 0x02) ∷ (pdf, 0x03) ∷ (kompakt_pdf, 0x04) ∷ [];
  as_repr = format_repr;
  variant_name = format_name;
}

format_find : (a : Format) → find_variant format_field.variants (format_repr a) ≡ some a
format_find jpeg = refl
format_find _ = refl

pub format-IsField : IsField format_field
format-IsField = record { find-as_repr = format_find; as_repr-find = λ v a h. ground arith }

pub data Dpi : Type 0 where
  dpi_75 dpi_150 dpi_300 dpi_600 : Dpi

abbrev dpi_repr : Dpi → ℕ
dpi_repr dpi_75 = 0x01
dpi_repr dpi_150 = 0x02
dpi_repr dpi_300 = 0x03
dpi_repr dpi_600 = 0x04

abbrev dpi_name : Dpi → String
dpi_name dpi_75 = "75"
dpi_name dpi_150 = "150"
dpi_name dpi_300 = "300"
dpi_name dpi_600 = "600"

abbrev pub dpi_field : Field Dpi
dpi_field = record {
  field_name = "DPI";
  variants = (dpi_75, 0x01) ∷ (dpi_150, 0x02) ∷ (dpi_300, 0x03) ∷ (dpi_600, 0x04) ∷ [];
  as_repr = dpi_repr;
  variant_name = dpi_name;
}

dpi_find : (a : Dpi) → find_variant dpi_field.variants (dpi_repr a) ≡ some a
dpi_find dpi_75 = refl
dpi_find _ = refl

pub dpi-IsField : IsField dpi_field
dpi-IsField = record { find-as_repr = dpi_find; as_repr-find = λ v a h. ground arith }

pub data Source : Type 0 where
  flatbed auto_document_feeder : Source

abbrev source_repr : Source → ℕ
source_repr flatbed = 0x01
source_repr auto_document_feeder = 0x02

abbrev source_name : Source → String
source_name flatbed = "flatbed"
source_name auto_document_feeder = "feeder"

abbrev pub source_field : Field Source
source_field = record {
  field_name = "source";
  variants = (flatbed, 0x01) ∷ (auto_document_feeder, 0x02) ∷ [];
  as_repr = source_repr;
  variant_name = source_name;
}

source_find : (a : Source) → find_variant source_field.variants (source_repr a) ≡ some a
source_find flatbed = refl
source_find _ = refl

pub source-IsField : IsField source_field
source-IsField = record { find-as_repr = source_find; as_repr-find = λ v a h. ground arith }

pub data FeederType : Type 0 where
  simplex duplex : FeederType

abbrev feeder_type_repr : FeederType → ℕ
feeder_type_repr simplex = 0x01
feeder_type_repr duplex = 0x02

abbrev feeder_type_name : FeederType → String
feeder_type_name simplex = "simplex"
feeder_type_name duplex = "duplex"

abbrev pub feeder_type_field : Field FeederType
feeder_type_field = record {
  field_name = "feeder type";
  variants = (simplex, 0x01) ∷ (duplex, 0x02) ∷ [];
  as_repr = feeder_type_repr;
  variant_name = feeder_type_name;
}

feeder_type_find :
    (a : FeederType) → find_variant feeder_type_field.variants (feeder_type_repr a) ≡ some a
feeder_type_find simplex = refl
feeder_type_find _ = refl

pub feeder_type-IsField : IsField feeder_type_field
feeder_type-IsField = record {
  find-as_repr = feeder_type_find;
  as_repr-find = λ v a h. ground arith;
}

pub data FeederOrientation : Type 0 where
  portrait landscape : FeederOrientation

abbrev feeder_orientation_repr : FeederOrientation → ℕ
feeder_orientation_repr portrait = 0x01
feeder_orientation_repr landscape = 0x02

abbrev feeder_orientation_name : FeederOrientation → String
feeder_orientation_name portrait = "portrait"
feeder_orientation_name landscape = "landscape"

abbrev pub feeder_orientation_field : Field FeederOrientation
feeder_orientation_field = record {
  field_name = "feeder orientation";
  variants = (portrait, 0x01) ∷ (landscape, 0x02) ∷ [];
  as_repr = feeder_orientation_repr;
  variant_name = feeder_orientation_name;
}

feeder_orientation_find :
    (a : FeederOrientation)
    → find_variant feeder_orientation_field.variants (feeder_orientation_repr a) ≡ some a
feeder_orientation_find portrait = refl
feeder_orientation_find _ = refl

pub feeder_orientation-IsField : IsField feeder_orientation_field
feeder_orientation-IsField = record {
  find-as_repr = feeder_orientation_find;
  as_repr-find = λ v a h. ground arith;
}

-- The fields of the feeder are optional, and zero stands for none.
pub feeder_type_repr-ne-zero : (a : FeederType) → feeder_type_repr a ≢ 0
feeder_type_repr-ne-zero simplex = omega arith
feeder_type_repr-ne-zero duplex = omega arith

pub feeder_orientation_repr-ne-zero : (a : FeederOrientation) → feeder_orientation_repr a ≢ 0
feeder_orientation_repr-ne-zero portrait = omega arith
feeder_orientation_repr-ne-zero landscape = omega arith

-- `DPI::dpi_value`
unfoldable pub dpi_value : Dpi → ℕ
dpi_value dpi_75 = 75
dpi_value dpi_150 = 150
dpi_value dpi_300 = 300
dpi_value dpi_600 = 600
