-- ===== src/Serdes/Field.antt =====
-- bjnp/src/serdes.rs: `make_u8_field!` and `make_wider_field!`. What a use of a macro gives is a
-- record: the name of the field, the variants with their values in order of declaration, the cast
-- `as u8` or `as u16`, and the text of each variant.
use scanner_button.Prelude.{ℕ, ◌≡◌, String, ◌<>◌, Option, none, some, List, [], ◌∷◌, arith}
use scanner_button.Prelude.{◌==◌, if◌then◌else◌}
use scanner_button.Prelude.{Option-cases, ◌≢◌, ◌⊎◌, inl, inr, ap}
use scanner_button.Rust.Outcome.{Outcome, ok, err, ok_or}
use scanner_button.Serdes.Error.{FormatError, invalid_byte, invalid_slice}

pub record Field (A : Type 0) : Type 0 where
  pub field_name : String
  pub variants : List (A × ℕ)
  pub as_repr : A → ℕ
  pub variant_name : A → String

-- The `match` on the value: the first variant that has it.
abbrev pub find_variant : {A : Type 0} → List (A × ℕ) → ℕ → Option A
find_variant [] value = none
find_variant ((a, v) ∷ more) value = if v == value then some a else find_variant more value

-- `TryFrom<u8>`
unfoldable pub try_from_u8 : {A : Type 0} → Field A → ℕ → Outcome A FormatError
try_from_u8 f value =
    ok_or (find_variant f.variants value) (invalid_byte value 0 ("unknown " <> f.field_name))

-- `TryFrom` of a wider type, of `size` bytes.
unfoldable pub try_from_wider : {A : Type 0} → ℕ → Field A → ℕ → Outcome A FormatError
try_from_wider size f value =
    ok_or (find_variant f.variants value) (invalid_slice 0 size ("unknown " <> f.field_name))

-- What a table of variants promises: it lists every variant under its own value.
pub record IsField {A : Type 0} (f : Field A) : Type 0 where
  pub find-as_repr : (a : A) → find_variant f.variants (f.as_repr a) ≡ some a
  pub as_repr-find : (v : ℕ) (a : A) → find_variant f.variants v ≡ some a → f.as_repr a ≡ v

module _ {A : Type 0} (f : Field A) (lawful : IsField f) where
  pub try_from_u8-as_repr : (a : A) → try_from_u8 f (f.as_repr a) ≡ ok a
  unfolding try_from_u8
  try_from_u8-as_repr a = ground (arith, lawful.find-as_repr a)

  pub try_from_wider-as_repr : (size : ℕ) (a : A) → try_from_wider size f (f.as_repr a) ≡ ok a
  unfolding try_from_wider
  try_from_wider-as_repr size a = ground (arith, lawful.find-as_repr a)

  pub as_repr-try_from_u8 : (v : ℕ) (a : A) → try_from_u8 f v ≡ ok a → f.as_repr a ≡ v
  unfolding try_from_u8
  as_repr-try_from_u8 v a h = ground (arith, lawful.as_repr-find v a)

  -- The value of a variant, or of none.
  pub try_from_u8_cases :
      (v : ℕ)
      → ((a : A) × (f.as_repr a ≡ v) × (try_from_u8 f v ≡ ok a))
        ⊎ (((a : A) → f.as_repr a ≢ v)
            × (try_from_u8 f v ≡ err (invalid_byte v 0 ("unknown " <> f.field_name))))
  unfolding try_from_u8
  try_from_u8_cases v = elim (Option-cases (find_variant f.variants v)) [
    | inl e ↦ inr (λ a same. cc (e, lawful.find-as_repr a, ap (find_variant f.variants) same), rw e)
    | inr (a, e) ↦ inl (a, lawful.as_repr-find v a e, rw e)
  ]

  pub try_from_wider_cases :
      (size v : ℕ)
      → ((a : A) × (f.as_repr a ≡ v) × (try_from_wider size f v ≡ ok a))
        ⊎ (((a : A) → f.as_repr a ≢ v)
            × (try_from_wider size f v ≡ err (invalid_slice 0 size ("unknown " <> f.field_name))))
  unfolding try_from_wider
  try_from_wider_cases size v = elim (Option-cases (find_variant f.variants v)) [
    | inl e ↦ inr (λ a same. cc (e, lawful.find-as_repr a, ap (find_variant f.variants) same), rw e)
    | inr (a, e) ↦ inl (a, lawful.as_repr-find v a e, rw e)
  ]
