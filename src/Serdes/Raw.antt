-- ===== src/Serdes/Raw.antt =====
-- bjnp/src/serdes.rs: `HasRawRepr` and the blanket implementations over it. A `#[repr(C, packed)]`
-- struct of bytes is a `Layout`: its size, its bytes in order, and the struct that a reference
-- into a buffer shows.
use scanner_button.Prelude.{ℕ, ◌≡◌, List, ◌++◌, arith, length, length-append}
use scanner_button.Rust.Outcome.{Outcome, ok}
use scanner_button.Serdes.Error.{FormatError}
use scanner_button.Serdes.Traits.{Serialize, SizedDeserialize, deserialize_sized}
use scanner_button.Serdes.Traits.{deserialize_sized_enough}

pub record Layout (R : Type 0) : Type 0 where
  pub size_of : ℕ
  pub bytes : R → List ℕ
  pub view : List ℕ → R

abbrev pub raw_serialize : {T R : Type 0} → Layout R → (T → R) → Serialize T
raw_serialize layout to_raw = record {
  serialize = λ obj out. ok (out ++ layout.bytes (to_raw obj));
  size = λ _. layout.size_of;
}

abbrev pub raw_deserialize :
    {T R : Type 0} → Layout R → (R → Outcome T FormatError) → SizedDeserialize T
raw_deserialize layout try_from = record {
  size_of = layout.size_of;
  deserialize_exact = λ buffer. try_from (layout.view buffer);
}

-- Reading back, for a raw struct whose bytes have the struct's size.
pub deserialize-bytes :
    {T R : Type 0} (layout : Layout R) (try_from : R → Outcome T FormatError) (r : R)
    (rest : List ℕ) {x : T}
    → length (layout.bytes r) ≡ layout.size_of
    → layout.view (layout.bytes r ++ rest) ≡ r
    → try_from r ≡ ok x
    → deserialize_sized (raw_deserialize layout try_from) (layout.bytes r ++ rest)
      ≡ ok (x, layout.size_of)
deserialize-bytes layout try_from r rest sized seen accepted =
    deserialize_sized_enough _ _ (omega (arith, length-append (layout.bytes r) rest))
      (rw seen accepted)
