-- ===== src/Serdes/Traits.antt =====
-- bjnp/src/serdes.rs: `Serialize`, `Deserialize`, `SizedDeserialize`, `Empty`, and what a client
-- may rely on of a type that has both directions.
use scanner_button.Prelude.{ℕ, ◌≡◌, ◌≢◌, refl, String, List, [], ◌++◌, length, ltb, if◌then◌else◌}
use scanner_button.Prelude.{◌≤◌, le→not_ltb, Bool-cases, not_ltb→le, inl, inr, append-nil}
use scanner_button.Rust.Outcome.{Outcome, ok, err, panic, ◌>>=◌, Outcome-cases, map_err, unwrap}
use scanner_button.Serdes.Error.{FormatError, ParseError, invalid_format, unexpected_end}

-- `std::io::Error` of kind `InvalidInput`, with its message.
pub data IoError : Type 0 where
  invalid_input : String → IoError

-- `serialize` appends to the vector that it is given.
pub record Serialize (T : Type 0) : Type 0 where
  pub serialize : T → List ℕ → Outcome (List ℕ) IoError
  pub size : T → ℕ

pub record Deserialize (T : Type 0) : Type 0 where
  pub deserialize : List ℕ → Outcome (T × ℕ) ParseError

pub record SizedDeserialize (T : Type 0) : Type 0 where
  pub size_of : ℕ
  pub deserialize_exact : List ℕ → Outcome T FormatError

unfoldable pub serialize_to_vec :
    {T : Type 0} {E : Type 0} ⦃s : Serialize T⦄ → T → Outcome (List ℕ) E
serialize_to_vec ⦃s⦄ obj = unwrap (s.serialize obj [])

-- The blanket implementation: too short a buffer is an error before anything is read.
unfoldable pub deserialize_sized :
    {T : Type 0} → SizedDeserialize T → List ℕ → Outcome (T × ℕ) ParseError
deserialize_sized s buffer =
    if ltb (length buffer) s.size_of
    then err (unexpected_end s.size_of (length buffer))
    else (do obj ← map_err invalid_format (s.deserialize_exact buffer); ok (obj, s.size_of))

abbrev pub sized_deserialize : {T : Type 0} → SizedDeserialize T → Deserialize T
sized_deserialize s = record { deserialize = deserialize_sized s }

-- A type that reads back what it wrote, whatever follows, for the values that are `Valid`.
pub record IsCodec {T : Type 0} ⦃s : Serialize T⦄ ⦃d : Deserialize T⦄ (Valid : T → Type 0)
    : Type 0 where
  pub encode : T → List ℕ
  pub serialize-encode : (x : T) (out : List ℕ) → Valid x → s.serialize x out ≡ ok (out ++ encode x)
  pub length-encode : (x : T) → Valid x → length (encode x) ≡ s.size x
  pub deserialize-encode :
      (x : T) (rest : List ℕ) → Valid x → d.deserialize (encode x ++ rest) ≡ ok (x, s.size x)

pub serialize_to_vec-encode :
    {T : Type 0} {E : Type 0} ⦃s : Serialize T⦄ ⦃d : Deserialize T⦄ {Valid : T → Type 0}
    (c : IsCodec Valid) (x : T)
    → Valid x
    → serialize_to_vec {E = E} x ≡ ok (c.encode x)
unfolding serialize_to_vec
serialize_to_vec-encode c x h = rw (c.serialize-encode x [] h)

-- With enough bytes the result is that of `deserialize_exact`.
pub deserialize_sized_enough :
    {T : Type 0} (s : SizedDeserialize T) (buffer : List ℕ) {x : T}
    → s.size_of ≤ length buffer
    → s.deserialize_exact buffer ≡ ok x
    → deserialize_sized s buffer ≡ ok (x, s.size_of)
unfolding deserialize_sized
deserialize_sized_enough s buffer h e = rw (le→not_ltb _ _ h, e)

-- A success read enough bytes, and reports the type's size.
pub deserialize_sized-eq-ok :
    {T : Type 0} (s : SizedDeserialize T) (buffer : List ℕ) (x : T) (n : ℕ)
    → deserialize_sized s buffer ≡ ok (x, n)
    → (s.size_of ≤ length buffer) × (s.deserialize_exact buffer ≡ ok x) × (n ≡ s.size_of)
unfolding deserialize_sized
deserialize_sized-eq-ok s buffer x n e = elim (Bool-cases (ltb (length buffer) s.size_of)) [
  | inl short ↦ cc (rw short at e)
  | inr enough ↦ elim (Outcome-cases (s.deserialize_exact buffer)) [
    | inl (y, found) ↦
        (not_ltb→le _ _ enough, cc (found, rw (enough, found) at e), cc (rw (enough, found) at e))
    | inr (inl (x, failed)) ↦ cc (rw (enough, failed) at e)
    | inr (inr failed) ↦ cc (rw (enough, failed) at e)
  ]
]

pub deserialize_sized-ne-panic :
    {T : Type 0} (s : SizedDeserialize T)
    → ((buffer : List ℕ) → s.deserialize_exact buffer ≢ panic)
    → (buffer : List ℕ) → deserialize_sized s buffer ≢ panic
unfolding deserialize_sized
deserialize_sized-ne-panic s sound buffer e = elim (Bool-cases (ltb (length buffer) s.size_of)) [
  | inl short ↦ cc (rw short at e)
  | inr enough ↦ elim (Outcome-cases (s.deserialize_exact buffer)) [
    | inl (y, found) ↦ cc (rw (enough, found) at e)
    | inr (inl (x, failed)) ↦ cc (rw (enough, failed) at e)
    | inr (inr failed) ↦ sound buffer failed
  ]
]

-- `Empty` writes and reads nothing.
pub data Empty : Type 0 where
  empty : Empty

instance abbrev pub empty_serialize : Serialize Empty
empty_serialize = record { serialize = λ _ out. ok out; size = λ _. 0 }

instance abbrev pub empty_deserialize : Deserialize Empty
empty_deserialize = record { deserialize = λ _. ok (empty, 0) }

empty_deserialize-encode :
    (x : Empty) (rest : List ℕ)
    → ◌≡◌ {A = Outcome (Empty × ℕ) ParseError} (ok (empty, 0)) (ok (x, 0))
empty_deserialize-encode empty rest = refl

pub Empty-IsCodec : IsCodec {T = Empty} (λ _. Unit)
Empty-IsCodec = record {
  encode = λ _. [];
  serialize-encode = λ x out _. rw append-nil;
  length-encode = λ x _. refl;
  deserialize-encode = λ x rest _. empty_deserialize-encode x rest;
}

pub Empty-encode : Empty-IsCodec.encode empty ≡ []
unfolding Empty-IsCodec
Empty-encode = refl

module _ {T : Type 0} ⦃s : Serialize T⦄ ⦃d : Deserialize T⦄ {Valid : T → Type 0} where
  -- Serialize, put anything behind, deserialize.
  pub round_trip :
      (c : IsCodec Valid) (x : T) (rest : List ℕ)
      → Valid x
      → (do bytes ← serialize_to_vec x; d.deserialize (bytes ++ rest)) ≡ ok (x, s.size x)
  unfolding serialize_to_vec
  round_trip c x rest h = rw (c.serialize-encode x [] h) (c.deserialize-encode x rest h)

  -- With nothing behind.
  pub deserialize-encode_exact :
      (c : IsCodec Valid) (x : T) → Valid x → d.deserialize (c.encode x) ≡ ok (x, s.size x)
  deserialize-encode_exact c x h = rw append-nil at (c.deserialize-encode x [] h)
