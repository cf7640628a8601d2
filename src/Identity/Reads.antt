-- ===== src/Identity/Reads.antt =====
-- bjnp/src/identity.rs: which bytes are read as a map, and which make the reader panic.
use scanner_button.Prelude.{
  ℕ, suc, ◌/◌, ◌%◌, ◌+◌, ◌-◌, ◌<◌, ◌≤◌, ◌≡◌, ◌↔◌, ◌⊎◌, refl, sym, ◌∙◌, Option, none, some, List, [],
  ◌∷◌, ◌++◌, arith, length, take, le→leb, le→not_ltb, inl, inr, length-take,
}
use scanner_button.Rust.Outcome.{ok, panic}
use scanner_button.Rust.Word.{u16_to_be_bytes, from_be_bytes, from_be_bytes-u16}
use scanner_button.Rust.Text.{Utf8, valid, error, from_utf8, split_terminator}
use scanner_button.Rust.Splits.{Located, from_utf8-Located}
use scanner_button.Identity.Wire.{collect, utf8_error, read_identity, identity_from_bytes}

-- With a length in front that counts itself, and as many bytes behind it.
pub identity_from_bytes-u16 :
    (n : ℕ) (rest : List ℕ)
    → n + 2 < 65536
    → n ≤ length rest
    → identity_from_bytes (u16_to_be_bytes (n + 2) ++ rest) ≡ read_identity rest (take n rest) n
unfolding identity_from_bytes u16_to_be_bytes
identity_from_bytes-u16 n rest small fits =
    let read : from_be_bytes ((n + 2) / 256 % 256 ∷ (n + 2) % 256 ∷ []) ≡ n + 2 =
      unfold u16_to_be_bytes in from_be_bytes-u16 (n + 2) small in
    let back : n + 2 - 2 ≡ n = omega arith in
    let whole : n - 0 ≡ n = omega arith in
    rw (
      le→leb 2 (suc (suc (length rest))) (omega arith),
      read,
      le→not_ltb (n + 2) 2 (omega arith),
      back,
      le→leb n (length rest) fits,
      le→leb 0 n (omega arith),
      whole,
    )

utf8_cases :
    (bytes : List ℕ)
    → (from_utf8 bytes ≡ valid) ⊎ ((at : ℕ) × (len : Option ℕ) × (from_utf8 bytes ≡ error at len))
utf8_cases bytes = of (from_utf8 bytes)
  where
    of : (u : Utf8) → (u ≡ valid) ⊎ ((at : ℕ) × (len : Option ℕ) × (u ≡ error at len))
    of valid = inl refl
    of (error at len) = inr (at, len, refl)

pub read_identity-valid :
    (buffer identity : List ℕ) (n : ℕ)
    → from_utf8 identity ≡ valid
    → read_identity buffer identity n
      ≡ ok (record { entries = collect (split_terminator b';' identity) [] }, n + 2)
unfolding read_identity
read_identity-valid buffer identity n u = rw (read_identity, u)

read_identity_error :
    (buffer identity : List ℕ) (n at : ℕ) (len : Option ℕ)
    → from_utf8 identity ≡ error at len
    → read_identity buffer identity n ≡ utf8_error buffer n at len
unfolding read_identity
read_identity_error buffer identity n at len u = rw (read_identity, u)

utf8_error-panic :
    (buffer : List ℕ) (n at : ℕ) (len : Option ℕ)
    → Located n (error at len)
    → n ≤ length buffer
    → utf8_error buffer n at len ≡ panic
    → error at len ≡ error 0 (some 1)
unfolding utf8_error
utf8_error-panic buffer n at none h fits e = cc
utf8_error-panic buffer n at (some len) h fits e = ground arith

first_panics : (buffer : List ℕ) (n : ℕ) → utf8_error buffer n 0 (some 1) ≡ panic
unfolding utf8_error
first_panics buffer n = refl

-- A reader of the declared bytes panics exactly when their very first character is wrong in a
-- single byte: then the position below it is asked for.
pub identity_panics_iff :
    (n : ℕ) (rest : List ℕ)
    → n + 2 < 65536
    → n ≤ length rest
    → (identity_from_bytes (u16_to_be_bytes (n + 2) ++ rest) ≡ panic)
      ↔ (from_utf8 (take n rest) ≡ error 0 (some 1))
identity_panics_iff n rest small fits = (
  λ e. elim (utf8_cases (take n rest)) [
    | inl u ↦
        cc
          (read_identity-valid rest (take n rest) n u, identity_from_bytes-u16 n rest small fits, e)
    | inr (at, len, u) ↦
        u
        ∙ utf8_error-panic rest n at len (located at len u) fits (
            sym (read_identity_error rest (take n rest) n at len u)
            ∙ sym (identity_from_bytes-u16 n rest small fits)
            ∙ e)
  ],
  λ u.
      identity_from_bytes-u16 n rest small fits
      ∙ read_identity_error rest (take n rest) n 0 (some 1) u
      ∙ first_panics rest n,
)
  where
    located :
        (at : ℕ) (len : Option ℕ)
        → from_utf8 (take n rest) ≡ error at len
        → Located n (error at len)
    located at len u =
        let size : length (take n rest) ≡ n = omega (arith, length-take n rest) in
        rw (size, u) at (from_utf8-Located (take n rest))
