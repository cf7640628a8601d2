-- ===== src/Identity/Wire.antt =====
-- bjnp/src/identity.rs: `Response`, a map from strings to strings.
use scanner_button.Prelude.{
  ℕ, ◌+◌, ◌-◌, Bool, true, false, Option, none, some, List, [], ◌∷◌, ◌++◌, length, get_or, ltb,
  ◌==◌, if◌then◌else◌,
}
use scanner_button.Rust.Outcome.{Outcome, ok, err, panic, ◌>>=◌, ok_or}
use scanner_button.Rust.Slice.{get_range, array_of, slice_from}
use scanner_button.Rust.Word.{u16_to_be_bytes, from_be_bytes}
use scanner_button.Rust.Text.{valid, error, from_utf8, split_terminator, split_once}
use scanner_button.Serdes.Error.{
  ParseError, invalid_format, invalid_slice, invalid_byte, unexpected_end, offset_by,
}
use scanner_button.Serdes.Traits.{Serialize, Deserialize, invalid_input}
use scanner_button.Header.{bytes_eq}

-- The entries of the map in the order of its iterator, which the standard library leaves open.
pub record Response : Type 0 where
  pub entries : List (List ℕ × List ℕ)

unfoldable pub lookup : List (List ℕ × List ℕ) → List ℕ → Option (List ℕ)
lookup [] key = none
lookup ((k, v) ∷ rest) key = let found = lookup rest key in if bytes_eq k key then some v else found

unfoldable pub get : Response → List ℕ → Option (List ℕ)
get r key = lookup r.entries key

unfoldable pub contains_key : Response → List ℕ → Bool
contains_key r key = elim (get r key) [ none ↦ false | some v ↦ true ]

-- `HashMap::insert`: a key that is there keeps its place and gets the new value.
unfoldable pub insert : List ℕ → List ℕ → List (List ℕ × List ℕ) → List (List ℕ × List ℕ)
insert key value [] = (key, value) ∷ []
insert key value ((k, v) ∷ rest) =
    let inserted = insert key value rest in
    if bytes_eq k key then (k, value) ∷ rest else (k, v) ∷ inserted

-- `filter_map` and `collect`, into a map that has entries already.
unfoldable pub collect : List (List ℕ) → List (List ℕ × List ℕ) → List (List ℕ × List ℕ)
collect [] entries = entries
collect (item ∷ items) entries = elim (split_once b':' item) [
  | none ↦ collect items entries
  | some (key, value) ↦ collect items (insert key value entries)
]

unfoldable pub as_str_len : List (List ℕ × List ℕ) → ℕ
as_str_len [] = 0
as_str_len ((key, value) ∷ rest) = length key + length value + 2 + as_str_len rest

-- `Display`: `key:value;` for every entry.
unfoldable pub shown : List (List ℕ × List ℕ) → List ℕ
shown [] = []
shown ((key, value) ∷ rest) = key ++ (b':' ∷ (value ++ (b';' ∷ shown rest)))

-- The closure for an invalid string. Below position 1 the subtraction or the index panics.
unfoldable pub utf8_error : List ℕ → ℕ → ℕ → Option ℕ → Outcome (Response × ℕ) ParseError
utf8_error buffer identity_len valid_up_to none =
    err (unexpected_end (identity_len + 1) identity_len)
utf8_error buffer identity_len valid_up_to (some len) =
    if ltb 1 len
    then err (invalid_format (invalid_slice valid_up_to (valid_up_to + len) "invalid UTF-8 bytes"))
    else if valid_up_to == 0
    then panic
    else if ltb (valid_up_to - 1) (length buffer)
    then err (
        invalid_format
          (invalid_byte (get_or buffer (valid_up_to - 1) 0) (valid_up_to - 1) "invalid UTF-8 byte"))
    else panic

unfoldable pub read_identity : List ℕ → List ℕ → ℕ → Outcome (Response × ℕ) ParseError
read_identity buffer identity identity_len = elim (from_utf8 identity) [
  | valid ↦ ok (record { entries = collect (split_terminator b';' identity) [] }, identity_len + 2)
  | error valid_up_to error_len ↦ utf8_error buffer identity_len valid_up_to error_len
]

unfoldable pub identity_from_bytes : List ℕ → Outcome (Response × ℕ) ParseError
identity_from_bytes buffer = do
  identity_len ← ok_or (get_range buffer 0 2) (unexpected_end 2 (length buffer))
  identity_len ← array_of 2 identity_len
  let identity_len = from_be_bytes identity_len
  buffer ← slice_from buffer 2
  if ltb identity_len 2
      then err
          (invalid_format (invalid_slice 0 2 "invalid length of identity, should always be >=2"))
      else (do
        let identity_len = identity_len - 2
        identity ←
            ok_or (get_range buffer 0 identity_len)
              (offset_by (unexpected_end identity_len (length buffer)) 2)
        read_identity buffer identity identity_len)

instance abbrev pub identity_deserialize : Deserialize Response
identity_deserialize = record { deserialize = identity_from_bytes }

instance abbrev pub identity_serialize : Serialize Response
identity_serialize = record {
  serialize = λ r out.
      if ltb 65535 (as_str_len r.entries)
      then err (invalid_input "length of identity exceeds maximum limit (u16::MAX)")
      else ok ((out ++ u16_to_be_bytes (as_str_len r.entries)) ++ shown r.entries);
  size = λ r. 2 + as_str_len r.entries;
}
