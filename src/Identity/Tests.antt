-- ===== src/Identity/Tests.antt =====
-- bjnp/src/identity.rs: runs at concrete inputs.
use scanner_button.Prelude.{
  ℕ, ◌+◌, ◌<◌, ◌≡◌, ◌↔◌, refl, none, some, List, [], ◌∷◌, ◌++◌, arith, take,
}
use scanner_button.Rust.Outcome.{ok, panic, ◌>>=◌}
use scanner_button.Rust.Word.{u16_to_be_bytes}
use scanner_button.Rust.Text.{valid, error, from_utf8, check, follow}
use scanner_button.Serdes.Traits.{serialize_to_vec}
use scanner_button.Identity.Wire.{
  Response, lookup, as_str_len, shown, identity_from_bytes, identity_serialize,
}
use scanner_button.Identity.Entries.{IsEntry, IsFresh, text}
use scanner_button.Identity.Reads.{identity_panics_iff}
use scanner_button.Identity.Writes.{identity_reads, serialize_loses_byte}

-- MFG:CN;MDL:MX;
abbrev entries : List (List ℕ × List ℕ)
entries =
    (b'M' ∷ b'F' ∷ b'G' ∷ [], b'C' ∷ b'N' ∷ []) ∷ (b'M' ∷ b'D' ∷ b'L' ∷ [], b'M' ∷ b'X' ∷ []) ∷ []

first : IsEntry (b'M' ∷ b'F' ∷ b'G' ∷ [], b'C' ∷ b'N' ∷ [])
first = record {
  key_colon = ground arith;
  key_semicolon = ground arith;
  value_semicolon = ground arith;
}

second : IsEntry (b'M' ∷ b'D' ∷ b'L' ∷ [], b'M' ∷ b'X' ∷ [])
second = record {
  key_colon = ground arith;
  key_semicolon = ground arith;
  value_semicolon = ground arith;
}

distinct : IsFresh [] entries
unfolding lookup
distinct = (refl, (refl, tt))

entries_valid : from_utf8 (shown entries) ≡ valid
unfolding from_utf8 check follow shown
entries_valid = refl

entries_small : as_str_len entries + 2 < 65536
unfolding as_str_len
entries_small = omega arith

identity_reads_example :
    identity_from_bytes (u16_to_be_bytes (as_str_len entries + 2) ++ (shown entries ++ (9 ∷ [])))
    ≡ ok (record { entries = entries }, as_str_len entries + 2)
identity_reads_example =
    identity_reads entries (9 ∷ []) (first, (second, tt)) distinct entries_valid entries_small

-- The first entry as it is, and MDL:M for MDL:MX.
abbrev front : List (List ℕ × List ℕ)
front = (b'M' ∷ b'F' ∷ b'G' ∷ [], b'C' ∷ b'N' ∷ []) ∷ []

abbrev model_key : List ℕ
model_key = b'M' ∷ b'D' ∷ b'L' ∷ []

cut : IsEntry (model_key, b'M' ∷ [])
cut = record {
  key_colon = ground arith;
  key_semicolon = ground arith;
  value_semicolon = ground arith;
}

front_distinct : IsFresh [] front
unfolding lookup
front_distinct = (refl, tt)

model_new : lookup front model_key ≡ none
unfolding lookup
model_new = refl

cut_valid : from_utf8 (shown front ++ text model_key (b'M' ∷ [])) ≡ valid
unfolding from_utf8 check follow shown
cut_valid = refl

cut_small : as_str_len (front ++ ((model_key, (b'M' ∷ []) ++ (b'X' ∷ [])) ∷ [])) < 65536
unfolding as_str_len
cut_small = omega arith

abbrev model : Response
model = record { entries = entries }

serialize_loses_byte_example :
    (do bytes ← serialize_to_vec model; identity_from_bytes bytes)
    ≡ ok (record { entries = front ++ ((model_key, b'M' ∷ []) ∷ []) }, as_str_len entries)
serialize_loses_byte_example =
    serialize_loses_byte front model_key (b'M' ∷ []) b'X' (first, tt) cut front_distinct model_new
      cut_valid cut_small

-- A byte that begins no character, in front.
identity_panics_iff_example :
    (identity_from_bytes (u16_to_be_bytes (3 + 2) ++ (0xff ∷ b'a' ∷ b'b' ∷ [])) ≡ panic)
    ↔ (from_utf8 (take 3 (0xff ∷ b'a' ∷ b'b' ∷ [])) ≡ error 0 (some 1))
identity_panics_iff_example =
    identity_panics_iff 3 (0xff ∷ b'a' ∷ b'b' ∷ []) (omega arith) (omega arith)

starts_wrong : from_utf8 (take 3 (0xff ∷ b'a' ∷ b'b' ∷ [])) ≡ error 0 (some 1)
unfolding from_utf8 check follow
starts_wrong = refl
