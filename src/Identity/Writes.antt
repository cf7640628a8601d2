-- ===== src/Identity/Writes.antt =====
-- bjnp/src/identity.rs: reading back what a map is written as. The length that is written does not
-- count its own two bytes, and the reader takes it to.
use scanner_button.Prelude.{
  ℕ, ◌+◌, ◌<◌, ◌≡◌, refl, sym, ap, ◌∙◌, none, List, [], ◌∷◌, ◌++◌, arith, All, length, le→not_ltb,
  append_assoc, append-nil, take-append_exact, length-append,
}
use scanner_button.Rust.Outcome.{ok, ◌>>=◌}
use scanner_button.Rust.Word.{u16_to_be_bytes}
use scanner_button.Rust.Text.{valid, from_utf8, split_terminator, split, terminated}
use scanner_button.Rust.Splits.{split_terminator_last}
use scanner_button.Serdes.Traits.{serialize_to_vec}
use scanner_button.Identity.Wire.{
  Response, lookup, collect, as_str_len, shown, read_identity, identity_from_bytes,
  identity_serialize,
}
use scanner_button.Identity.Reads.{identity_from_bytes-u16, read_identity-valid}
use scanner_button.Identity.Entries.{
  IsEntry, IsFresh, text, text-Lacks, shown-append, shown_last, collect-shown, collect_one,
  length-shown,
}

-- What is read from a valid text that stands behind its length.
read_text :
    (body rest : List ℕ) (n : ℕ)
    → length body ≡ n
    → n + 2 < 65536
    → from_utf8 body ≡ valid
    → identity_from_bytes (u16_to_be_bytes (n + 2) ++ (body ++ rest))
      ≡ ok (record { entries = collect (split_terminator b';' body) [] }, n + 2)
read_text body rest n size small u =
    identity_from_bytes-u16 n (body ++ rest) small (omega (arith, length-append body rest))
    ∙ ap (λ (x : List ℕ). read_identity (body ++ rest) x n) (take-append_exact n body rest size)
    ∙ read_identity-valid (body ++ rest) body n u

nothing_left : (es : List (List ℕ × List ℕ)) → collect (split_terminator b';' []) es ≡ es
unfolding collect split_terminator split terminated
nothing_left es = refl

whole :
    (es : List (List ℕ × List ℕ))
    → All IsEntry es
    → IsFresh [] es
    → collect (split_terminator b';' (shown es)) [] ≡ es
whole es h fresh = rw append-nil at (collect-shown es [] [] h fresh) ∙ nothing_left es

-- Entries without stray separators and with distinct keys, whose text is valid UTF-8: with a length
-- in front that counts itself, they are read as they stand, whatever follows, and the size is that
-- length.
pub identity_reads :
    (es : List (List ℕ × List ℕ)) (rest : List ℕ)
    → All IsEntry es
    → IsFresh [] es
    → from_utf8 (shown es) ≡ valid
    → as_str_len es + 2 < 65536
    → identity_from_bytes (u16_to_be_bytes (as_str_len es + 2) ++ (shown es ++ rest))
      ≡ ok (record { entries = es }, as_str_len es + 2)
identity_reads es rest h fresh u small =
    read_text (shown es) rest (as_str_len es) (length-shown es) small u
    ∙ ap (λ (x : List (List ℕ × List ℕ)). ok (record { entries = x }, as_str_len es + 2))
        (whole es h fresh)

text_last :
    (key value : List ℕ)
    → IsEntry (key, value)
    → split_terminator b';' (text key value) ≡ text key value ∷ []
text_last [] value h = split_terminator_last b';' b':' value (text-Lacks [] value h)
text_last (b ∷ key) value h =
    split_terminator_last b';' b (key ++ (b':' ∷ value)) (text-Lacks (b ∷ key) value h)

collect_done : (es : List (List ℕ × List ℕ)) → collect [] es ≡ es
unfolding collect
collect_done es = refl

module _ (front : List (List ℕ × List ℕ)) (key value : List ℕ) where
  cut_collect :
      All IsEntry front
      → IsEntry (key, value)
      → IsFresh [] front
      → lookup front key ≡ none
      → collect (split_terminator b';' (shown front ++ text key value)) []
        ≡ front ++ ((key, value) ∷ [])
  cut_collect h k fresh new =
      collect-shown front [] (text key value) h fresh
      ∙ ap (λ (x : List (List ℕ)). collect x front) (text_last key value k)
      ∙ collect_one key value [] front k.key_colon new
      ∙ collect_done (front ++ ((key, value) ∷ []))

  -- All that is shown, but for its last two bytes.
  shown_cut :
      (b : ℕ)
      → shown (front ++ ((key, value ++ (b ∷ [])) ∷ []))
        ≡ (shown front ++ text key value) ++ (b ∷ b';' ∷ [])
  shown_cut b =
      shown-append front ((key, value ++ (b ∷ [])) ∷ [])
      ∙ ap (λ (x : List ℕ). shown front ++ x) (shown_last key value b)
      ∙ sym (append_assoc (shown front) (text key value) (b ∷ b';' ∷ []))

  -- What a map is written as is read as another map: if the last entry has a value that is not
  -- empty, that value loses its last byte, and the size that is reported is two less than what was
  -- written. The entries have no stray separators and distinct keys, and the text up to the lost
  -- byte is valid UTF-8.
  pub serialize_loses_byte :
      (b : ℕ)
      → All IsEntry front
      → IsEntry (key, value)
      → IsFresh [] front
      → lookup front key ≡ none
      → from_utf8 (shown front ++ text key value) ≡ valid
      → as_str_len (front ++ ((key, value ++ (b ∷ [])) ∷ [])) < 65536
      → let r : Response = record { entries = front ++ ((key, value ++ (b ∷ [])) ∷ []) } in
        (do bytes ← serialize_to_vec r; identity_from_bytes bytes)
        ≡ ok (record { entries = front ++ ((key, value) ∷ []) }, as_str_len r.entries)
  unfolding serialize_to_vec
  serialize_loses_byte b h k fresh new u small =
      let es : List (List ℕ × List ℕ) = front ++ ((key, value ++ (b ∷ [])) ∷ []) in
      let n : ℕ = length (shown front ++ text key value) in
      let size : as_str_len es ≡ n + 2 =
        sym (length-shown es)
        ∙ ap length (shown_cut b)
        ∙ length-append (shown front ++ text key value) (b ∷ b';' ∷ []) in
      rw (le→not_ltb 65535 (as_str_len es) (omega arith), size, shown_cut b)
        (read_text (shown front ++ text key value) (b ∷ b';' ∷ []) n refl (omega arith) u
          ∙ ap (λ (x : List (List ℕ × List ℕ)). ok (record { entries = x }, n + 2))
              (cut_collect h k fresh new))
