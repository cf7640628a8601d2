-- ===== src/Identity/Entries.antt =====
-- bjnp/src/identity.rs: the entries that a text with separators is collected into.
use scanner_button.Prelude.{
  ℕ, ◌≡◌, refl, sym, ap, ◌∙◌, none, List, [], ◌∷◌, ◌++◌, arith, length, Bool-cases, inl, inr,
  append_assoc, append-nil, length-append, All,
}
use scanner_button.Rust.Text.{split_terminator}
use scanner_button.Rust.Splits.{Lacks, split_terminator-append, split_once-append}
use scanner_button.Header.{bytes_eq}
use scanner_button.Identity.Wire.{lookup, insert, collect, as_str_len, shown}

-- A key without a colon, and neither key nor value with a semicolon.
pub record IsEntry (e : List ℕ × List ℕ) : Type 0 where
  pub key_colon : Lacks b':' e.0
  pub key_semicolon : Lacks b';' e.0
  pub value_semicolon : Lacks b';' e.1

-- Each key is new to the entries before it.
abbrev pub IsFresh : List (List ℕ × List ℕ) → List (List ℕ × List ℕ) → Type 0
IsFresh before [] = Unit
IsFresh before ((key, value) ∷ rest) =
    (lookup before key ≡ none) × IsFresh (before ++ ((key, value) ∷ [])) rest

-- `key:value`
abbrev pub text : List ℕ → List ℕ → List ℕ
text key value = key ++ (b':' ∷ value)

Lacks-append : (sep : ℕ) (xs ys : List ℕ) → Lacks sep xs → Lacks sep ys → Lacks sep (xs ++ ys)
Lacks-append sep [] ys h k = k
Lacks-append sep (x ∷ xs) ys (h, hs) k = (h, Lacks-append sep xs ys hs k)

pub text-Lacks : (key value : List ℕ) → IsEntry (key, value) → Lacks b';' (text key value)
text-Lacks key value h =
    Lacks-append b';' key (b':' ∷ value) h.key_semicolon
      ((λ (e : b':' ≡ b';'). omega arith), h.value_semicolon)

pub shown-text :
    (key value : List ℕ) (rest : List (List ℕ × List ℕ)) (tail : List ℕ)
    → shown ((key, value) ∷ rest) ++ tail ≡ text key value ++ (b';' ∷ (shown rest ++ tail))
unfolding shown
shown-text key value rest tail =
    append_assoc key (b':' ∷ (value ++ (b';' ∷ shown rest))) tail
    ∙ ap (λ (x : List ℕ). key ++ (b':' ∷ x)) (append_assoc value (b';' ∷ shown rest) tail)
    ∙ sym (append_assoc key (b':' ∷ value) (b';' ∷ (shown rest ++ tail)))

pub shown-append : (xs ys : List (List ℕ × List ℕ)) → shown (xs ++ ys) ≡ shown xs ++ shown ys
unfolding shown
shown-append [] ys = refl
shown-append ((key, value) ∷ xs) ys =
    ap (λ (x : List ℕ). key ++ (b':' ∷ (value ++ (b';' ∷ x)))) (shown-append xs ys)
    ∙ sym (append_assoc key (b':' ∷ value) (b';' ∷ (shown xs ++ shown ys)))
    ∙ sym (shown-text key value xs (shown ys))

-- An entry without its last two bytes.
pub shown_last :
    (key value : List ℕ) (b : ℕ)
    → shown ((key, value ++ (b ∷ [])) ∷ []) ≡ text key value ++ (b ∷ b';' ∷ [])
unfolding shown
shown_last key value b =
    ap (λ (x : List ℕ). key ++ (b':' ∷ x)) (append_assoc value (b ∷ []) (b';' ∷ []))
    ∙ sym (append_assoc key (b':' ∷ value) (b ∷ b';' ∷ []))

insert-new :
    (key value : List ℕ) (entries : List (List ℕ × List ℕ))
    → lookup entries key ≡ none
    → insert key value entries ≡ entries ++ ((key, value) ∷ [])
unfolding insert lookup
insert-new key value [] h = refl
insert-new key value ((k, v) ∷ rest) h = elim (Bool-cases (bytes_eq k key)) [
  | inl e ↦ cc (rw e at h)
  | inr e ↦ rw (e, insert-new key value rest (rw e at h))
]

pub collect_one :
    (key value : List ℕ) (items : List (List ℕ)) (entries : List (List ℕ × List ℕ))
    → Lacks b':' key
    → lookup entries key ≡ none
    → collect (text key value ∷ items) entries ≡ collect items (entries ++ ((key, value) ∷ []))
unfolding collect
collect_one key value items entries colon new =
    rw (collect, split_once-append b':' key value colon, insert-new key value entries new)

-- What is shown in front of a text is collected first, entry by entry.
pub collect-shown :
    (es entries : List (List ℕ × List ℕ)) (tail : List ℕ)
    → All IsEntry es
    → IsFresh entries es
    → collect (split_terminator b';' (shown es ++ tail)) entries
      ≡ collect (split_terminator b';' tail) (entries ++ es)
collect-shown [] entries tail h fresh = unfold shown in rw append-nil
collect-shown ((key, value) ∷ rest) entries tail (h, hs) (new, fresh) =
    ap (λ (x : List ℕ). collect (split_terminator b';' x) entries) (shown-text key value rest tail)
    ∙ ap (λ (x : List (List ℕ)). collect x entries)
        (split_terminator-append b';' (text key value) (shown rest ++ tail)
          (text-Lacks key value h))
    ∙ collect_one key value _ entries h.key_colon new
    ∙ collect-shown rest (entries ++ ((key, value) ∷ [])) tail hs fresh
    ∙ ap (λ (x : List (List ℕ × List ℕ)). collect (split_terminator b';' tail) x)
        (append_assoc entries ((key, value) ∷ []) rest)

pub length-shown : (es : List (List ℕ × List ℕ)) → length (shown es) ≡ as_str_len es
unfolding shown as_str_len
length-shown [] = refl
length-shown ((key, value) ∷ rest) = omega (
  arith,
  length-append key (b':' ∷ (value ++ (b';' ∷ shown rest))),
  length-append value (b';' ∷ shown rest),
  length-shown rest,
)
