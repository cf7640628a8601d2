-- ===== src/Rust/Text.antt =====
-- Strings as their bytes: `str::from_utf8`, `split_terminator` and `split_once` at a separator of one
-- byte, which is no part of a longer character.
use scanner_button.Prelude.{
  ℕ, ◌+◌, ◌&&◌, Option, none, some, List, [], ◌∷◌, leb, ◌==◌, if◌then◌else◌, ◌≡◌, refl,
}

-- `Utf8Error` has the length of the valid part, and of the invalid sequence behind it unless the
-- input ends too early.
pub data Utf8 : Type 0 where
  valid : Utf8
  error : ℕ → Option ℕ → Utf8

-- The ranges of the bytes that have to follow a first byte.
unfoldable pub follow : ℕ → Option (List (ℕ × ℕ))
follow b =
    if leb b 0x7f
    then some []
    else if leb 0xc2 b && leb b 0xdf
    then some ((0x80, 0xbf) ∷ [])
    else if b == 0xe0
    then some ((0xa0, 0xbf) ∷ (0x80, 0xbf) ∷ [])
    else if b == 0xed
    then some ((0x80, 0x9f) ∷ (0x80, 0xbf) ∷ [])
    else if leb 0xe1 b && leb b 0xef
    then some ((0x80, 0xbf) ∷ (0x80, 0xbf) ∷ [])
    else if b == 0xf0
    then some ((0x90, 0xbf) ∷ (0x80, 0xbf) ∷ (0x80, 0xbf) ∷ [])
    else if leb 0xf1 b && leb b 0xf3
    then some ((0x80, 0xbf) ∷ (0x80, 0xbf) ∷ (0x80, 0xbf) ∷ [])
    else if b == 0xf4
    then some ((0x80, 0x8f) ∷ (0x80, 0xbf) ∷ (0x80, 0xbf) ∷ [])
    else none

-- From a character that starts at `start`, `seen` bytes of it read, the ranges of the others to come.
unfoldable pub check : ℕ → ℕ → List (ℕ × ℕ) → List ℕ → Utf8
check start seen [] [] = valid
check start seen [] (b ∷ bs) =
    let go : List (ℕ × ℕ) → Utf8 = λ rs. check (start + seen) 1 rs bs in
    elim (follow b) [ none ↦ error (start + seen) (some 1) | some rs ↦ go rs ]
check start seen (r ∷ rs) [] = error start none
check start seen ((low, high) ∷ rs) (b ∷ bs) =
    let rest = check start (seen + 1) rs bs in
    if leb low b && leb b high then rest else error start (some seen)

unfoldable pub from_utf8 : List ℕ → Utf8
from_utf8 bytes = check 0 0 [] bytes

-- The pieces between separators: the first, and the others.
unfoldable pub split : ℕ → List ℕ → List ℕ × List (List ℕ)
split sep [] = ([], [])
split sep (b ∷ bs) =
    let (piece, others) = split sep bs in
    if b == sep then ([], piece ∷ others) else (b ∷ piece, others)

-- Without an empty last piece.
unfoldable pub terminated : List ℕ → List (List ℕ) → List (List ℕ)
terminated [] [] = []
terminated (b ∷ bs) [] = (b ∷ bs) ∷ []
terminated piece (other ∷ others) = let rest = terminated other others in piece ∷ rest

unfoldable pub split_terminator : ℕ → List ℕ → List (List ℕ)
split_terminator sep bytes = let (piece, others) = split sep bytes in terminated piece others

unfoldable pub split_once : ℕ → List ℕ → Option (List ℕ × List ℕ)
split_once sep [] = none
split_once sep (b ∷ bs) =
    let rest = split_once sep bs in
    if b == sep
    then some ([], bs)
    else elim rest [ none ↦ none | some (key, value) ↦ some (b ∷ key, value) ]

ascii_test : from_utf8 (b'M' ∷ b'F' ∷ []) ≡ valid
unfolding from_utf8 check follow
ascii_test = refl

-- U+20AC, cut at its third byte, and with a letter for it.
cut_test : from_utf8 (b'a' ∷ 0xe2 ∷ 0x82 ∷ []) ≡ error 1 none
unfolding from_utf8 check follow
cut_test = refl

wrong_test : from_utf8 (b'a' ∷ 0xe2 ∷ 0x82 ∷ b'b' ∷ []) ≡ error 1 (some 2)
unfolding from_utf8 check follow
wrong_test = refl

long_test : from_utf8 (0xe2 ∷ 0x82 ∷ 0xac ∷ 0xf0 ∷ 0x9f ∷ 0x98 ∷ 0x80 ∷ b'b' ∷ []) ≡ valid
unfolding from_utf8 check follow
long_test = refl

split_test :
    split_terminator b';' (b'a' ∷ b';' ∷ b';' ∷ b'b' ∷ b';' ∷ [])
    ≡ (b'a' ∷ []) ∷ [] ∷ (b'b' ∷ []) ∷ []
unfolding split_terminator split terminated
split_test = refl
