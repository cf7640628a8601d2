-- ===== src/Rust/Splits.antt =====
-- Where a text is split.
use scanner_button.Prelude.{
  ℕ, ◌+◌, ◌≤◌, ◌≡◌, ◌≢◌, refl, true, false, none, some, List, [], ◌∷◌, ◌++◌, length, arith, ◌==◌,
  All, ==_refl, leb, ◌&&◌, Bool-cases, Option-cases, inl, inr,
}
use scanner_button.Rust.Text.{
  Utf8, valid, error, follow, check, from_utf8, split, terminated, split_terminator, split_once,
}

-- The text has no separator.
abbrev pub Lacks : ℕ → List ℕ → Type 0
Lacks sep bytes = All (λ b. b ≢ sep) bytes

ne→test : (a b : ℕ) → a ≢ b → (a == b) ≡ false
ne→test a b h = ground arith

split-append :
    (sep : ℕ) (piece rest : List ℕ)
    → Lacks sep piece
    → split sep (piece ++ (sep ∷ rest)) ≡ (piece, (split sep rest).0 ∷ (split sep rest).1)
unfolding split
split-append sep [] rest h = rw (==_refl sep)
split-append sep (b ∷ piece) rest (h, hs) = rw (ne→test b sep h, split-append sep piece rest hs)

split_whole : (sep : ℕ) (piece : List ℕ) → Lacks sep piece → split sep piece ≡ (piece, [])
unfolding split
split_whole sep [] h = refl
split_whole sep (b ∷ piece) (h, hs) = rw (ne→test b sep h, split_whole sep piece hs)

terminated_more :
    (piece other : List ℕ) (others : List (List ℕ))
    → terminated piece (other ∷ others) ≡ piece ∷ terminated other others
unfolding terminated
terminated_more [] other others = refl
terminated_more (b ∷ bs) other others = refl

-- A piece up to a separator comes first.
pub split_terminator-append :
    (sep : ℕ) (piece rest : List ℕ)
    → Lacks sep piece
    → split_terminator sep (piece ++ (sep ∷ rest)) ≡ piece ∷ split_terminator sep rest
unfolding split_terminator
split_terminator-append sep piece rest h = rw (split-append sep piece rest h, terminated_more)

-- The last piece may lack its separator, if it is not empty.
pub split_terminator_last :
    (sep b : ℕ) (piece : List ℕ)
    → Lacks sep (b ∷ piece)
    → split_terminator sep (b ∷ piece) ≡ (b ∷ piece) ∷ []
unfolding split_terminator terminated
split_terminator_last sep b piece h = rw (split_whole sep (b ∷ piece) h)

pub split_once-append :
    (sep : ℕ) (key value : List ℕ)
    → Lacks sep key
    → split_once sep (key ++ (sep ∷ value)) ≡ some (key, value)
unfolding split_once
split_once-append sep [] value h = rw (==_refl sep)
split_once-append sep (b ∷ key) value (h, hs) =
    rw (ne→test b sep h, split_once-append sep key value hs)

-- What an error of the check says: where it is, and that a sequence that is wrong has a byte.
abbrev pub Located : ℕ → Utf8 → Type 0
Located end valid = Unit
Located end (error at none) = at ≤ end
Located end (error at (some len)) = (at ≤ end) × (1 ≤ len)

check_bad :
    (start seen b : ℕ) (bs : List ℕ)
    → follow b ≡ none
    → check start seen [] (b ∷ bs) ≡ error (start + seen) (some 1)
unfolding check
check_bad start seen b bs e = rw (check, e)

check_good :
    (start seen b : ℕ) (bs : List ℕ) (rs : List (ℕ × ℕ))
    → follow b ≡ some rs
    → check start seen [] (b ∷ bs) ≡ check (start + seen) 1 rs bs
unfolding check
check_good start seen b bs rs e = rw (check, e)

check_in :
    (start seen low high b : ℕ) (rs : List (ℕ × ℕ)) (bs : List ℕ)
    → (leb low b && leb b high) ≡ true
    → check start seen ((low, high) ∷ rs) (b ∷ bs) ≡ check start (seen + 1) rs bs
unfolding check
check_in start seen low high b rs bs e = rw (check, e)

check_out :
    (start seen low high b : ℕ) (rs : List (ℕ × ℕ)) (bs : List ℕ)
    → (leb low b && leb b high) ≡ false
    → check start seen ((low, high) ∷ rs) (b ∷ bs) ≡ error start (some seen)
unfolding check
check_out start seen low high b rs bs e = rw (check, e)

check-Located :
    (start seen end : ℕ) (pending : List (ℕ × ℕ)) (bytes : List ℕ)
    → 1 ≤ seen
    → start + seen + length bytes ≤ end
    → Located end (check start seen pending bytes)
unfolding check
check-Located start seen end [] [] h fits = tt
check-Located start seen end (r ∷ rs) [] h fits = omega arith
check-Located start seen end [] (b ∷ bs) h fits = elim (Option-cases (follow b)) [
  | inl e ↦ rw (check_bad start seen b bs e) (omega arith, omega arith)
  | inr (rs, e) ↦
      rw (check_good start seen b bs rs e)
        (check-Located (start + seen) 1 end rs bs (omega arith) (omega arith))
]
check-Located start seen end ((low, high) ∷ rs) (b ∷ bs) h fits =
    elim (Bool-cases (leb low b && leb b high)) [
      | inr e ↦ rw (check_out start seen low high b rs bs e) (omega arith, h)
      | inl e ↦
          rw (check_in start seen low high b rs bs e)
            (check-Located start (seen + 1) end rs bs (omega arith) (omega arith))
    ]

pub from_utf8-Located : (bytes : List ℕ) → Located (length bytes) (from_utf8 bytes)
unfolding from_utf8
from_utf8-Located [] = unfold check in tt
from_utf8-Located (b ∷ bs) = elim (Option-cases (follow b)) [
  | inl e ↦ rw (check_bad 0 0 b bs e) (omega arith, omega arith)
  | inr (rs, e) ↦
      rw (check_good 0 0 b bs rs e)
        (check-Located 0 1 (length (b ∷ bs)) rs bs (omega arith) (omega arith))
]
