-- ===== src/Rust/Slice.antt =====
-- Byte slices as lists of numbers: indexing that panics and `get` that does not.
use scanner_button.Prelude.{ℕ, ◌-◌, ◌&&◌, Option, none, some, List}
use scanner_button.Prelude.{length, take, drop, leb, ◌==◌, if◌then◌else◌}
use scanner_button.Rust.Outcome.{Outcome, ok, panic}

module _ {ℓ} {A : Type ℓ} where
  -- `xs.get(start..end)`
  abbrev pub get_range : List A → ℕ → ℕ → Option (List A)
  get_range xs start end =
      if leb start end && leb end (length xs)
      then some (take (end - start) (drop start xs))
      else none

  -- `&xs[n..]`
  abbrev pub slice_from : {E : Type ℓ} → List A → ℕ → Outcome (List A) E
  slice_from xs n = if leb n (length xs) then ok (drop n xs) else panic

  -- `&xs[..n]`
  abbrev pub slice_to : {E : Type ℓ} → List A → ℕ → Outcome (List A) E
  slice_to xs n = if leb n (length xs) then ok (take n xs) else panic

  -- `<[A; n]>::try_from(xs).unwrap()`
  abbrev pub array_of : {E : Type ℓ} → ℕ → List A → Outcome (List A) E
  array_of n xs = if length xs == n then ok xs else panic
