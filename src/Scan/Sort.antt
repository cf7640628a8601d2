-- ===== src/Scan/Sort.antt =====
-- src/scan.rs: `id.sort()`, the order of strings and of pairs of strings.
use scanner_button.Prelude.{ℕ, List, [], ◌∷◌, ltb, Bool, true, false, if◌then◌else◌}

pub data Ordering : Type 0 where
  less equal greater : Ordering

-- `Ordering::then`
unfoldable pub followed_by : Ordering → Ordering → Ordering
followed_by less second = less
followed_by equal second = second
followed_by greater second = greater

unfoldable pub cmp_byte : ℕ → ℕ → Ordering
cmp_byte a b = if ltb a b then less else if ltb b a then greater else equal

-- `Ord for str`: byte by byte, and a prefix is less.
unfoldable pub cmp_str : List ℕ → List ℕ → Ordering
cmp_str [] [] = equal
cmp_str [] (y ∷ ys) = less
cmp_str (x ∷ xs) [] = greater
cmp_str (x ∷ xs) (y ∷ ys) = followed_by (cmp_byte x y) (cmp_str xs ys)

-- `Ord` for a pair of a key and a value.
unfoldable pub cmp_entry : List ℕ × List ℕ → List ℕ × List ℕ → Ordering
cmp_entry (key, value) (key', value') = followed_by (cmp_str key key') (cmp_str value value')

unfoldable pub is_less : Ordering → Bool
is_less less = true
is_less _ = false

-- `sort` is stable: an entry stays in front of those that are equal to it.
unfoldable pub insert_sorted : List ℕ × List ℕ → List (List ℕ × List ℕ) → List (List ℕ × List ℕ)
insert_sorted e [] = e ∷ []
insert_sorted e (f ∷ rest) =
    let inserted = insert_sorted e rest in
    if is_less (cmp_entry f e) then f ∷ inserted else e ∷ f ∷ rest

unfoldable pub sort_entries : List (List ℕ × List ℕ) → List (List ℕ × List ℕ)
sort_entries [] = []
sort_entries (e ∷ rest) = insert_sorted e (sort_entries rest)
