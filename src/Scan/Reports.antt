-- ===== src/Scan/Reports.antt =====
-- src/scan.rs: what an inquiry reports does not depend on the order of the map's iterator.
use scanner_button.Prelude.{◌≡◌, List, [], ◌∷◌, false}
use scanner_button.Scan.Sort.{is_less, cmp_entry}
use scanner_button.Rust.Run.{◌>>◌}
use scanner_button.Scan.Sorted.{Entry}

-- No entry stands in front of a lesser one.
abbrev pub IsSorted : List Entry → Type 0
IsSorted [] = Unit
IsSorted (e ∷ []) = Unit
IsSorted (e ∷ f ∷ rest) = (is_less (cmp_entry f e) ≡ false) × IsSorted (f ∷ rest)
