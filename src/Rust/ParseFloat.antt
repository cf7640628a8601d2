-- ===== src/Rust/ParseFloat.antt =====
-- `str::parse::<f32>`: the grammar of decimal numbers, and the nearest `f32`.
use scanner_button.Prelude.{
  ℕ, ◌+◌, ◌-◌, ◌*◌, ◌/◌, ◌^◌, Bool, true, false, ◌&&◌, ◌||◌, Option, none, some, List, [], ◌∷◌,
  ◌++◌, map, length, ltb, leb, ◌==◌, if◌then◌else◌, ◌≡◌, refl,
}
use scanner_button.Rust.Format.{codes}
use scanner_button.Rust.Float.{F32, excess, round_to}

-- Whether a number is negative stands in front of its magnitude.
pub data Float : Type 0 where
  nan : Float
  infinite : Bool → Float
  finite : Bool → F32 → Float

is_digit : ℕ → Bool
is_digit c = leb b'0' c && leb c b'9'

to_ascii_lowercase : ℕ → ℕ
to_ascii_lowercase c = if leb b'A' c && leb c b'Z' then c + 32 else c

same_text : List ℕ → List ℕ → Bool
same_text [] [] = true
same_text (x ∷ xs) (y ∷ ys) = (x == y) && same_text xs ys
same_text _ _ = false

-- The digits in front, and what follows them.
span_digits : List ℕ → List ℕ × List ℕ
unfolding is_digit
span_digits [] = ([], [])
span_digits (c ∷ cs) =
    let (front, rest) = span_digits cs in if is_digit c then (c ∷ front, rest) else ([], c ∷ cs)

numeral : ℕ → List ℕ → ℕ
numeral n [] = n
numeral n (c ∷ cs) = numeral (10 * n + (c - b'0')) cs

sign : List ℕ → Bool × List ℕ
sign [] = (false, [])
sign (c ∷ cs) = if c == b'-' then (true, cs) else if c == b'+' then (false, cs) else (false, c ∷ cs)

-- At least one digit, and nothing else.
whole_number : List ℕ × List ℕ → Option ℕ
unfolding numeral
whole_number (c ∷ cs, []) = some (numeral 0 (c ∷ cs))
whole_number _ = none

-- Whether the exponent is negative, and the exponent, which is 0 if there is none.
exponent : List ℕ → Option (Bool × ℕ)
unfolding sign whole_number span_digits
exponent [] = some (false, 0)
exponent (c ∷ cs) =
    let (negative, rest) = sign cs in
    if c == b'e'
    then elim (whole_number (span_digits rest)) [ none ↦ none | some n ↦ some (negative, n) ]
    else none

fraction : List ℕ → List ℕ × List ℕ
unfolding span_digits
fraction [] = ([], [])
fraction (c ∷ cs) = if c == b'.' then span_digits cs else ([], c ∷ cs)

-- The nearest multiple of the spacing of the size of `num / den`, or infinity.
nearest : Bool → ℕ → ℕ → Float
nearest negative num den =
    let exact = num * 2 ^ 149 in
    let units = round_to (excess 600 (exact / den) * den) exact / den in
    if ltb units (2 ^ 277) then finite negative (record { units = units }) else infinite negative

-- `places` digits of `num` stand behind the point.
scaled : Bool → ℕ → ℕ → Bool × ℕ → Float
unfolding nearest
scaled negative num places (true, e) = nearest negative num (10 ^ (places + e))
scaled negative num places (false, e) =
    if leb places e
    then nearest negative (num * 10 ^ (e - places)) 1
    else nearest negative num (10 ^ (places - e))

from_digits : Bool → List ℕ → List ℕ → Option (Bool × ℕ) → Option Float
unfolding numeral scaled
from_digits negative whole part none = none
from_digits negative [] [] (some e) = none
from_digits negative whole part (some e) =
    some (scaled negative (numeral 0 (whole ++ part)) (length part) e)

decimal_number : Bool → List ℕ → Option Float
unfolding span_digits fraction exponent from_digits
decimal_number negative text =
    let (whole, rest) = span_digits text in
    let (part, rest') = fraction rest in from_digits negative whole part (exponent rest')

unfoldable pub parse_f32 : List ℕ → Option Float
unfolding sign to_ascii_lowercase same_text decimal_number
parse_f32 text =
    let (negative, rest) = sign (map to_ascii_lowercase text) in
    if same_text rest (codes "inf") || same_text rest (codes "infinity")
    then some (infinite negative)
    else if same_text rest (codes "nan")
    then some nan
    else decimal_number negative rest

runs :
    (parse_f32 (codes "2.0") ≡ some (finite false (record { units = 2 ^ 150 })))
    × (parse_f32 (codes "-.5e1") ≡ some (finite true (record { units = 5 * 2 ^ 149 })))
    × (parse_f32 (codes "1e39") ≡ some (infinite false))
    × (parse_f32 (codes "0.1") ≡ some (finite false (record { units = 13421773 * 2 ^ 122 })))
    × (parse_f32 (codes "1.5x") ≡ none)
    × (parse_f32 (codes "+Inf") ≡ some (infinite false))
    × (parse_f32 (codes ".") ≡ none)
unfolding parse_f32 round_to excess
runs = (refl, refl, refl, refl, refl, refl, refl)
