-- ===== src/Poll/Host/Back.antt =====
-- bjnp/src/poll/command.rs, lines 60 to 68: the loop that backs off ends, and drops as many
-- characters as needed and no more. The characters stand last first.
use scanner_button.Prelude.{
  ℕ, zero, suc, ◌+◌, ◌-◌, ◌*◌, ◌/◌, ◌%◌, ◌<◌, ◌≤◌, ◌≡◌, refl, ap, ◌∙◌, sym, some,
}
use scanner_button.Prelude.{
  List, [], ◌∷◌, leb, if◌then◌else◌, arith, lt→ltb, le→leb, le→not_ltb, Bool-cases, inl, inr,
  leb→le, not_leb→lt,
}
use scanner_button.Rust.Bits.{bit_and_3}
use scanner_button.Poll.Host.Utf16.{len_utf16, len_utf16_bounds}
use scanner_button.Poll.Host.Encode.{back_loop}

unfoldable pub units : List ℕ → ℕ
units [] = 0
units (c ∷ rs) = units rs + len_utf16 c

-- The byte that holds the lengths of the last four characters.
unfoldable pub pack : List ℕ → ℕ
pack [] = 0
pack (c ∷ rs) = pack rs * 4 % 256 + len_utf16 c

-- What is left when characters are dropped until three units are free.
unfoldable pub keep : List ℕ → List ℕ
keep [] = []
keep (c ∷ rs) = let rest = keep rs in if leb (units (c ∷ rs)) 29 then c ∷ rs else rest

-- `prev` holds the lengths of the first `w` characters, as far as there are so many.
abbrev Window : ℕ → ℕ → List ℕ → Type 0
Window zero prev rs = Unit
Window (suc w) prev [] = Unit
Window (suc w) prev (c ∷ rs) = (prev % 4 ≡ len_utf16 c) × Window w (prev / 4) rs

pub keep_of_le : (rs : List ℕ) → units rs ≤ 29 → keep rs ≡ rs
unfolding keep units
keep_of_le [] h = refl
keep_of_le (c ∷ rs) h = rw (le→leb _ 29 h)

pub keep_of_gt : (c : ℕ) (rs : List ℕ) → 29 < units (c ∷ rs) → keep (c ∷ rs) ≡ keep rs
unfolding keep
keep_of_gt c rs h = ground arith

back_loop_done : (f cur prev : ℕ) → cur ≤ 29 → back_loop (suc f) cur prev ≡ some cur
unfolding back_loop
back_loop_done f cur prev h = rw (le→not_ltb 29 cur h)

back_loop_step :
    (f cur prev step : ℕ)
    → 29 < cur
    → prev % 4 ≡ step
    → step ≤ 2
    → back_loop (suc f) cur prev ≡ back_loop f (cur - step) (prev / 4)
unfolding back_loop
back_loop_step f cur prev step h e small =
    rw (lt→ltb 29 cur h, bit_and_3 prev, e, le→leb step cur (omega arith))

-- One round, at a character whose length is the lowest one in the window.
back_loop_round :
    (f prev c : ℕ) (rs : List ℕ)
    → 29 < units (c ∷ rs)
    → prev % 4 ≡ len_utf16 c
    → back_loop (suc f) (units (c ∷ rs)) prev ≡ back_loop f (units rs) (prev / 4)
unfolding units
back_loop_round f prev c rs over e =
    let (_, two) = len_utf16_bounds c in
    let left : units rs + len_utf16 c - len_utf16 c ≡ units rs = omega arith in
    back_loop_step f _ prev (len_utf16 c) over e two ∙ ap (λ (k : ℕ). back_loop f k (prev / 4)) left

units_shorter : (c : ℕ) (rs : List ℕ) → units rs + 1 ≤ units (c ∷ rs)
unfolding units
units_shorter c rs = omega (arith, len_utf16_bounds c)

-- With as many lengths in the window as units too many, the loop ends.
back_loop-keep :
    (w f prev : ℕ) (rs : List ℕ)
    → w < f
    → units rs ≤ 29 + w
    → Window w prev rs
    → back_loop f (units rs) prev ≡ some (units (keep rs))
back_loop-keep w zero prev rs h small win = absurd (omega arith)
back_loop-keep zero (suc f) prev rs h small win =
    back_loop_done f _ prev (omega arith)
    ∙ ap (λ (k : List ℕ). some (units k)) (sym (keep_of_le rs (omega arith)))
back_loop-keep (suc w) (suc f) prev [] h small win =
    unfold units keep in back_loop_done f 0 prev (omega arith)
back_loop-keep (suc w) (suc f) prev (c ∷ rs) h small (e, win) =
    elim (Bool-cases (leb (units (c ∷ rs)) 29)) [
      | inl fits ↦
          back_loop_done f _ prev (leb→le _ 29 fits)
          ∙ ap (λ (k : List ℕ). some (units k)) (sym (keep_of_le (c ∷ rs) (leb→le _ 29 fits)))
      | inr over ↦
          back_loop_round f prev c rs (not_leb→lt _ 29 over) e
          ∙ back_loop-keep w f (prev / 4) rs (omega arith) (omega (arith, units_shorter c rs)) win
          ∙ ap (λ (k : List ℕ). some (units k)) (sym (keep_of_gt c rs (not_leb→lt _ 29 over)))
    ]

-- The window of a packed byte, from its lowest bits.
Window-1 : (prev : ℕ) (rs : List ℕ) → prev % 4 ≡ pack rs % 4 → Window 1 prev rs
Window-1 prev [] e = tt
Window-1 prev (c ∷ rs) e = (unfold pack in omega (arith, len_utf16_bounds c), tt)

Window-2 : (prev : ℕ) (rs : List ℕ) → prev % 16 ≡ pack rs % 16 → Window 2 prev rs
Window-2 prev [] e = tt
Window-2 prev (c ∷ rs) e =
    unfold pack in
    (omega (arith, len_utf16_bounds c), Window-1 (prev / 4) rs (omega (arith, len_utf16_bounds c)))

Window-3 : (prev : ℕ) (rs : List ℕ) → prev % 64 ≡ pack rs % 64 → Window 3 prev rs
Window-3 prev [] e = tt
Window-3 prev (c ∷ rs) e =
    unfold pack in
    (omega (arith, len_utf16_bounds c), Window-2 (prev / 4) rs (omega (arith, len_utf16_bounds c)))

-- From the character that overflows, five calls of the loop reach the longest prefix that leaves
-- three units free.
pub back_loop-pack :
    (c : ℕ) (rs : List ℕ)
    → units rs ≤ 32
    → 32 < units (c ∷ rs)
    → back_loop 5 (units (c ∷ rs)) (pack (c ∷ rs)) ≡ some (units (keep rs))
back_loop-pack c rs fits over =
    back_loop_round 4 (pack (c ∷ rs)) c rs (omega arith)
      (unfold pack in omega (arith, len_utf16_bounds c))
    ∙ back_loop-keep 3 4 (pack (c ∷ rs) / 4) rs (omega arith) (omega arith)
        (Window-3 (pack (c ∷ rs) / 4) rs (unfold pack in omega (arith, len_utf16_bounds c)))
