-- ===== src/Poll/Host/Fill.antt =====
-- bjnp/src/poll/command.rs, lines 46 to 58: the loop that fills the buffer. The characters that it
-- has taken stand last first.
use Prim.Native.Nat.{bit_or}
use scanner_button.Prelude.{
  ℕ, zero, suc, ◌+◌, ◌-◌, ◌*◌, ◌%◌, ◌<◌, ◌≤◌, ◌≡◌, refl, ap, ◌∙◌, true, false, ◌&&◌, Bool, ◌⊎◌,
  drop-append_add,
}
use scanner_button.Prelude.{
  List, [], ◌∷◌, ◌++◌, append_assoc, length, length-append, length-replicate, replicate, take, drop,
  ltb, arith, lt→ltb, le→leb, le→not_ltb, Bool-cases, inl, inr, ltb→lt, not_ltb→le,
  take-append_exact, ◌==◌,
}
use scanner_button.Rust.Outcome.{Outcome, ok}
use scanner_button.Poll.Host.Utf16.{
  len_utf16, len_utf16_bounds, encode_utf16, length-encode_utf16, copy_at,
}
use scanner_button.Poll.Host.Encode.{HostLoop, fill_loop, max_units}
use scanner_button.Poll.Host.Back.{units, pack}

unfoldable pub rev_append : List ℕ → List ℕ → List ℕ
rev_append [] cs = cs
rev_append (r ∷ rs) cs = rev_append rs (r ∷ cs)

-- The units of the characters taken, in order.
unfoldable pub taken_units : List ℕ → List ℕ
taken_units [] = []
taken_units (r ∷ rs) = taken_units rs ++ encode_utf16 r

-- A buffer with zeros behind.
unfoldable pub pad : ℕ → List ℕ → List ℕ
pad n xs = xs ++ replicate (n - length xs) 0

pub length-taken_units : (rs : List ℕ) → length (taken_units rs) ≡ units rs
unfolding taken_units units
length-taken_units [] = refl
length-taken_units (r ∷ rs) = omega (
  arith,
  length-append (taken_units rs) (encode_utf16 r),
  length-taken_units rs,
  length-encode_utf16 r,
)

pub length-pad : (n : ℕ) (xs : List ℕ) → length xs ≤ n → length (pad n xs) ≡ n
unfolding pad
length-pad n xs h = omega (
  arith,
  length-append xs (replicate (n - length xs) 0),
  length-replicate {A = ℕ} (n - length xs) 0,
)

drop-replicate : (m n : ℕ) → drop m (replicate {A = ℕ} n 0) ≡ replicate (n - m) 0
drop-replicate zero n = ap (λ (k : ℕ). replicate {A = ℕ} k 0) (omega arith)
drop-replicate (suc m) zero =
    let e : 0 ≡ 0 - suc m = omega arith in ap (λ (k : ℕ). replicate {A = ℕ} k 0) e
drop-replicate (suc m) (suc n) =
    drop-replicate m n ∙ ap (λ (k : ℕ). replicate {A = ℕ} k 0) (omega arith)

-- Writing behind what the buffer holds.
pub copy_at-pad :
    {E : Type 0} (n k : ℕ) (xs ys : List ℕ)
    → length xs ≡ k
    → k + length ys ≤ n
    → copy_at {E = E} (pad n xs) k ys ≡ ok (pad n (xs ++ ys))
unfolding copy_at
copy_at-pad n k xs ys e fits =
    let sized : length (pad n xs) ≡ n = length-pad n xs (omega arith) in
    rw (sized, le→leb (k + length ys) n fits) (ap ok (unfold pad in pieces))
  where
    left : n - length xs - length ys ≡ n - length (xs ++ ys)
    left = omega (arith, length-append xs ys)

    pieces :
        take k (xs ++ replicate (n - length xs) 0)
          ++ (ys ++ drop (k + length ys) (xs ++ replicate (n - length xs) 0))
        ≡ (xs ++ ys) ++ replicate (n - length (xs ++ ys)) 0
    pieces = rw (
      take-append_exact k xs (replicate (n - length xs) 0) e,
      drop-append_add k (length ys) xs (replicate (n - length xs) 0) e,
      drop-replicate (length ys) (n - length xs),
      left,
      append_assoc,
    )

-- The state of the loop after the characters `rs`.
abbrev pub filled : List ℕ → HostLoop
filled rs = record {
  buffer = pad max_units (taken_units rs);
  cur_len = units rs;
  prev_len = pack rs;
  overflowing = false;
}

test_lens : ℕ → Bool
test_lens zero = true
test_lens (suc n) =
    test_lens n && (bit_or (n * 4) 1 == n * 4 + 1) && (bit_or (n * 4) 2 == n * 4 + 2)

test_lens_sound :
    (n y : ℕ)
    → test_lens n ≡ true
    → y < n
    → (bit_or (y * 4) 1 ≡ y * 4 + 1) × (bit_or (y * 4) 2 ≡ y * 4 + 2)
unfolding test_lens
test_lens_sound zero y e h = absurd (omega arith)
test_lens_sound (suc n) y e h = ground (arith, test_lens_sound n y)

one_or_two : (l : ℕ) → 1 ≤ l → l ≤ 2 → (l ≡ 1) ⊎ (l ≡ 2)
one_or_two l lo hi = ground arith

-- The new length fills the two bits that the shift has freed.
shift_in : (p l : ℕ) → 1 ≤ l → l ≤ 2 → bit_or (p * 4 % 256) l ≡ p * 4 % 256 + l
unfolding test_lens
shift_in p l lo hi =
    let e : p * 4 % 256 ≡ p % 64 * 4 = omega arith in
    rw e (elim (one_or_two l lo hi) [ inl one ↦ rw one both.0 | inr two ↦ rw two both.1 ])
  where
    both : (bit_or (p % 64 * 4) 1 ≡ p % 64 * 4 + 1) × (bit_or (p % 64 * 4) 2 ≡ p % 64 * 4 + 2)
    both = test_lens_sound 64 (p % 64) refl (omega arith)

pack_step : (rs : List ℕ) (c : ℕ) → bit_or (pack rs * 4 % 256) (len_utf16 c) ≡ pack (c ∷ rs)
unfolding pack
pack_step rs c = let (lo, hi) = len_utf16_bounds c in shift_in (pack rs) (len_utf16 c) lo hi

-- How the loop ends, for the characters `total`: it takes them all, or it stops at the first `c`
-- that does not fit.
pub data IsFilled {E : Type 0} (total : List ℕ) (r : Outcome HostLoop E) : Type 0 where
  fits :
      (rs : List ℕ)
      → total ≡ rev_append rs []
      → units rs ≤ 32
      → r ≡ ok (filled rs)
      → IsFilled total r
  overflows :
      (c : ℕ) (rs cs : List ℕ)
      → total ≡ rev_append rs (c ∷ cs)
      → units rs ≤ 32
      → 32 < units (c ∷ rs)
      → r
        ≡ ok (record (filled rs) {
          cur_len = units (c ∷ rs);
          prev_len = pack (c ∷ rs);
          overflowing = true;
        })
      → IsFilled total r

fill_loop_stop :
    {E : Type 0} (c : ℕ) (rs cs : List ℕ)
    → units rs ≤ 32
    → 32 < units (c ∷ rs)
    → fill_loop {E = E} (c ∷ cs) (filled rs)
      ≡ ok (record (filled rs) {
        cur_len = units (c ∷ rs);
        prev_len = pack (c ∷ rs);
        overflowing = true;
      })
unfolding fill_loop units
fill_loop_stop c rs cs small over =
    let sized : length (pad 32 (taken_units rs)) ≡ 32 =
      length-pad 32 (taken_units rs) (omega (arith, length-taken_units rs)) in
    rw (sized, fill_loop, lt→ltb 32 _ over, pack_step rs c)

fill_loop_go :
    {E : Type 0} (c : ℕ) (rs cs : List ℕ)
    → units (c ∷ rs) ≤ 32
    → fill_loop {E = E} (c ∷ cs) (filled rs) ≡ fill_loop cs (filled (c ∷ rs))
unfolding fill_loop units taken_units
fill_loop_go c rs cs small =
    let sized : length (pad 32 (taken_units rs)) ≡ 32 =
      length-pad 32 (taken_units rs) (omega (arith, length-taken_units rs)) in
    rw (
      sized,
      fill_loop,
      le→not_ltb 32 _ small,
      pack_step rs c,
      copy_at-pad 32 (units rs) (taken_units rs) (encode_utf16 c) (length-taken_units rs)
          (omega (arith, length-encode_utf16 c)),
    )

pub fill_loop-IsFilled :
    {E : Type 0} (cs rs : List ℕ)
    → units rs ≤ 32
    → IsFilled {E = E} (rev_append rs cs) (fill_loop cs (filled rs))
unfolding rev_append
fill_loop-IsFilled [] rs small = fits rs refl small (unfold fill_loop in refl)
fill_loop-IsFilled {E} (c ∷ cs) rs small = elim (Bool-cases (ltb 32 (units (c ∷ rs)))) [
  | inl over ↦
      overflows c rs cs refl small (ltb→lt 32 _ over)
        (fill_loop_stop c rs cs small (ltb→lt 32 _ over))
  | inr more ↦
      let go = fill_loop_go {E = E} c rs cs (not_ltb→le 32 _ more) in
      rw go (fill_loop-IsFilled {E = E} cs (c ∷ rs) (not_ltb→le 32 _ more))
]
