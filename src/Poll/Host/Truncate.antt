-- ===== src/Poll/Host/Truncate.antt =====
-- bjnp/src/poll/command.rs, lines 60 to 71: a name that does not fit ends in "...", behind its
-- longest prefix that leaves room for that.
use scanner_button.Prelude.{ℕ, ◌+◌, ◌-◌, ◌<◌, ◌≤◌, ◌≡◌, refl, ap, ◌∙◌, sym, true}
use scanner_button.Prelude.{
  List, [], ◌∷◌, ◌++◌, append_assoc, append-nil, length, length-append, length-replicate, replicate,
  drop, leb, if◌then◌else◌, arith, le→leb, lt→not_leb, Bool-cases, inl, inr, leb→le, not_leb→lt,
  take-append_exact, drop-append_add, length-drop, drop_all,
}
use mathlib.Core.Path.{subst}
use scanner_button.Rust.Outcome.{ok, ◌>>=◌}
use scanner_button.Poll.Host.Utf16.{len_utf16, encode_utf16, copy_at}
use scanner_button.Poll.Host.Encode.{add_ellipsis}
use scanner_button.Poll.Host.Back.{units, pack, keep, keep_of_le, keep_of_gt, back_loop-pack}
use scanner_button.Poll.Host.Fill.{
  rev_append, taken_units, pad, filled, length-taken_units, length-pad,
}

-- The units of a text.
unfoldable pub utf16 : List ℕ → List ℕ
utf16 [] = []
utf16 (c ∷ cs) = encode_utf16 c ++ utf16 cs

-- The longest prefix of at most so many units.
unfoldable pub fit : ℕ → List ℕ → List ℕ
fit budget [] = []
fit budget (c ∷ cs) =
    let rest = fit (budget - len_utf16 c) cs in if leb (len_utf16 c) budget then c ∷ rest else []

abbrev pub dots : List ℕ
dots = b'.' ∷ b'.' ∷ b'.' ∷ []

pub utf16-rev_append : (rs cs : List ℕ) → utf16 (rev_append rs cs) ≡ taken_units rs ++ utf16 cs
unfolding utf16 rev_append taken_units
utf16-rev_append [] cs = refl
utf16-rev_append (r ∷ rs) cs =
    utf16-rev_append rs (r ∷ cs) ∙ sym (append_assoc (taken_units rs) (encode_utf16 r) (utf16 cs))

fit_first : (k : ℕ) (ys : List ℕ) (b : ℕ) → fit (len_utf16 k + b) (k ∷ ys) ≡ k ∷ fit b ys
unfolding fit
fit_first k ys b =
    let left : len_utf16 k + b - len_utf16 k ≡ b = omega arith in
    rw (le→leb (len_utf16 k) (len_utf16 k + b) (omega arith), left)

fit-rev_append :
    (ks ys : List ℕ) (b n : ℕ)
    → n ≡ units ks + b
    → fit n (rev_append ks ys) ≡ rev_append ks (fit b ys)
unfolding rev_append units
fit-rev_append [] ys b n e = ap (λ (k : ℕ). fit k ys) (e ∙ omega arith)
fit-rev_append (k ∷ ks) ys b n e =
    fit-rev_append ks (k ∷ ys) (len_utf16 k + b) n (omega arith)
    ∙ ap (rev_append ks) (fit_first k ys b)

-- The kept characters `ks`, the one behind them, and the units that are dropped.
pub record Kept (rs ks : List ℕ) (total : List ℕ) : Type 0 where
  next : ℕ
  behind : List ℕ
  dropped : List ℕ
  split : total ≡ rev_append ks (next ∷ behind)
  small : units ks ≤ 29
  full : 29 < units ks + len_utf16 next
  buffer : taken_units rs ≡ taken_units ks ++ dropped

-- A character more that is not kept.
Kept-drop :
    (r : ℕ) (rs cs : List ℕ)
    → Kept rs (keep rs) (rev_append rs (r ∷ cs))
    → Kept (r ∷ rs) (keep rs) (rev_append (r ∷ rs) cs)
unfolding rev_append taken_units
Kept-drop r rs cs before = record {
  next = before.next;
  behind = before.behind;
  dropped = before.dropped ++ encode_utf16 r;
  split = before.split;
  small = before.small;
  full = before.full;
  buffer =
      ap (λ (u : List ℕ). u ++ encode_utf16 r) before.buffer
      ∙ append_assoc (taken_units (keep rs)) before.dropped (encode_utf16 r);
}

units_over : (r : ℕ) (rs : List ℕ) → 29 < units (r ∷ rs) → 29 < units rs + len_utf16 r
unfolding units
units_over r rs h = h

pub keep-Kept :
    (rs : List ℕ) (c : ℕ) (cs : List ℕ)
    → 29 < units rs + len_utf16 c
    → Kept rs (keep rs) (rev_append rs (c ∷ cs))
keep-Kept [] c cs over = record {
  next = c;
  behind = cs;
  dropped = [];
  split = unfold keep in refl;
  small = unfold units keep in omega arith;
  full = unfold keep in over;
  buffer = unfold keep taken_units in refl;
}
keep-Kept (r ∷ rs) c cs over = elim (Bool-cases (leb (units (r ∷ rs)) 29)) [
  | inl fits ↦
      subst (λ ks. Kept (r ∷ rs) ks (rev_append (r ∷ rs) (c ∷ cs)))
        (sym (keep_of_le (r ∷ rs) (leb→le _ 29 fits)))
        (record {
          next = c;
          behind = cs;
          dropped = [];
          split = refl;
          small = leb→le _ 29 fits;
          full = over;
          buffer = sym (append-nil _);
        })
  | inr more ↦
      subst (λ ks. Kept (r ∷ rs) ks (rev_append (r ∷ rs) (c ∷ cs)))
        (sym (keep_of_gt r rs (not_leb→lt _ 29 more)))
        (Kept-drop r rs (c ∷ cs) (keep-Kept rs r (c ∷ cs) (units_over r rs (not_leb→lt _ 29 more))))
]

-- The kept characters are the longest prefix of 29 units at most.
pub fit-Kept : (rs ks total : List ℕ) → Kept rs ks total → fit 29 total ≡ rev_append ks []
fit-Kept rs ks total k =
    ap (fit 29) k.split
    ∙ fit-rev_append ks (k.next ∷ k.behind) (29 - units ks) 29 (omega (arith, k.small))
    ∙ ap (rev_append ks)
        (unfold fit in rw (lt→not_leb (len_utf16 k.next) (29 - units ks) (omega (arith, k.full))))

-- Writing into a buffer, at a place where a part of it ends.
copy_into :
    {E : Type 0} (k : ℕ) (xs ys tail : List ℕ)
    → length xs ≡ k
    → length ys ≤ length tail
    → copy_at {E = E} (xs ++ tail) k ys ≡ ok (xs ++ (ys ++ drop (length ys) tail))
unfolding copy_at
copy_into k xs ys tail e room = rw (
  le→leb (k + length ys) (length (xs ++ tail)) (omega (arith, length-append xs tail)),
  take-append_exact k xs tail e,
  drop-append_add k (length ys) xs tail e,
)

-- Zeros over all that follows.
clear_rest :
    {E : Type 0} (k n : ℕ) (xs tail : List ℕ)
    → length xs ≡ k
    → k + length tail ≡ n
    → copy_at {E = E} (xs ++ tail) k (replicate (length (xs ++ tail) - k) 0) ≡ ok (pad n xs)
clear_rest k n xs tail e room =
    ap (λ (m : ℕ). copy_at (xs ++ tail) k (replicate m 0)) count
    ∙ copy_into k xs (replicate (n - length xs) 0) tail e
        (omega (arith, length-replicate {A = ℕ} (n - length xs) 0))
    ∙ ap (λ (t : List ℕ). ok (xs ++ (replicate (n - length xs) 0 ++ t))) nothing
    ∙ ap (λ (t : List ℕ). ok (xs ++ t)) (append-nil _)
    ∙ ap ok (unfold pad in refl)
  where
    count : length (xs ++ tail) - k ≡ n - length xs
    count = omega (arith, length-append xs tail)

    nothing : drop (length (replicate {A = ℕ} (n - length xs) 0)) tail ≡ []
    nothing = drop_all _ tail (omega (arith, length-replicate {A = ℕ} (n - length xs) 0))

-- Three dots behind what is kept, and zeros behind those.
ellipsis :
    {E : Type 0} (k : ℕ) (xs tail : List ℕ)
    → length xs ≡ k
    → k + length tail ≡ 32
    → k ≤ 29
    → (do
      dotted ← copy_at {E = E} (xs ++ tail) k dots
      copy_at dotted (k + 3) (replicate (length dotted - (k + 3)) 0))
      ≡ ok (pad 32 (xs ++ dots))
ellipsis k xs tail e whole small =
    rw (copy_into k xs dots tail e (omega arith), ← append_assoc xs dots (drop 3 tail))
      (clear_rest (k + 3) 32 (xs ++ dots) (drop 3 tail) (omega (arith, length-append xs dots))
        (omega (arith, length-drop 3 tail)))

-- The buffer is what is kept and the rest.
buffer_split :
    (rs ks total : List ℕ)
    → units rs ≤ 32
    → Kept rs ks total
    → (tail : List ℕ) × (pad 32 (taken_units rs) ≡ taken_units ks ++ tail)
      × (units ks + length tail ≡ 32)
unfolding pad
buffer_split rs ks total small k = (
  tail,
  split,
  omega (
    arith,
    ap length split,
    length-pad 32 (taken_units rs),
    length-taken_units rs,
    length-append (taken_units ks) tail,
    length-taken_units ks,
  ),
)
  where
    zeros : List ℕ
    zeros = replicate (32 - length (taken_units rs)) 0

    tail : List ℕ
    tail = k.dropped ++ zeros

    split : taken_units rs ++ zeros ≡ taken_units ks ++ tail
    split = ap (λ (u : List ℕ). u ++ zeros) k.buffer ∙ append_assoc (taken_units ks) k.dropped zeros

pub add_ellipsis-Kept :
    {E : Type 0} (c : ℕ) (rs : List ℕ) (total : List ℕ)
    → units rs ≤ 32
    → 32 < units (c ∷ rs)
    → Kept rs (keep rs) total
    → add_ellipsis {E = E} (record (filled rs) {
      cur_len = units (c ∷ rs);
      prev_len = pack (c ∷ rs);
      overflowing = true;
    })
      ≡ ok (pad 32 (taken_units (keep rs) ++ dots))
unfolding add_ellipsis
add_ellipsis-Kept c rs total small over k =
    let (tail, split, whole) = buffer_split rs (keep rs) total small k in
    rw (back_loop-pack c rs small over, split)
      (ellipsis (units (keep rs)) (taken_units (keep rs)) tail (length-taken_units (keep rs)) whole
        k.small)
