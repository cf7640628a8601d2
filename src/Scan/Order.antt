-- ===== src/Scan/Order.antt =====
-- src/scan.rs: the order of the entries of an identity is a total one.
use scanner_button.Prelude.{
  ℕ, ◌≡◌, refl, sym, ◌⊎◌, inl, inr, List, [], ◌∷◌, arith, Bool, true, false,
}
use scanner_button.Scan.Sort.{
  Ordering, less, equal, greater, followed_by, cmp_byte, cmp_str, cmp_entry, is_less,
}

pub reversed : Ordering → Ordering
reversed less = greater
reversed equal = equal
reversed greater = less

-- What `sort` relies on of a comparison.
pub record IsOrder {A : Type 0} (cmp : A → A → Ordering) : Type 0 where
  pub flip : (x y : A) → cmp y x ≡ reversed (cmp x y)
  pub equal_eq : (x y : A) → cmp x y ≡ equal → x ≡ y
  pub less_trans : (x y z : A) → cmp x y ≡ less → cmp y z ≡ less → cmp x z ≡ less

cmp_byte-IsOrder : IsOrder cmp_byte
unfolding cmp_byte reversed
cmp_byte-IsOrder = record {
  flip = λ x y. ground arith;
  equal_eq = λ x y e. ground arith;
  less_trans = λ x y z e e'. ground arith;
}

followed_by-eq-less :
    (o p : Ordering) → followed_by o p ≡ less → (o ≡ less) ⊎ ((o ≡ equal) × (p ≡ less))
unfolding followed_by
followed_by-eq-less less p e = inl refl
followed_by-eq-less equal p e = inr (refl, e)
followed_by-eq-less greater p e = cc

followed_by-eq-equal : (o p : Ordering) → followed_by o p ≡ equal → (o ≡ equal) × (p ≡ equal)
unfolding followed_by
followed_by-eq-equal less p e = cc
followed_by-eq-equal equal p e = (refl, e)
followed_by-eq-equal greater p e = cc

reversed-followed_by :
    (o p : Ordering) → reversed (followed_by o p) ≡ followed_by (reversed o) (reversed p)
unfolding followed_by reversed
reversed-followed_by less p = refl
reversed-followed_by equal p = refl
reversed-followed_by greater p = refl

-- Two steps of a comparison by a first part and then by a second one.
followed_by_trans :
    {A : Type 0} {cmp : A → A → Ordering} (o : IsOrder cmp) (x y z : A) (p q r : Ordering)
    → (p ≡ less → q ≡ less → r ≡ less)
    → followed_by (cmp x y) p ≡ less
    → followed_by (cmp y z) q ≡ less
    → followed_by (cmp x z) r ≡ less
unfolding followed_by
followed_by_trans {cmp} o x y z p q r next e e' = elim (followed_by-eq-less (cmp x y) p e) [
  | inl first ↦ elim (followed_by-eq-less (cmp y z) q e') [
    | inl second ↦ rw (o.less_trans x y z first second) refl
    | inr (same, _) ↦ rw (rw (o.equal_eq y z same) at first) refl
  ]
  | inr (same, below) ↦ elim (followed_by-eq-less (cmp y z) q e') [
    | inl second ↦ rw (rw (sym (o.equal_eq x y same)) at second) refl
    | inr (same', below') ↦ rw (rw (sym (o.equal_eq x y same)) at same', next below below') refl
  ]
]

cmp_str-flip : (xs ys : List ℕ) → cmp_str ys xs ≡ reversed (cmp_str xs ys)
unfolding cmp_str reversed
cmp_str-flip [] [] = refl
cmp_str-flip [] (y ∷ ys) = refl
cmp_str-flip (x ∷ xs) [] = refl
cmp_str-flip (x ∷ xs) (y ∷ ys) = rw (
  reversed-followed_by (cmp_byte x y) (cmp_str xs ys),
  cmp_byte-IsOrder.flip x y,
  cmp_str-flip xs ys,
)

cmp_str-equal : (xs ys : List ℕ) → cmp_str xs ys ≡ equal → xs ≡ ys
unfolding cmp_str
cmp_str-equal [] [] e = refl
cmp_str-equal [] (y ∷ ys) e = cc
cmp_str-equal (x ∷ xs) [] e = cc
cmp_str-equal (x ∷ xs) (y ∷ ys) e =
    let (first, second) = followed_by-eq-equal (cmp_byte x y) (cmp_str xs ys) e in
    cc (cmp_byte-IsOrder.equal_eq x y first, cmp_str-equal xs ys second)

cmp_str-less_trans :
    (xs ys zs : List ℕ) → cmp_str xs ys ≡ less → cmp_str ys zs ≡ less → cmp_str xs zs ≡ less
unfolding cmp_str
cmp_str-less_trans [] [] zs e e' = cc
cmp_str-less_trans [] (y ∷ ys) [] e e' = cc
cmp_str-less_trans [] (y ∷ ys) (z ∷ zs) e e' = refl
cmp_str-less_trans (x ∷ xs) [] zs e e' = cc
cmp_str-less_trans (x ∷ xs) (y ∷ ys) [] e e' = cc
cmp_str-less_trans (x ∷ xs) (y ∷ ys) (z ∷ zs) e e' =
    followed_by_trans cmp_byte-IsOrder x y z (cmp_str xs ys) (cmp_str ys zs) (cmp_str xs zs)
      (cmp_str-less_trans xs ys zs) e e'

pub cmp_str-IsOrder : IsOrder cmp_str
cmp_str-IsOrder = record {
  flip = cmp_str-flip;
  equal_eq = cmp_str-equal;
  less_trans = cmp_str-less_trans;
}

-- The entries of a map, by their keys and then by their values.
pub cmp_entry-IsOrder : IsOrder cmp_entry
unfolding cmp_entry
cmp_entry-IsOrder = record {
  flip = λ (k, v) (k', v').
      rw (reversed-followed_by (cmp_str k k') (cmp_str v v'), cmp_str-flip k k', cmp_str-flip v v');
  equal_eq = λ (k, v) (k', v') e.
      let (first, second) = followed_by-eq-equal (cmp_str k k') (cmp_str v v') e in
      cc (cmp_str-equal k k' first, cmp_str-equal v v' second);
  less_trans = λ (k, v) (k', v') (k'', v'') e e'.
      followed_by_trans cmp_str-IsOrder k k' k'' (cmp_str v v') (cmp_str v' v'') (cmp_str v v'')
        (cmp_str-less_trans v v' v'') e e';
}

-- The test that insertion makes.
pub record IsBefore (before : List ℕ × List ℕ → List ℕ × List ℕ → Bool) : Type 0 where
  pub asymm : (x y : _) → before x y ≡ true → before y x ≡ false
  pub trans : (x y z : _) → before x y ≡ true → before y z ≡ true → before x z ≡ true
  pub total : (x y : _) → before x y ≡ false → before y x ≡ false → x ≡ y

is_less-eq-true : (o : Ordering) → is_less o ≡ true → o ≡ less
unfolding is_less
is_less-eq-true less e = refl
is_less-eq-true equal e = cc
is_less-eq-true greater e = cc

both_false : (o : Ordering) → is_less o ≡ false → is_less (reversed o) ≡ false → o ≡ equal
unfolding is_less reversed
both_false less e e' = cc
both_false equal e e' = refl
both_false greater e e' = cc

pub entries-IsBefore : IsBefore (λ x y. is_less (cmp_entry x y))
unfolding is_less reversed
entries-IsBefore = record {
  asymm = λ x y e. rw (cmp_entry-IsOrder.flip x y, is_less-eq-true (cmp_entry x y) e);
  trans = λ x y z e e'. rw (
      cmp_entry-IsOrder.less_trans x y z (is_less-eq-true (cmp_entry x y) e)
        (is_less-eq-true (cmp_entry y z) e'));
  total = λ x y e e'.
      cmp_entry-IsOrder.equal_eq x y
        (both_false (cmp_entry x y) e (rw (cmp_entry-IsOrder.flip x y) at e'));
}
