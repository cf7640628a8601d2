-- ===== src/Scan/Sorted.antt =====
-- src/scan.rs: sorting forgets the order of the map's iterator.
use scanner_button.Prelude.{
  ℕ, ◌≡◌, refl, sym, ◌∙◌, inl, inr, List, [], ◌∷◌, Bool-cases, true, false,
}
use mathlib.Core.List.{Perm}
use mathlib.Core.List as List
use mathlib.Core.List.Perm
use scanner_button.Scan.Sort.{is_less, cmp_entry, insert_sorted, sort_entries}
use scanner_button.Scan.Order.{entries-IsBefore}

abbrev pub Entry : Type 0
Entry = List ℕ × List ℕ

pub insert_sorted-nil : (e : Entry) → insert_sorted e [] ≡ e ∷ []
unfolding insert_sorted
insert_sorted-nil e = refl

pub insert_sorted_before :
    (e f : Entry) (rest : List Entry)
    → is_less (cmp_entry f e) ≡ true
    → insert_sorted e (f ∷ rest) ≡ f ∷ insert_sorted e rest
unfolding insert_sorted
insert_sorted_before e f rest h = rw h

pub insert_sorted_here :
    (e f : Entry) (rest : List Entry)
    → is_less (cmp_entry f e) ≡ false
    → insert_sorted e (f ∷ rest) ≡ e ∷ f ∷ rest
unfolding insert_sorted
insert_sorted_here e f rest h = rw h

-- An entry that is not behind `f` is in front of one that is.
between :
    (a b f : Entry)
    → is_less (cmp_entry f a) ≡ true
    → is_less (cmp_entry f b) ≡ false
    → is_less (cmp_entry b a) ≡ true
between a b f h k = elim (Bool-cases (is_less (cmp_entry b f))) [
  | inl e ↦ entries-IsBefore.trans b f a e h
  | inr e ↦ rw (entries-IsBefore.total b f e k) h
]

insert_sorted_comm_here :
    (a b f : Entry) (rest : List Entry)
    → is_less (cmp_entry f a) ≡ false
    → is_less (cmp_entry f b) ≡ false
    → insert_sorted a (b ∷ f ∷ rest) ≡ insert_sorted b (a ∷ f ∷ rest)
insert_sorted_comm_here a b f rest h k = elim (Bool-cases (is_less (cmp_entry b a))) [
  | inl e ↦ rw (
    insert_sorted_before a b (f ∷ rest) e,
    insert_sorted_here a f rest h,
    insert_sorted_here b a (f ∷ rest) (entries-IsBefore.asymm b a e),
  )
  | inr e ↦ elim (Bool-cases (is_less (cmp_entry a b))) [
    | inl e' ↦ rw (
      insert_sorted_before b a (f ∷ rest) e',
      insert_sorted_here b f rest k,
      insert_sorted_here a b (f ∷ rest) e,
    )
    | inr e' ↦ rw (entries-IsBefore.total a b e' e) refl
  ]
]

-- The order in which two entries are inserted does not matter.
insert_sorted_comm :
    (a b : Entry) (l : List Entry)
    → insert_sorted a (insert_sorted b l) ≡ insert_sorted b (insert_sorted a l)
insert_sorted_comm a b [] = elim (Bool-cases (is_less (cmp_entry b a))) [
  | inl e ↦ rw (
    insert_sorted-nil b,
    insert_sorted-nil a,
    insert_sorted_before a b [] e,
    insert_sorted_here b a [] (entries-IsBefore.asymm b a e),
    insert_sorted-nil a,
  )
  | inr e ↦ elim (Bool-cases (is_less (cmp_entry a b))) [
    | inl e' ↦ rw (
      insert_sorted-nil b,
      insert_sorted-nil a,
      insert_sorted_here a b [] e,
      insert_sorted_before b a [] e',
      insert_sorted-nil b,
    )
    | inr e' ↦ rw (entries-IsBefore.total a b e' e) refl
  ]
]
insert_sorted_comm a b (f ∷ rest) = elim (Bool-cases (is_less (cmp_entry f a))) [
  | inl h ↦ elim (Bool-cases (is_less (cmp_entry f b))) [
    | inl k ↦ rw (
      insert_sorted_before b f rest k,
      insert_sorted_before a f (insert_sorted b rest) h,
      insert_sorted_before a f rest h,
      insert_sorted_before b f (insert_sorted a rest) k,
      insert_sorted_comm a b rest,
    )
    | inr k ↦ rw (
      insert_sorted_here b f rest k,
      insert_sorted_before a b (f ∷ rest) (between a b f h k),
      insert_sorted_before a f rest h,
      insert_sorted_here b f (insert_sorted a rest) k,
    )
  ]
  | inr h ↦ elim (Bool-cases (is_less (cmp_entry f b))) [
    | inl k ↦ rw (
      insert_sorted_before b f rest k,
      insert_sorted_here a f rest h,
      insert_sorted_here a f (insert_sorted b rest) h,
      insert_sorted_before b a (f ∷ rest) (between b a f k h),
      insert_sorted_before b f rest k,
    )
    | inr k ↦
        rw (insert_sorted_here b f rest k, insert_sorted_here a f rest h)
          (insert_sorted_comm_here a b f rest h k)
  ]
]

insert_sorted-Perm : (e : Entry) (l : List Entry) → Perm (insert_sorted e l) (e ∷ l)
unfolding insert_sorted
insert_sorted-Perm e [] = Perm.rfl
insert_sorted-Perm e (f ∷ rest) = elim (Bool-cases (is_less (cmp_entry f e))) [
  | inl h ↦ rw h (Perm.trans (Perm.cons f (insert_sorted-Perm e rest)) (Perm.swap e f rest))
  | inr h ↦ rw h Perm.rfl
]

pub sort_entries-Perm : (l : List Entry) → Perm (sort_entries l) l
unfolding sort_entries
sort_entries-Perm [] = Perm.rfl
sort_entries-Perm (e ∷ rest) =
    Perm.trans (insert_sorted-Perm e (sort_entries rest)) (Perm.cons e (sort_entries-Perm rest))

sort_entries-foldr : (l : List Entry) → sort_entries l ≡ List.foldr insert_sorted [] l
unfolding sort_entries
sort_entries-foldr [] = refl
sort_entries-foldr (e ∷ rest) = rw (sort_entries-foldr rest)

entries_set : IsSet (List Entry)
entries_set = hlevel

pub sort_entries_alike : (xs ys : List Entry) → Perm xs ys → sort_entries xs ≡ sort_entries ys
sort_entries_alike xs ys p =
    sort_entries-foldr xs
    ∙ Perm.foldr-eq entries_set insert_sorted insert_sorted_comm p []
    ∙ sym (sort_entries-foldr ys)
