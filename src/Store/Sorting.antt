-- ===== src/Store/Sorting.antt =====
-- `sort.Slice` and `sort.SliceStable` as internal/store calls them, with a `less` on two entries:
-- each entry goes in front of the later ones, behind those of them that are less. Equal entries keep
-- their order, as `SliceStable` documents; where the code calls `Slice`, no two entries are equal.
pub mod Filtered
pub mod Cuts
use taskpulse.Prelude.{
  filter, inl, inr, ◌≡◌, refl, Bool, true, false, List, [], ◌∷◌, All, arith, IsOrder, Bool-cases,
  if◌then◌else◌,
}

module _ {A : Type 0} (less : A → A → Bool) where
  unfoldable pub insert_sorted : A → List A → List A
  insert_sorted x [] = x ∷ []
  insert_sorted x (y ∷ ys) = if less y x then y ∷ insert_sorted x ys else x ∷ y ∷ ys

  unfoldable pub sort : List A → List A
  unfolding insert_sorted
  sort [] = []
  sort (x ∷ xs) = insert_sorted x (sort xs)

  -- No entry is less than one before it.
  abbrev pub IsSorted : List A → Type 0
  IsSorted [] = Unit {0}
  IsSorted (x ∷ xs) = All (λ y. less y x ≡ false) xs × IsSorted xs

  pub insert_sorted-All :
      (P : A → Type 0) (x : A) (xs : List A) → P x → All P xs → All P (insert_sorted x xs)
  unfolding insert_sorted
  insert_sorted-All P x [] p h = (p, tt)
  insert_sorted-All P x (y ∷ ys) p h = elim (Bool-cases (less y x)) [
    | inl e ↦ rw e (h.0, insert_sorted-All P x ys p h.1)
    | inr e ↦ rw e (p, h)
  ]

  pub sort-All : (P : A → Type 0) (xs : List A) → All P xs → All P (sort xs)
  unfolding sort
  sort-All P [] h = tt
  sort-All P (x ∷ xs) h = insert_sorted-All P x (sort xs) h.0 (sort-All P xs h.1)

  pub not_less :
      IsOrder less
      → (x y : A) (ys : List A) → less y x ≡ false
      → All (λ z. less z y ≡ false) ys
      → All (λ z. less z x ≡ false) ys
  not_less o x y [] e h = tt
  not_less o x y (z ∷ zs) e h = (o.skip z y x h.0 e, not_less o x y zs e h.1)

  insert_sorted-IsSorted :
      IsOrder less → (x : A) (xs : List A) → IsSorted xs → IsSorted (insert_sorted x xs)
  unfolding insert_sorted
  insert_sorted-IsSorted o x [] h = (tt, tt)
  insert_sorted-IsSorted o x (y ∷ ys) h = elim (Bool-cases (less y x)) [
    | inl e ↦ rw e (
      insert_sorted-All (λ z. less z y ≡ false) x ys (o.asym y x e) h.0,
      insert_sorted-IsSorted o x ys h.1,
    )
    | inr e ↦ rw e ((e, not_less o x y ys e h.0), h)
  ]

  pub sort-IsSorted : IsOrder less → (xs : List A) → IsSorted (sort xs)
  unfolding sort
  sort-IsSorted o [] = tt
  sort-IsSorted o (x ∷ xs) = insert_sorted-IsSorted o x (sort xs) (sort-IsSorted o xs)

  filter-insert_sorted :
      (q : A → Bool) (x : A) (xs : List A)
      → ((a b : A) → q a ≡ true → q b ≡ true → less a b ≡ false)
      → filter q (insert_sorted x xs) ≡ filter q (x ∷ xs)
  unfolding insert_sorted
  filter-insert_sorted q x [] tied = refl
  filter-insert_sorted q x (y ∷ ys) tied =
      ground (arith, filter-insert_sorted q x ys tied, tied y x)

  -- Entries that tie with each other are all there, in their order.
  pub filter-sort :
      (q : A → Bool) (xs : List A)
      → ((a b : A) → q a ≡ true → q b ≡ true → less a b ≡ false)
      → filter q (sort xs) ≡ filter q xs
  unfolding sort
  filter-sort q [] tied = refl
  filter-sort q (x ∷ xs) tied =
      ground (arith, filter-insert_sorted q x (sort xs) tied, filter-sort q xs tied)
