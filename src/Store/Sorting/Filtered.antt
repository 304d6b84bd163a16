-- ===== src/Store/Sorting/Filtered.antt =====
-- Sorting and picking out entries exchange, and sorting keeps the entries apart from each other.
use taskpulse.Prelude.{
  filter, inl, inr, ◌≡◌, refl, ◌∙◌, sym, ap, Bool, true, false, List, [], ◌∷◌, All, arith, IsOrder,
  Bool-cases,
}
use taskpulse.Store.Sorting.{
  insert_sorted, sort, IsSorted, sort-IsSorted, not_less, insert_sorted-All, sort-All,
}

-- A relation between each entry and every later one.
abbrev pub Pairwise : {A : Type 0} → (A → A → Type 0) → List A → Type 0
Pairwise R [] = Unit {0}
Pairwise R (x ∷ xs) = All (R x) xs × Pairwise R xs

module _ {A : Type 0} where
  pub All-map : {P Q : A → Type 0} → ((a : A) → P a → Q a) → (xs : List A) → All P xs → All Q xs
  All-map f [] h = tt
  All-map f (x ∷ xs) h = (f x h.0, All-map f xs h.1)

  pub filter-none : (q : A → Bool) (xs : List A) → All (λ x. q x ≡ false) xs → filter q xs ≡ []
  filter-none q [] h = refl
  filter-none q (x ∷ xs) h = rw h.0 (filter-none q xs h.1)

  pub filter-keep : (q : A → Bool) (xs : List A) → All (λ x. q x ≡ true) xs → filter q xs ≡ xs
  filter-keep q [] h = refl
  filter-keep q (x ∷ xs) h = rw h.0 (ap (λ ys. x ∷ ys) (filter-keep q xs h.1))

module _ {A : Type 0} (less : A → A → Bool) where
  -- An entry before which nothing of the list comes goes in front.
  insert_sorted-front :
      (x : A) (xs : List A) → All (λ z. less z x ≡ false) xs → insert_sorted less x xs ≡ x ∷ xs
  unfolding insert_sorted
  insert_sorted-front x [] h = refl
  insert_sorted-front x (y ∷ ys) h = rw h.0 refl

  pub filter-All : (P : A → Type 0) (q : A → Bool) (xs : List A) → All P xs → All P (filter q xs)
  filter-All P q [] h = tt
  filter-All P q (x ∷ xs) h = elim (Bool-cases (q x)) [
    | inl e ↦ rw e (h.0, filter-All P q xs h.1)
    | inr e ↦ rw e (filter-All P q xs h.1)
  ]

  filter-insert_kept :
      IsOrder less
      → (q : A → Bool) (x : A) (ys : List A) → IsSorted less ys
      → q x ≡ true
      → filter q (insert_sorted less x ys) ≡ insert_sorted less x (filter q ys)
  unfolding insert_sorted
  filter-insert_kept o q x [] h e = rw e refl
  filter-insert_kept o q x (y ∷ ys) h e = elim (Bool-cases (less y x)) [
    | inl before ↦ elim (Bool-cases (q y)) [
      | inl k ↦ ground (arith, filter-insert_kept o q x ys h.1 e)
      | inr k ↦ ground (arith, filter-insert_kept o q x ys h.1 e)
    ]
    | inr after ↦
        let later =
          filter-All (λ z. less z x ≡ false) q (y ∷ ys) (after, not_less less o x y ys after h.0) in
        rw after (rw e (sym (insert_sorted-front x (filter q (y ∷ ys)) later)))
  ]

  filter-insert_dropped :
      (q : A → Bool) (x : A) (ys : List A)
      → q x ≡ false
      → filter q (insert_sorted less x ys) ≡ filter q ys
  unfolding insert_sorted
  filter-insert_dropped q x [] e = rw e refl
  filter-insert_dropped q x (y ∷ ys) e = ground (arith, filter-insert_dropped q x ys e)

  -- What passes a test, sorted, is what passes it of the sorted list.
  pub sort-filter :
      IsOrder less
      → (q : A → Bool) (xs : List A) → sort less (filter q xs) ≡ filter q (sort less xs)
  unfolding sort
  sort-filter o q [] = refl
  sort-filter o q (x ∷ xs) = elim (Bool-cases (q x)) [
    | inl e ↦ rw e (
        ap (insert_sorted less x) (sort-filter o q xs)
        ∙ sym (filter-insert_kept o q x (sort less xs) (sort-IsSorted less o xs) e))
    | inr e ↦ rw e (sort-filter o q xs ∙ sym (filter-insert_dropped q x (sort less xs) e))
  ]

  module _ (R : A → A → Type 0) (swap : (a b : A) → R a b → R b a) where
    insert_sorted-Pairwise :
        (x : A) (xs : List A) → All (R x) xs → Pairwise R xs → Pairwise R (insert_sorted less x xs)
    unfolding insert_sorted
    insert_sorted-Pairwise x [] h k = (tt, tt)
    insert_sorted-Pairwise x (y ∷ ys) h k = elim (Bool-cases (less y x)) [
      | inl e ↦ rw e (
        insert_sorted-All less (R y) x ys (swap x y h.0) k.0,
        insert_sorted-Pairwise x ys h.1 k.1,
      )
      | inr e ↦ rw e (h, k)
    ]

    pub sort-Pairwise : (xs : List A) → Pairwise R xs → Pairwise R (sort less xs)
    unfolding sort
    sort-Pairwise [] h = tt
    sort-Pairwise (x ∷ xs) h =
        insert_sorted-Pairwise x (sort less xs) (sort-All less (R x) xs h.0) (sort-Pairwise xs h.1)

-- What is sorted and apart comes in strict order.
module _ {A : Type 0} (less : A → A → Bool) (R : A → A → Type 0)
    (total : (a b : A) → R a b → less b a ≡ false → less a b ≡ true) where
  before_each :
      (x : A) (xs : List A)
      → All (λ y. less y x ≡ false) xs
      → All (R x) xs
      → All (λ y. less x y ≡ true) xs
  before_each x [] h k = tt
  before_each x (y ∷ ys) h k = (total x y k.0 h.0, before_each x ys h.1 k.1)

  pub strictly :
      (xs : List A) → IsSorted less xs → Pairwise R xs → Pairwise (λ x y. less x y ≡ true) xs
  strictly [] h k = tt
  strictly (x ∷ xs) h k = (before_each x xs h.0 k.0, strictly xs h.1 k.1)
