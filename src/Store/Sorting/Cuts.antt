-- ===== src/Store/Sorting/Cuts.antt =====
-- A list in strict order, cut behind one of its entries.
use mathlib.Core.List.{Memᴰ}
use taskpulse.Prelude.{
  ℕ, zero, suc, ◌≤◌, filter, inl, inr, ◌⊎◌, ◌≡◌, refl, sym, ap, subst, Bool, true, List, [], ◌∷◌,
  All, arith, IsOrder, Bool-cases, ◌++◌, take, length,
}
use taskpulse.Store.Sorting.{insert_sorted, sort}
use taskpulse.Store.Sorting.Filtered.{Pairwise, filter-keep}

module _ {A : Type 0} where
  -- The last entry of `x ∷ xs`.
  abbrev pub last : A → List A → A
  last x [] = x
  last x (y ∷ ys) = last y ys

  pub last-All : (P : A → Type 0) (x : A) (xs : List A) → P x → All P xs → P (last x xs)
  last-All P x [] p h = p
  last-All P x (y ∷ ys) p h = last-All P y ys h.0 h.1

  pub take-All : (P : A → Type 0) (n : ℕ) (xs : List A) → All P xs → All P (take n xs)
  take-All P zero xs h = tt
  take-All P (suc n) [] h = tt
  take-All P (suc n) (x ∷ xs) h = (h.0, take-All P n xs h.1)

  pub take-take : (n k : ℕ) (xs : List A) → n ≤ k → take n (take k xs) ≡ take n xs
  take-take zero k xs h = refl
  take-take (suc n) zero xs h = absurd (omega (arith, h))
  take-take (suc n) (suc k) [] h = refl
  take-take (suc n) (suc k) (x ∷ xs) h = ap (λ ys. x ∷ ys) (take-take n k xs (omega (arith, h)))

  pub take-all : (n : ℕ) (xs : List A) → length xs ≤ n → take n xs ≡ xs
  take-all zero [] h = refl
  take-all zero (x ∷ xs) h = absurd (omega (arith, h))
  take-all (suc n) [] h = refl
  take-all (suc n) (x ∷ xs) h = ap (λ ys. x ∷ ys) (take-all n xs (omega (arith, h)))

  pub length-take : (n : ℕ) (xs : List A) → n ≤ length xs → length (take n xs) ≡ n
  length-take zero xs h = refl
  length-take (suc n) [] h = absurd (omega (arith, h))
  length-take (suc n) (x ∷ xs) h = omega (arith, length-take n xs)

  pub All-of_mem : (P : A → Type 0) (x : A) (xs : List A) → All P xs → Memᴰ x xs → P x
  All-of_mem P x [] h there = elim there [ ]
  All-of_mem P x (y ∷ ys) h (Memᴰ.head e) = subst P (sym e) h.0
  All-of_mem P x (y ∷ ys) h (Memᴰ.tail there) = All-of_mem P x ys h.1 there

module _ {A : Type 0} (less : A → A → Bool) where
  abbrev pub IsStrict : List A → Type 0
  IsStrict xs = Pairwise (λ x y. less x y ≡ true) xs

  insert_sorted-head : (x : A) (ys : List A) → Memᴰ x (insert_sorted less x ys)
  unfolding insert_sorted
  insert_sorted-head x [] = Memᴰ.head refl
  insert_sorted-head x (z ∷ zs) = elim (Bool-cases (less z x)) [
    | inl e ↦ rw e (Memᴰ.tail (insert_sorted-head x zs))
    | inr e ↦ rw e (Memᴰ.head refl)
  ]

  insert_sorted-tail : (x y : A) (ys : List A) → Memᴰ x ys → Memᴰ x (insert_sorted less y ys)
  unfolding insert_sorted
  insert_sorted-tail x y [] h = elim h [ ]
  insert_sorted-tail x y (z ∷ zs) (Memᴰ.head e) = elim (Bool-cases (less z y)) [
    | inl k ↦ rw k (Memᴰ.head e)
    | inr k ↦ rw k (Memᴰ.tail (Memᴰ.head e))
  ]
  insert_sorted-tail x y (z ∷ zs) (Memᴰ.tail h) = elim (Bool-cases (less z y)) [
    | inl k ↦ rw k (Memᴰ.tail (insert_sorted-tail x y zs h))
    | inr k ↦ rw k (Memᴰ.tail (Memᴰ.tail h))
  ]

  -- Sorting loses no entry.
  pub sort-mem : (x : A) (xs : List A) → Memᴰ x xs → Memᴰ x (sort less xs)
  unfolding sort
  sort-mem x [] h = h
  sort-mem x (y ∷ ys) (Memᴰ.head e) =
      subst (λ z. Memᴰ x (insert_sorted less z (sort less ys))) e
        (insert_sorted-head x (sort less ys))
  sort-mem x (y ∷ ys) (Memᴰ.tail h) = insert_sorted-tail x y (sort less ys) (sort-mem x ys h)

  -- An entry is among the first ones, or all of those come before it.
  pub take-mem :
      (n : ℕ) (x : A) (xs : List A)
      → IsStrict xs
      → Memᴰ x xs
      → Memᴰ x (take n xs) ⊎ ((length (take n xs) ≡ n) × All (λ y. less y x ≡ true) (take n xs))
  take-mem zero x xs s h = inr (refl, tt)
  take-mem (suc n) x [] s h = elim h [ ]
  take-mem (suc n) x (y ∷ ys) s (Memᴰ.head e) = inl (Memᴰ.head e)
  take-mem (suc n) x (y ∷ ys) s (Memᴰ.tail h) = elim (take-mem n x ys s.1 h) [
    | inl here ↦ inl (Memᴰ.tail here)
    | inr (full, before) ↦
        inr (omega (arith, full), (All-of_mem (λ z. less y z ≡ true) x ys s.0 h, before))
  ]

  -- Behind its first entries a list in strict order has what comes after the last of them.
  pub cut-rest :
      IsOrder less
      → (n : ℕ) (x : A) (xs : List A) → IsStrict (x ∷ xs)
      → x ∷ xs ≡ (x ∷ take n xs) ++ filter (less (last x (take n xs))) (x ∷ xs)
  cut-rest o zero x xs s = rw (o.irrefl x) (ap (λ ys. x ∷ ys) (sym (filter-keep (less x) xs s.0)))
  cut-rest o (suc n) x [] s = rw (o.irrefl x) refl
  cut-rest o (suc n) x (y ∷ ys) s =
      let c = last y (take n ys) in
      let before : less x c ≡ true =
        last-All (λ z. less x z ≡ true) y (take n ys) s.0.0 (take-All _ n ys s.0.1) in
      rw (o.asym x c before) (ap (λ zs. x ∷ zs) (cut-rest o n y ys s.1))
