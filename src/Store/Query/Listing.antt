-- ===== src/Store/Query/Listing.antt =====
-- What ListTasks of internal/store/task_query_store.go lists.
use mathlib.Core.List.{Memᴰ}
use taskpulse.Prelude.{
  zero, suc, ◌≤◌, subst, take, length, length-take-le, magnitude, mem-of_lookup, lookup-of_mem, ◌⊎◌,
  ℕ, String, true, false, none, some, List, [], ◌∷◌, ltb, ◌≡◌, refl, sym, ap, inl, inr, text_eq,
  text_eq_iff, text_ltb_asym, text_ltb_irrefl, text_ltb_skip, text_ltb_total, Assoc, lookup,
  Distinct, IsOrder, arith, All, Bool-cases,
}
use taskpulse.Task.{Task}
use taskpulse.Store.Sorting.{sort, sort-IsSorted, sort-All}
use taskpulse.Store.Sorting.Filtered.{Pairwise, All-map, sort-Pairwise, strictly}
use taskpulse.Store.Sorting.Cuts.{IsStrict, take-all, take-All, take-mem, sort-mem}
use taskpulse.Result.{ok}
use taskpulse.Store.Tasks.Claiming.{IsKeyed}
use taskpulse.Store.Tasks.{MemoryTaskStore, other_workflow}
use taskpulse.Store.Query.{
  cut, validate, list_tasks, ListTasksOptions, TaskListItem, new_task_list_item,
  is_before_task_cursor, list_items, newer, other_status,
}

pub newer-IsOrder : IsOrder newer
unfolding newer
newer-IsOrder = record {
  irrefl = λ a. ground (arith, text_ltb_irrefl a.id);
  asym = λ a b h. ground (arith, text_ltb_asym b.id a.id);
  skip = λ a b c h k. ground (arith, text_ltb_skip c.id b.id a.id);
}

-- The whole list that is asked for, without its limit.
abbrev pub listing : ListTasksOptions → Assoc Task → List TaskListItem
listing o m = sort newer (list_items o m)

abbrev pub IsApart : TaskListItem → TaskListItem → Type 0
IsApart a b = text_eq a.id b.id ≡ false

newer-total : (a b : TaskListItem) → IsApart a b → newer b a ≡ false → newer a b ≡ true
unfolding newer
newer-total a b h k = ground (arith, text_ltb_total a.id b.id, text_eq_iff a.id b.id)

-- Each task is met under its own id.
Owned : Assoc Task → Type 0
Owned [] = Unit {0}
Owned ((k, t) ∷ m) = (t.id ≡ k) × Owned m

owned : (m : Assoc Task) → ((k : String) (t : Task) → Memᴰ (k, t) m → t.id ≡ k) → Owned m
unfolding Owned
owned [] h = tt
owned ((k, t) ∷ m) h = (h k t (Memᴰ.head refl), owned m (λ j u there. h j u (Memᴰ.tail there)))

-- The loop leaves a task out, or lists it.
list_items-cases :
    (o : ListTasksOptions) (k : String) (t : Task) (m : Assoc Task)
    → (list_items o ((k, t) ∷ m) ≡ list_items o m)
      ⊎ (list_items o ((k, t) ∷ m) ≡ new_task_list_item t ∷ list_items o m)
unfolding list_items
list_items-cases o k t m = ground arith

list_items-others :
    (o : ListTasksOptions) (x : Task) (m : Assoc Task)
    → lookup x.id m ≡ none
    → Owned m
    → All (IsApart (new_task_list_item x)) (list_items o m)
unfolding list_items lookup Owned
list_items-others o x [] missing own = tt
list_items-others o x ((k, t) ∷ m) missing own =
    let others : All (IsApart (new_task_list_item x)) (list_items o m) =
      list_items-others o x m (ground arith) own.1 in
    elim (list_items-cases o k t m) [
      | inl e ↦ rw e others
      | inr e ↦ rw e (ground (arith, text_eq_iff x.id t.id, text_eq_iff k x.id, own.0), others)
    ]

list_items-Pairwise :
    (o : ListTasksOptions) (m : Assoc Task)
    → Distinct m
    → Owned m
    → Pairwise IsApart (list_items o m)
unfolding list_items Owned
list_items-Pairwise o [] d own = tt
list_items-Pairwise o ((k, t) ∷ m) d own =
    let rest = list_items-Pairwise o m d.1 own.1 in
    elim (list_items-cases o k t m) [
      | inl e ↦ rw e rest
      | inr e ↦ rw e (list_items-others o t m (rw own.0 d.0) own.1, rest)
    ]

-- The newest task comes first, and no two tie.
pub listing-IsStrict :
    (o : ListTasksOptions) (m : Assoc Task)
    → IsKeyed m
    → Pairwise (λ x y. newer x y ≡ true) (listing o m)
listing-IsStrict o m h =
    strictly newer IsApart newer-total (listing o m) (sort-IsSorted newer newer-IsOrder _) (
      sort-Pairwise newer IsApart
        (λ a b e. ground (arith, text_eq_iff a.id b.id, text_eq_iff b.id a.id)) _
        (list_items-Pairwise o m h.distinct
          (owned m (λ k t there. h.keyed k t (lookup-of_mem k t m h.distinct there)))))

-- The task is in the workflow and the status that are asked for, if any are, and behind the cursor.
pub record IsAsked (o : ListTasksOptions) (t : Task) : Type 0 where
  pub in_workflow : other_workflow o.workflow t ≡ false
  pub in_status : other_status o.status t ≡ false
  pub behind : is_before_task_cursor t.created_at t.id o ≡ true

IsListed : ListTasksOptions → Assoc Task → TaskListItem → Type 0
IsListed o m x =
    (k : String) × (t : Task) × Memᴰ (k, t) m × IsAsked o t × (x ≡ new_task_list_item t)

pub list_items-IsAsked :
    (o : ListTasksOptions) (k : String) (t : Task) (m : Assoc Task)
    → (list_items o ((k, t) ∷ m) ≡ list_items o m)
      ⊎ (IsAsked o t × (list_items o ((k, t) ∷ m) ≡ new_task_list_item t ∷ list_items o m))
unfolding list_items
list_items-IsAsked o k t m = elim (Bool-cases (other_workflow o.workflow t)) [
  | inl a ↦ inl (ground (arith, a))
  | inr a ↦ elim (Bool-cases (other_status o.status t)) [
    | inl b ↦ inl (ground (arith, a, b))
    | inr b ↦ elim (Bool-cases (is_before_task_cursor t.created_at t.id o)) [
      | inl c ↦ inr (record { in_workflow = a; in_status = b; behind = c }, ground (arith, a, b, c))
      | inr c ↦ inl (ground (arith, a, b, c))
    ]
  ]
]

list_items-IsListed : (o : ListTasksOptions) (m : Assoc Task) → All (IsListed o m) (list_items o m)
unfolding list_items IsListed
list_items-IsListed o [] = tt
list_items-IsListed o ((k, t) ∷ m) =
    let rest : All (IsListed o ((k, t) ∷ m)) (list_items o m) =
      All-map (λ x (j, u, there, asked, same). (j, u, Memᴰ.tail there, asked, same))
        (list_items o m) (list_items-IsListed o m) in
    elim (list_items-IsAsked o k t m) [
      | inl e ↦ rw e rest
      | inr (asked, e) ↦ rw e ((k, t, Memᴰ.head refl, asked, refl), rest)
    ]

-- What holds of every stored task holds of everything that is listed.
pub listing-All :
    (P : TaskListItem → Type 0) (o : ListTasksOptions) (m : Assoc Task)
    → IsKeyed m
    → ((k : String) (t : Task) → lookup k m ≡ some t → P (new_task_list_item t))
    → All P (listing o m)
unfolding IsListed
listing-All P o m h each = sort-All newer P (list_items o m) (
    All-map
      (λ x (k, t, there, asked, same).
        subst P (sym same) (each k t (lookup-of_mem k t m h.distinct there)))
      (list_items o m) (list_items-IsListed o m))

list_items-mem :
    (o : ListTasksOptions) (k : String) (t : Task) (m : Assoc Task)
    → Memᴰ (k, t) m
    → IsAsked o t
    → Memᴰ (new_task_list_item t) (list_items o m)
unfolding list_items
list_items-mem o k t [] there asked = elim there [ ]
list_items-mem o k t ((j, u) ∷ m) (Memᴰ.head e) asked =
    let same : t ≡ u = ap (λ p. p.1) e in
    let listed : list_items o ((j, t) ∷ m) ≡ new_task_list_item t ∷ list_items o m =
      ground (arith, asked.in_workflow, asked.in_status, asked.behind) in
    subst (λ v. Memᴰ (new_task_list_item t) (list_items o ((j, v) ∷ m))) same
      (rw listed (Memᴰ.head refl))
list_items-mem o k t ((j, u) ∷ m) (Memᴰ.tail there) asked =
    let rest = list_items-mem o k t m there asked in
    elim (list_items-cases o j u m) [ inl e ↦ rw e rest | inr e ↦ rw e (Memᴰ.tail rest) ]

-- A page of the list.
pub record IsPage (o : ListTasksOptions) (m : Assoc Task) (items : List TaskListItem) : Type 0 where
  pub ordered : IsStrict newer items
  pub bounded : length items ≤ magnitude o.limit
  pub listed :
      All
        (λ x.
          (k : String) × (t : Task) × (lookup k m ≡ some t)
          × IsAsked o t
          × (x ≡ new_task_list_item t))
        items
  pub complete :
      (k : String) (t : Task)
      → lookup k m ≡ some t
      → IsAsked o t
      → Memᴰ (new_task_list_item t) items
        ⊎ ((length items ≡ magnitude o.limit)
            × All (λ x. newer x (new_task_list_item t) ≡ true) items)

take-Pairwise :
    (R : TaskListItem → TaskListItem → Type 0) (n : ℕ) (xs : List TaskListItem)
    → Pairwise R xs
    → Pairwise R (take n xs)
take-Pairwise R zero xs h = tt
take-Pairwise R (suc n) [] h = tt
take-Pairwise R (suc n) (x ∷ xs) h = (take-All (R x) n xs h.0, take-Pairwise R n xs h.1)

pub cut_lem : (n : ℕ) (xs : List TaskListItem) → cut n xs ≡ take n xs
cut_lem n xs = elim (Bool-cases (ltb n (length xs))) [
  | inl e ↦ rw e refl
  | inr e ↦ rw e (sym (take-all n xs (ground arith)))
]

listing-IsPage :
    (o : ListTasksOptions) (m : Assoc Task)
    → IsKeyed m
    → IsPage o m (take (magnitude o.limit) (listing o m))
unfolding IsListed
listing-IsPage o m h = record {
  ordered = take-Pairwise _ (magnitude o.limit) (listing o m) (listing-IsStrict o m h);
  bounded = length-take-le (magnitude o.limit) (listing o m);
  listed = take-All _ (magnitude o.limit) (listing o m) (
      sort-All newer _ (list_items o m) (
        All-map
          (λ x (k, t, there, asked, same).
            (k, t, lookup-of_mem k t m h.distinct there, asked, same))
          (list_items o m) (list_items-IsListed o m)));
  complete = λ k t found asked.
      take-mem newer (magnitude o.limit) (new_task_list_item t) (listing o m)
        (listing-IsStrict o m h)
        (sort-mem newer (new_task_list_item t) (list_items o m)
          (list_items-mem o k t m (mem-of_lookup k t m found) asked));
}

-- For a valid query ListTasks changes nothing and returns, newest first and strictly in order, at
-- most as many tasks as the limit says, each of them stored and asked for; and a stored task that
-- is asked for is among them, or they are as many as the limit says and all newer than it.
pub list_tasks-IsPage :
    (o : ListTasksOptions) (s : MemoryTaskStore)
    → IsKeyed s.tasks
    → validate o ≡ ok tt
    → (items : List TaskListItem) × (list_tasks none o s ≡ (ok items, s)) × IsPage o s.tasks items
unfolding list_tasks
list_tasks-IsPage o s h valid = (
  take (magnitude o.limit) (listing o s.tasks),
  rw valid (ap (λ xs. (ok xs, s)) (cut_lem (magnitude o.limit) (listing o s.tasks))),
  listing-IsPage o s.tasks h,
)
