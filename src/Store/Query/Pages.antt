-- ===== src/Store/Query/Pages.antt =====
-- The list behind a cursor that stands at an entry of it.
use taskpulse.Prelude.{
  ℕ, true, some, List, [], ◌∷◌, ◌++◌, ◌≡◌, refl, ap, ◌∙◌, inl, inr, take, filter, Assoc, All, arith,
  text_ltb_trans,
}
use taskpulse.Task.{Task}
use taskpulse.Store.Sorting.{sort, sort-All}
use taskpulse.Store.Sorting.Filtered.{sort-filter}
use taskpulse.Store.Sorting.Cuts.{last, last-All, take-All, cut-rest}
use taskpulse.Store.Tasks.Claiming.{IsKeyed}
use taskpulse.Store.Query.{
  ListTasksOptions, TaskListItem, new_task_list_item, is_before_task_cursor, list_items, newer,
}
use taskpulse.Store.Query.Listing.{listing, listing-IsStrict, newer-IsOrder, list_items-IsAsked}

-- The same query, from behind this entry on.
abbrev pub from : TaskListItem → ListTasksOptions → ListTasksOptions
from c o = record o { before_created_at = some c.created_at; before_id = c.id }

abbrev IsBehind : ListTasksOptions → TaskListItem → Type 0
IsBehind o x = is_before_task_cursor x.created_at x.id o ≡ true

newer-behind :
    (o : ListTasksOptions) (c x : TaskListItem)
    → newer c x ≡ is_before_task_cursor x.created_at x.id (from c o)
unfolding newer is_before_task_cursor
newer-behind o c x = ground arith

IsBehind-trans :
    (o : ListTasksOptions) (c x : TaskListItem) → IsBehind o c → newer c x ≡ true → IsBehind o x
unfolding newer is_before_task_cursor
IsBehind-trans o c x h k = ground (arith, text_ltb_trans x.id c.id o.before_id)

-- The loop with the later cursor keeps what comes behind that cursor.
list_items-from :
    (o : ListTasksOptions) (c : TaskListItem)
    → IsBehind o c
    → (m : Assoc Task) → list_items (from c o) m ≡ filter (newer c) (list_items o m)
unfolding list_items
list_items-from o c h [] = refl
list_items-from o c h ((k, t) ∷ m) =
    let later = newer-behind o c (new_task_list_item t) in
    let trans = IsBehind-trans o c (new_task_list_item t) h in
    ground (arith, list_items-from o c h m, later, trans)

listing-from :
    (o : ListTasksOptions) (c : TaskListItem)
    → IsBehind o c
    → (m : Assoc Task) → listing (from c o) m ≡ filter (newer c) (listing o m)
listing-from o c h m =
    ap (sort newer) (list_items-from o c h m)
    ∙ sort-filter newer newer-IsOrder (newer c) (list_items o m)

list_items-IsBehind : (o : ListTasksOptions) (m : Assoc Task) → All (IsBehind o) (list_items o m)
unfolding list_items
list_items-IsBehind o [] = tt
list_items-IsBehind o ((k, t) ∷ m) = elim (list_items-IsAsked o k t m) [
  | inl e ↦ rw e (list_items-IsBehind o m)
  | inr (asked, e) ↦ rw e (asked.behind, list_items-IsBehind o m)
]

-- The first entries and the list behind the last of them are the whole list.
pub listing-cut :
    (o : ListTasksOptions) (m : Assoc Task)
    → IsKeyed m
    → (n : ℕ) (x : TaskListItem) (xs : List TaskListItem) → listing o m ≡ x ∷ xs
    → listing o m ≡ (x ∷ take n xs) ++ listing (from (last x (take n xs)) o) m
listing-cut o m h n x xs e =
    let strict = rw e at (listing-IsStrict o m h) in
    let behind : All (IsBehind o) (x ∷ xs) =
      rw e at (sort-All newer (IsBehind o) (list_items o m) (list_items-IsBehind o m)) in
    let c = last x (take n xs) in
    let at_c : IsBehind o c =
      last-All (IsBehind o) x (take n xs) behind.0 (take-All (IsBehind o) n xs behind.1) in
    rw (listing-from o c at_c m) (rw e (cut-rest newer newer-IsOrder n x xs strict))
