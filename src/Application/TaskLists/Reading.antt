-- ===== src/Application/TaskLists/Reading.antt =====
-- A client of `ListTasks` that follows the cursors.
use taskpulse.Prelude.{
  ℕ, zero, suc, ◌+◌, ◌≤◌, ◌<◌, String, true, false, Option, none, some, List, [], ◌∷◌, ◌++◌,
  magnitude, ltb, leb, is_empty, length, take, ◌≡◌, refl, sym, ap, ◌∙◌, arith, Assoc, All, lookup,
  inl, inr, Bool-cases, length-append,
}
use taskpulse.Result.{Result, ok, err}
use taskpulse.Task.{Task}
use taskpulse.Store.Both.{Stores}
use taskpulse.Store.Sorting.Cuts.{last, last-All, take-All, length-take, take-all, take-take}
use taskpulse.Store.Tasks.Claiming.{IsKeyed}
use taskpulse.Store.Query.{ListTasksOptions, TaskListItem, list_tasks as stored_tasks}
use taskpulse.Store.Query.Listing.{listing, listing-All, cut_lem}
use taskpulse.Store.Query.Pages.{from, listing-cut}
use taskpulse.Application.Codec.{Codec}
use taskpulse.Application.TaskLists.Cursors.{IsCarried, query_of-IsQuery, query_limit, query_from}
use taskpulse.Application.TaskLists.{
  ListTasksInput, ListTasksResult, limit_of, encode_task_list_cursor, query_of, page_of,
  next_cursor_of, list_tasks,
}

-- The items of a page in front of what was read behind it.
abbrev in_front : List TaskListItem → Option (List TaskListItem) → Option (List TaskListItem)
in_front items none = none
in_front items (some rest) = some (items ++ rest)

abbrev pub read_answer :
    Result ListTasksResult → (String → Option (List TaskListItem)) → Option (List TaskListItem)
read_answer (err e) following = none
read_answer (ok page) following = elim page.has_more [
  | true ↦ in_front page.items (following page.next_cursor)
  | false ↦ some page.items
]

-- All the items from a request on, in at most `fuel` requests that follow the cursors.
unfoldable pub read_pages : Codec → Stores → ℕ → ListTasksInput → Option (List TaskListItem)
read_pages codec s zero i = none
read_pages codec s (suc fuel) i =
    read_answer (list_tasks codec none i s).0
      (λ cursor. read_pages codec s fuel (record i { cursor = cursor }))

predecessor : (n : ℕ) → 1 ≤ n → (k : ℕ) × (n ≡ suc k)
predecessor zero h = absurd (omega (arith, h))
predecessor (suc k) h = (k, refl)

nonempty :
    (xs : List TaskListItem)
    → 0 < length xs
    → (x : TaskListItem) × (ys : List TaskListItem) × (xs ≡ x ∷ ys)
nonempty [] h = absurd (omega (arith, h))
nonempty (x ∷ ys) h = (x, ys, refl)

-- A page with everything that is left, and a page with more behind it.
page_of-end :
    (codec : Codec) (n : ℕ) (xs : List TaskListItem)
    → length xs ≤ n
    → page_of codec n (take (n + 1) xs) ≡ record { items = xs; next_cursor = ""; has_more = false }
unfolding page_of
page_of-end codec n xs h = ground (arith, take-all (n + 1) xs)

page_of-more :
    (codec : Codec) (n : ℕ) (x : TaskListItem) (ys : List TaskListItem)
    → n < length ys
    → let c = last x (take n ys) in
      page_of codec (suc n) (take (suc n + 1) (x ∷ ys)) ≡ record {
        items = x ∷ take n ys;
        next_cursor =
            encode_task_list_cursor codec (record { created_at = c.created_at; id = c.id });
        has_more = true;
      }
unfolding page_of next_cursor_of
page_of-more codec n x ys h =
    let taken : take (suc n) (take (suc n + 1) (x ∷ ys)) ≡ x ∷ take n ys =
      take-take (suc n) (suc n + 1) (x ∷ ys) (omega arith) in
    let full : length (take (suc n + 1) (x ∷ ys)) ≡ suc n + 1 =
      length-take (suc n + 1) (x ∷ ys) (omega (arith, h)) in
    let longer : ltb (suc n) (length (take (suc n + 1) (x ∷ ys))) ≡ true = ground (arith, full) in
    rw (longer, taken) refl

-- The stored tasks can be listed: their ids and creation times are set and their cursors carried.
pub record IsReadable (codec : Codec) (m : Assoc Task) : Type 0 where
  pub carried : (k : String) (t : Task) → lookup k m ≡ some t → IsCarried codec t.created_at t.id
  pub named : (k : String) (t : Task) → lookup k m ≡ some t → is_empty t.id ≡ false
  pub dated : (k : String) (t : Task) → lookup k m ≡ some t → 1 ≤ t.created_at

module _ (codec : Codec) (s : Stores) (h : IsKeyed s.task_store.tasks)
    (readable : IsReadable codec s.task_store.tasks) where
  list_tasks-page :
      (i : ListTasksInput) (o : ListTasksOptions)
      → query_of codec i ≡ ok o
      → list_tasks codec none i s ≡ (
        ok (
            page_of codec
              (magnitude (limit_of i.limit))
              (take (magnitude (limit_of i.limit) + 1) (listing o s.task_store.tasks))),
        s,
      )
  unfolding list_tasks stored_tasks
  list_tasks-page i o asked =
      let (more, positive) = query_limit codec i o asked in
      let q = query_of-IsQuery codec i o asked in
      rw asked (
        rw q.valid (
          ap (λ xs. (ok (page_of codec (magnitude (limit_of i.limit)) xs), s))
            (cut_lem (magnitude o.limit) (listing o s.task_store.tasks)
              ∙ ap (λ n. take n (listing o s.task_store.tasks)) more)))

  IsGood : TaskListItem → Type 0
  IsGood c = IsCarried codec c.created_at c.id × (is_empty c.id ≡ false) × (1 ≤ c.created_at)

  listing-IsGood : (o : ListTasksOptions) → All IsGood (listing o s.task_store.tasks)
  unfolding IsGood
  listing-IsGood o = listing-All IsGood o s.task_store.tasks h (λ k t found.
      (readable.carried k t found, readable.named k t found, readable.dated k t found))

  -- The items of a page that is not the last, and the query of the next request.
  next_page :
      (i : ListTasksInput) (o : ListTasksOptions) (n : ℕ) (x : TaskListItem)
      (ys : List TaskListItem)
      → query_of codec i ≡ ok o
      → listing o s.task_store.tasks ≡ x ∷ ys
      → let c = last x (take n ys) in
        query_of codec (record i {
          cursor = encode_task_list_cursor codec (record { created_at = c.created_at; id = c.id });
        })
        ≡ ok (from c o)
  unfolding IsGood
  next_page i o n x ys asked e =
      let good : All IsGood (x ∷ ys) = rw e at (listing-IsGood o) in
      let (carried, named, dated) =
        last-All IsGood x (take n ys) good.0 (take-All IsGood n ys good.1) in
      query_from codec i o asked (last x (take n ys)) carried named dated

  read_last :
      (fuel : ℕ) (i : ListTasksInput) (o : ListTasksOptions)
      → query_of codec i ≡ ok o
      → length (listing o s.task_store.tasks) ≤ magnitude (limit_of i.limit)
      → read_pages codec s (suc fuel) i ≡ some (listing o s.task_store.tasks)
  unfolding read_pages
  read_last fuel i o asked short =
      rw (list_tasks-page i o asked, page_of-end codec (magnitude (limit_of i.limit)) _ short) refl

  read_more :
      (fuel : ℕ) (i : ListTasksInput) (o : ListTasksOptions) (n : ℕ) (x : TaskListItem)
      (ys : List TaskListItem)
      → query_of codec i ≡ ok o
      → magnitude (limit_of i.limit) ≡ suc n
      → listing o s.task_store.tasks ≡ x ∷ ys
      → n < length ys
      → let c = last x (take n ys) in
        read_pages codec s fuel (record i {
          cursor = encode_task_list_cursor codec (record { created_at = c.created_at; id = c.id });
        })
          ≡ some (listing (from c o) s.task_store.tasks)
        → read_pages codec s (suc fuel) i ≡ some (listing o s.task_store.tasks)
  unfolding read_pages
  read_more fuel i o n x ys asked limit e long rest =
      let page = rw (limit, e, page_of-more codec n x ys long) at (list_tasks-page i o asked) in
      rw (page, rest) (ap some (sym (listing-cut o s.task_store.tasks h n x ys e)))

  shorter :
      (o : ListTasksOptions) (n : ℕ) (x : TaskListItem) (ys : List TaskListItem)
      → listing o s.task_store.tasks ≡ x ∷ ys
      → length (listing (from (last x (take n ys)) o) s.task_store.tasks)
        < length (listing o s.task_store.tasks)
  shorter o n x ys e = omega (
    arith,
    ap length (listing-cut o s.task_store.tasks h n x ys e),
    length-append (x ∷ take n ys) (listing (from (last x (take n ys)) o) s.task_store.tasks),
  )

  read-listing :
      (fuel : ℕ) (i : ListTasksInput) (o : ListTasksOptions)
      → query_of codec i ≡ ok o
      → length (listing o s.task_store.tasks) < fuel
      → read_pages codec s fuel i ≡ some (listing o s.task_store.tasks)
  read-listing zero i o asked enough = absurd (omega (arith, enough))
  read-listing (suc fuel) i o asked enough =
      elim (Bool-cases
        (leb (length (listing o s.task_store.tasks)) (magnitude (limit_of i.limit)))) [
          | inl short ↦ read_last fuel i o asked (ground arith)
          | inr long ↦
              let (n, limit) =
                predecessor (magnitude (limit_of i.limit)) (query_limit codec i o asked).1 in
              let (x, ys, e) = nonempty (listing o s.task_store.tasks) (ground arith) in
              read_more fuel i o n x ys asked limit e (ground (arith, long, limit, ap length e)) (
                read-listing fuel _ (from (last x (take n ys)) o) (next_page i o n x ys asked e)
                  (omega (arith, enough, shorter o n x ys e)))
        ]

-- A client that follows the cursors of ListTasks, from any accepted request on and with any size of
-- the pages, reads exactly the tasks that are asked for, newest first, each once: the pages put
-- together are the whole list, and one request more than there are tasks is enough. The stored
-- tasks do not change meanwhile, and their cursors are carried by JSON and base64.
pub read_pages-listing :
    (codec : Codec) (s : Stores) (i : ListTasksInput) (o : ListTasksOptions)
    → IsKeyed s.task_store.tasks
    → IsReadable codec s.task_store.tasks
    → query_of codec i ≡ ok o
    → read_pages codec s (length (listing o s.task_store.tasks) + 1) i
      ≡ some (listing o s.task_store.tasks)
read_pages-listing codec s i o h readable asked =
    read-listing codec s h readable (length (listing o s.task_store.tasks) + 1) i o asked
      (omega arith)
