-- ===== src/Tests/Lists.antt =====
-- Lists of tasks, read page by page.
use Prim.Native.Nat.{◌+◌}
use Prim.Native.String.{String}
use taskpulse.Prelude.{
  ◌≡◌, refl, inl, inr, ◌⊎◌, pos, some, none, List, [], ◌∷◌, arith, lookup, length, text_eq,
  text_eq_iff, Bool-cases, trim_space, subst, sym,
}
use taskpulse.Result.{ok}
use taskpulse.Task.{Task}
use taskpulse.Store.Both.{Stores}
use taskpulse.Store.Sorting.{sort}
use taskpulse.Store.Query.{
  ListTasksOptions, TaskListItem, new_task_list_item, validate, list_items, newer, list_tasks,
  is_before_task_cursor,
}
use taskpulse.Store.Query.Listing.{listing, IsPage, list_tasks-IsPage}
use taskpulse.Store.Tasks.Claiming.{IsKeyed}
use taskpulse.Store.Stats.{
  TaskStatsFilter, TaskStatsSnapshot, validate_filter, snapshot_filtered_task_stats,
}
use taskpulse.Store.Stats.Snapshot.{IsStatistics, snapshot-IsStatistics}
use taskpulse.Application.TaskLists.{ListTasksInput, query_of, at_cursor}
use taskpulse.Application.TaskLists.Cursors.{IsCarried}
use taskpulse.Application.TaskLists.Reading.{IsReadable, read_pages, read_pages-listing}
use taskpulse.Tests.Fixtures.{plain_codec, waiting_task, other_task, one_task, two_tasks}

abbrev both : Stores
both = record one_task { task_store = two_tasks }

both-IsKeyed : IsKeyed both.task_store.tasks
unfolding lookup
both-IsKeyed = record {
  distinct = (refl, (refl, tt));
  keyed = λ k u found. ground (arith, text_eq_iff "t1" k, text_eq_iff "t2" k);
}

one_of_both :
    (k : String) (t : Task)
    → lookup k both.task_store.tasks ≡ some t
    → (t ≡ waiting_task) ⊎ (t ≡ other_task)
unfolding lookup
one_of_both k t found = elim (Bool-cases (text_eq "t1" k)) [
  | inl e ↦ inl (ground (arith, e))
  | inr e ↦ elim (Bool-cases (text_eq "t2" k)) [
    | inl f ↦ inr (ground (arith, e, f))
    | inr f ↦ absurd (ground (arith, e, f))
  ]
]

carried :
    (t : Task) → (t ≡ waiting_task) ⊎ (t ≡ other_task) → IsCarried plain_codec t.created_at t.id
carried t (inl e) =
    subst (λ u. IsCarried plain_codec u.created_at u.id) (sym e)
      (record {
        bytes = "1111111111;t1;";
        marshaled = refl;
        encoded = refl;
        decoded = refl;
        unmarshaled = refl;
      })
carried t (inr e) =
    subst (λ u. IsCarried plain_codec u.created_at u.id) (sym e)
      (record {
        bytes = "11111;t2;";
        marshaled = refl;
        encoded = refl;
        decoded = refl;
        unmarshaled = refl;
      })

both-IsReadable : IsReadable plain_codec both.task_store.tasks
both-IsReadable = record {
  carried = λ k t found. carried t (one_of_both k t found);
  named = λ k t found. elim (one_of_both k t found) [ inl e ↦ rw e refl | inr e ↦ rw e refl ];
  dated = λ k t found. elim (one_of_both k t found) [
    | inl e ↦ rw e (omega arith)
    | inr e ↦ rw e (omega arith)
  ];
}

-- One task a page.
abbrev singly : ListTasksInput
singly = record { workflow = "resize"; status = "queued"; cursor = ""; limit = pos 1 }

abbrev everything : ListTasksOptions
everything = record {
  workflow = "resize";
  status = "queued";
  before_created_at = none;
  before_id = "";
  limit = pos 2;
}

everything_asked : query_of plain_codec singly ≡ ok everything
unfolding query_of at_cursor trim_space validate
everything_asked = refl

both_listed :
    listing everything both.task_store.tasks
    ≡ new_task_list_item waiting_task ∷ new_task_list_item other_task ∷ []
unfolding sort list_items newer is_before_task_cursor
both_listed = refl

read_pages-listing_example :
    read_pages plain_codec both (length (listing everything both.task_store.tasks) + 1) singly
    ≡ some (listing everything both.task_store.tasks)
read_pages-listing_example =
    read_pages-listing plain_codec both singly everything both-IsKeyed both-IsReadable
      everything_asked

everything_valid : validate everything ≡ ok tt
unfolding validate
everything_valid = refl

list_tasks-IsPage_example :
    (items : List TaskListItem) × (list_tasks none everything two_tasks ≡ (ok items, two_tasks))
    × IsPage everything two_tasks.tasks items
list_tasks-IsPage_example = list_tasks-IsPage everything two_tasks both-IsKeyed everything_valid

abbrev no_filter : TaskStatsFilter
no_filter = record { workflow = ""; status = "" }

no_filter_valid : validate_filter no_filter ≡ ok tt
unfolding validate_filter
no_filter_valid = refl

snapshot-IsStatistics_example :
    (snapshot : TaskStatsSnapshot) × (snapshot_filtered_task_stats none 20 0 no_filter two_tasks
      ≡ (ok snapshot, two_tasks))
    × IsStatistics no_filter 20 two_tasks.tasks snapshot
snapshot-IsStatistics_example =
    snapshot-IsStatistics 20 0 no_filter two_tasks both-IsKeyed no_filter_valid
