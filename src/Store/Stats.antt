-- ===== src/Store/Stats.antt =====
-- internal/store/task_stats_store.go: how many tasks have which status, how many of them a worker
-- could claim, and for how long. The maps are keyed by the text of a status.
pub mod Counts
pub mod Snapshot
use taskpulse.Prelude.{
  ℕ, ◌+◌, ◌-◌, ◌^◌, String, Bool, true, false, not, ◌&&◌, ◌||◌, Option, none, some, [], ◌∷◌, ltb,
  leb, ◌==◌, if◌then◌else◌, Assoc, lookup, insert,
}
use taskpulse.Result.{
  Error, Result, ok, err, Context, Exec, return, lift, ◌>>=◌, ◌>>◌, check, invalid_task_query,
}
use taskpulse.Task.{Task, status_text, is_queued, is_retrying}
use taskpulse.Store.Tasks.{MemoryTaskStore, other_workflow}
use taskpulse.Store.Query.{unknown_status, other_status}

pub record TaskStatsFilter : Type 0 where
  pub workflow : String
  pub status : String

unfoldable pub validate_filter : TaskStatsFilter → Result (Unit {0})
validate_filter f = if unknown_status f.status then err invalid_task_query else ok tt

pub record TaskStatsSnapshot : Type 0 where
  pub status_counts : Assoc ℕ
  pub available_counts : Assoc ℕ
  pub oldest_available_age : Assoc ℕ

abbrev pub new_task_stats_snapshot : TaskStatsSnapshot
new_task_stats_snapshot = record {
  status_counts = [];
  available_counts = [];
  oldest_available_age = [];
}

unfoldable pub is_available_task : Task → ℕ → Bool
is_available_task t now =
    if not (is_queued t.status) && not (is_retrying t.status)
    then false
    else not (ltb now t.available_at)

-- A missing key reads as 0.
abbrev pub value_at : String → Assoc ℕ → ℕ
value_at k m = elim (lookup k m) [ none ↦ 0 | some n ↦ n ]

-- `m[k]++`
abbrev pub incremented : String → Assoc ℕ → Assoc ℕ
incremented k m = insert k (value_at k m + 1) m

-- `now.Sub(task.AvailableAt)` of an available task, which stops at the largest duration.
abbrev pub age_of : ℕ → Task → ℕ
age_of now t = if ltb (2 ^ 63 - 1) (now - t.available_at) then 2 ^ 63 - 1 else now - t.available_at

abbrev replaces : ℕ → Option ℕ → Bool
replaces age none = true
replaces age (some previous) = ltb previous age

-- The age is kept if it is the first of its status or larger than the previous one.
abbrev pub oldest : String → ℕ → Assoc ℕ → Assoc ℕ
oldest k age m = if replaces age (lookup k m) then insert k age m else m

unfoldable pub tally_one : ℕ → Task → TaskStatsSnapshot → TaskStatsSnapshot
unfolding is_available_task
tally_one now t snapshot =
    let k = status_text t.status in
    let counted : TaskStatsSnapshot = record snapshot {
      status_counts = incremented k snapshot.status_counts;
    } in
    if is_available_task t now
    then record counted {
      available_counts = incremented k snapshot.available_counts;
      oldest_available_age = oldest k (age_of now t) snapshot.oldest_available_age;
    }
    else counted

-- What the loop skips.
abbrev pub left_out : TaskStatsFilter → Task → Bool
left_out f t = other_workflow f.workflow t || other_status f.status t

unfoldable pub tally : TaskStatsFilter → ℕ → Assoc Task → TaskStatsSnapshot → TaskStatsSnapshot
unfolding tally_one
tally f now [] snapshot = snapshot
tally f now ((k, t) ∷ m) snapshot =
    tally f now m (if left_out f t then snapshot else tally_one now t snapshot)

-- `clock` is what `time.Now` gives where no time is asked for.
unfoldable pub snapshot_filtered_task_stats :
    Context → ℕ → ℕ → TaskStatsFilter → Exec MemoryTaskStore TaskStatsSnapshot
unfolding validate_filter tally
snapshot_filtered_task_stats ctx clock now f s =
    (do
      check ctx
      lift (validate_filter f)
      return (tally f (if now == 0 then clock else now) s.tasks new_task_stats_snapshot))
      s

unfoldable pub snapshot_task_stats : Context → ℕ → ℕ → Exec MemoryTaskStore TaskStatsSnapshot
unfolding snapshot_filtered_task_stats
snapshot_task_stats ctx clock now =
    snapshot_filtered_task_stats ctx clock now (record { workflow = ""; status = "" })
