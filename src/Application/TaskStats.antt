-- ===== src/Application/TaskStats.antt =====
-- internal/application/task_service.go: `GetTaskStats`. The store is the in-memory one, which is a
-- `FilteredTaskStatsStore`. `age.Seconds()` is a parameter, since it is a floating point number.
use taskpulse.Prelude.{ℕ, String, Assoc, not, text_eq, trim_space, map}
use taskpulse.Result.{
  Result, ok, err, Context, Exec, return, lift, ◌>>=◌, ◌>>◌, fail_if, invalid_input,
}
use taskpulse.Store.Both.{Stores, on_tasks}
use taskpulse.Store.Stats.{TaskStatsFilter, validate_filter, snapshot_filtered_task_stats}

pub record TaskStatsInput : Type 0 where
  pub workflow : String
  pub status : String

pub record TaskStatsResult (Seconds : Type 0) : Type 0 where
  pub workflow : String
  pub status : String
  pub status_counts : Assoc ℕ
  pub available_counts : Assoc ℕ
  pub oldest_available_age : Assoc Seconds

-- `fmt.Errorf("%w: invalid task stats filter", ErrInvalidInput)`
abbrev checked_filter : TaskStatsFilter → Result (Unit {0})
checked_filter f = elim (validate_filter f) [
  | err e ↦ err (invalid_input "invalid task stats filter")
  | ok u ↦ ok tt
]

module _ {Seconds : Type 0} (seconds : ℕ → Seconds) where
  unfoldable pub get_task_stats :
      Context → ℕ → ℕ → TaskStatsInput → Exec Stores (TaskStatsResult Seconds)
  unfolding snapshot_filtered_task_stats
  get_task_stats ctx clock now i = do
    let f : TaskStatsFilter = record { workflow = i.workflow; status = i.status }
    fail_if (not (text_eq (trim_space i.workflow) i.workflow))
        (invalid_input "workflow cannot have surrounding whitespace")
    lift (checked_filter f)
    snapshot ← on_tasks (snapshot_filtered_task_stats ctx clock now f)
    return (record {
      workflow = i.workflow;
      status = i.status;
      status_counts = snapshot.status_counts;
      available_counts = snapshot.available_counts;
      oldest_available_age = map (λ (k, age). (k, seconds age)) snapshot.oldest_available_age;
    })
