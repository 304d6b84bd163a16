-- ===== src/Metrics/Exposition.antt =====
-- internal/observability/metrics.go: `ServeHTTP`, as the list of the lines it prints. How `fmt` prints
-- a label or a number is left open, except for the name of a bucket.
use taskpulse.Prelude.{
  ℕ, ◌+◌, ◌%◌, String, Option, none, some, List, [], ◌∷◌, ◌++◌, map, Assoc, lookup, text_ltb,
  text_append, trim_right_of,
}
use taskpulse.Result.{Result, ok, err, Context}
use taskpulse.Task.{
  TaskStatus, status_text, queued, running, retrying, succeeded, partial, failed, canceled,
}
use taskpulse.Store.Sorting.{sort}
use taskpulse.Store.Tasks.{MemoryTaskStore}
use taskpulse.Store.Stats.{TaskStatsSnapshot, snapshot_task_stats, value_at}
use taskpulse.Metrics.{
  PairKey, PairCounts, Histogram, Metrics, FloatOperations, count_of, pair_count, uint64_mod,
}

pub data Value (Float : Type 0) : Type 0 where
  whole : ℕ → Value Float
  real : Float → Value Float

-- A comment of one of the two kinds, or a sample with its labels.
pub data Line (Float : Type 0) : Type 0 where
  help : String → String → Line Float
  type_of : String → String → Line Float
  sample : String → List (String × String) → Value Float → Line Float

abbrev pub task_statuses : List TaskStatus
task_statuses = queued ∷ running ∷ retrying ∷ succeeded ∷ partial ∷ failed ∷ canceled ∷ []

abbrev key_of : {V : Type 0} → String × V → String
key_of (k, v) = k

abbrev pair_of : PairKey × ℕ → PairKey
pair_of (k, n) = k

unfoldable pub sorted_string_keys : {V : Type 0} → Assoc V → List String
unfolding sort text_ltb
sorted_string_keys m = sort text_ltb (map key_of m)

-- `left := keys[i].workflow + "\x00" + keys[i].errorCode`
abbrev joined : PairKey → String
joined (a, b) = text_append a (text_append "\0" b)

unfoldable pub sorted_pair_keys : PairCounts → List PairKey
unfolding sort text_ltb
sorted_pair_keys m = sort (λ j k. text_ltb (joined j) (joined k)) (map pair_of m)

-- `two_decimals` is `fmt.Sprintf("%.2f", …)` of a bound.
unfoldable pub format_bucket : (ℕ → String) → ℕ → String
unfolding trim_right_of
format_bucket two_decimals bound = trim_right_of b'.' (trim_right_of b'0' (two_decimals bound))

module _ {Float : Type 0} (floats : FloatOperations Float) (two_decimals : ℕ → String) where
  open floats use {seconds}

  abbrev pub head_lines : String → String → String → List (Line Float)
  head_lines name text kind = help name text ∷ type_of name kind ∷ []

  unfoldable pub counter_lines : String → String → Assoc ℕ → List (Line Float)
  unfolding sorted_string_keys count_of
  counter_lines name text m =
      head_lines name text "counter"
      ++ map (λ w. sample name (("workflow", w) ∷ []) (whole (count_of w m))) (sorted_string_keys m)

  unfoldable pub pair_lines : String → String → String → PairCounts → List (Line Float)
  unfolding sorted_pair_keys pair_count
  pair_lines name text label m =
      head_lines name text "counter"
      ++ map (λ k. sample name (("workflow", k.0) ∷ (label, k.1) ∷ []) (whole (pair_count k m)))
          (sorted_pair_keys m)

  -- The loop over the bounds with its running total.
  unfoldable pub cumulative_lines : String → List ℕ → List ℕ → ℕ → List (Line Float)
  unfolding format_bucket
  cumulative_lines w [] ns total = []
  cumulative_lines w (bound ∷ bounds) [] total = []
  cumulative_lines w (bound ∷ bounds) (n ∷ ns) total =
      sample "taskpulse_task_execution_duration_seconds_bucket"
        (("workflow", w) ∷ ("le", format_bucket two_decimals bound) ∷ [])
        (whole ((total + n) % uint64_mod))
      ∷ cumulative_lines w bounds ns ((total + n) % uint64_mod)

  unfoldable pub histogram_lines : List ℕ → String → Histogram Float → List (Line Float)
  unfolding cumulative_lines
  histogram_lines bounds w h =
      cumulative_lines w bounds h.buckets 0
      ++ sample "taskpulse_task_execution_duration_seconds_bucket"
          (("workflow", w) ∷ ("le", "+Inf") ∷ []) (whole h.count)
        ∷ sample "taskpulse_task_execution_duration_seconds_sum" (("workflow", w) ∷ []) (real h.sum)
        ∷ sample "taskpulse_task_execution_duration_seconds_count" (("workflow", w) ∷ [])
            (whole h.count)
        ∷ []

  -- One workflow after another; a key of the map is in the map.
  unfoldable pub histograms_lines :
      List ℕ → Assoc (Histogram Float) → List String → List (Line Float)
  unfolding histogram_lines lookup
  histograms_lines bounds m [] = []
  histograms_lines bounds m (w ∷ ws) = elim (lookup w m) [
    | none ↦ histograms_lines bounds m ws
    | some h ↦ histogram_lines bounds w h ++ histograms_lines bounds m ws
  ]

  abbrev status_sample : String → Assoc ℕ → TaskStatus → Line Float
  status_sample name m status =
      sample name (("status", status_text status) ∷ []) (whole (value_at (status_text status) m))

  unfoldable pub write_task_stats : TaskStatsSnapshot → List (Line Float)
  write_task_stats snapshot =
      head_lines "taskpulse_tasks_current" "Current number of tasks by status." "gauge"
      ++ map (status_sample "taskpulse_tasks_current" snapshot.status_counts) task_statuses
      ++ head_lines "taskpulse_tasks_available_current"
          "Current number of queued or retrying tasks available for claim." "gauge"
      ++ map (status_sample "taskpulse_tasks_available_current" snapshot.available_counts)
          (queued ∷ retrying ∷ [])
      ++ head_lines "taskpulse_oldest_available_task_age_seconds"
          "Age of the oldest queued or retrying task available for claim." "gauge"
      ++ map
          (λ status.
            sample "taskpulse_oldest_available_task_age_seconds"
              (("status", status_text status) ∷ [])
              (real (seconds (value_at (status_text status) snapshot.oldest_available_age))))
          (queued ∷ retrying ∷ [])

  -- What is printed after the statistics of the tasks.
  unfoldable pub metrics_lines : Metrics Float → List (Line Float)
  unfolding counter_lines pair_lines histograms_lines sorted_string_keys
  metrics_lines m =
      counter_lines "taskpulse_claim_attempts_total"
        "Total task claim attempts by requested workflow." m.claim_attempts
      ++ counter_lines "taskpulse_claim_misses_total"
          "Total task claim attempts with no available task by requested workflow." m.claim_misses
      ++ counter_lines "taskpulse_tasks_claimed_total" "Total tasks claimed by workers."
          m.tasks_claimed
      ++ counter_lines "taskpulse_tasks_released_total"
          "Total running tasks returned to the queue by their Worker during graceful shutdown."
          m.tasks_released
      ++ pair_lines "taskpulse_tasks_completed_total" "Total tasks completed by terminal status."
          "status" m.tasks_completed
      ++ pair_lines "taskpulse_tasks_retried_total" "Total tasks scheduled for retry." "error_code"
          m.tasks_retried
      ++ counter_lines "taskpulse_lease_renewed_total" "Total successful lease renewals."
          m.lease_renewed
      ++ counter_lines "taskpulse_lease_lost_total" "Total lease loss events observed by workers."
          m.lease_lost
      ++ counter_lines "taskpulse_reaper_expired_failures_total"
          "Total expired tasks failed by the reaper." m.reaper_expired
      ++ head_lines "taskpulse_task_execution_duration_seconds"
          "Task execution duration in seconds." "histogram"
      ++ histograms_lines m.duration_buckets m.execution_hist (sorted_string_keys m.execution_hist)

  abbrev stats_lines : Option (Result TaskStatsSnapshot) → Result (List (Line Float))
  stats_lines none = ok []
  stats_lines (some (err e)) = err e
  stats_lines (some (ok snapshot)) = ok (write_task_stats snapshot)

  -- The snapshot of the store of the tasks, if there is one; `now` is `time.Now()`.
  abbrev snapshot_of : Context → ℕ → Option MemoryTaskStore → Option (Result TaskStatsSnapshot)
  snapshot_of ctx now none = none
  snapshot_of ctx now (some s) = some (snapshot_task_stats ctx now now s).0

  -- An error is answered with status 500.
  unfoldable pub serve_metrics :
      Context → ℕ → Option MemoryTaskStore → Metrics Float → Result (List (Line Float))
  unfolding write_task_stats metrics_lines snapshot_task_stats
  serve_metrics ctx now store m = elim (stats_lines (snapshot_of ctx now store)) [
    | err e ↦ err e
    | ok lines ↦ ok (lines ++ metrics_lines m)
  ]
