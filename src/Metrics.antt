-- ===== src/Metrics.antt =====
-- internal/observability/metrics.go: the counters, and the histogram of execution times. Counters are
-- uint64 and wrap. The bounds of the histogram and a duration are nanoseconds: at these bounds a
-- number of seconds compares as the number of nanoseconds it comes from. The sum is a floating point
-- number, whose type, `Seconds()` and `+` are parameters.
pub mod Exposition
pub mod Counters
pub mod Histograms
pub mod Served
use taskpulse.Prelude.{
  ℕ, ◌+◌, ◌%◌, ◌^◌, String, Bool, true, false, ◌&&◌, Option, none, some, List, [], ◌∷◌, leb,
  is_empty, text_eq, if◌then◌else◌, Assoc, lookup, insert,
}
use taskpulse.Task.{TaskStatus, status_text}

abbrev pub uint64_mod : ℕ
uint64_mod = 2 ^ 64

-- `completionKey` and `retryKey`: a workflow, and the text of a status or an error's code.
abbrev pub PairKey : Type 0
PairKey = String × String

abbrev pub PairCounts : Type 0
PairCounts = List (PairKey × ℕ)

abbrev pub pair_eq : PairKey → PairKey → Bool
pair_eq (a, b) (c, d) = text_eq a c && text_eq b d

abbrev pub value_or_zero : Option ℕ → ℕ
value_or_zero none = 0
value_or_zero (some n) = n

-- `m[k]`
unfoldable pub count_of : String → Assoc ℕ → ℕ
unfolding lookup
count_of k m = value_or_zero (lookup k m)

unfoldable pub pair_count : PairKey → PairCounts → ℕ
pair_count k [] = 0
pair_count k ((j, n) ∷ m) = if pair_eq j k then n else pair_count k m

-- `m[k]++`
unfoldable pub bump : String → Assoc ℕ → Assoc ℕ
unfolding count_of insert
bump k m = insert k ((count_of k m + 1) % uint64_mod) m

unfoldable pub bump_pair : PairKey → PairCounts → PairCounts
bump_pair k [] = (k, 1) ∷ []
bump_pair k ((j, n) ∷ m) =
    if pair_eq j k then (j, (n + 1) % uint64_mod) ∷ m else (j, n) ∷ bump_pair k m

pub record Histogram (Float : Type 0) : Type 0 where
  pub buckets : List ℕ
  pub sum : Float
  pub count : ℕ

pub record Metrics (Float : Type 0) : Type 0 where
  pub claim_attempts : Assoc ℕ
  pub claim_misses : Assoc ℕ
  pub tasks_claimed : Assoc ℕ
  pub tasks_released : Assoc ℕ
  pub tasks_completed : PairCounts
  pub tasks_retried : PairCounts
  pub lease_renewed : Assoc ℕ
  pub lease_lost : Assoc ℕ
  pub reaper_expired : Assoc ℕ
  pub execution_hist : Assoc (Histogram Float)
  pub duration_buckets : List ℕ

-- 0.01, 0.05, 0.1, 0.25, 0.5, 1, 2.5, 5, 10 and 30 seconds.
abbrev pub default_duration_buckets : List ℕ
default_duration_buckets =
    10_000_000 ∷ 50_000_000 ∷ 100_000_000 ∷ 250_000_000 ∷ 500_000_000 ∷ 1_000_000_000
    ∷ 2_500_000_000 ∷ 5_000_000_000 ∷ 10_000_000_000 ∷ 30_000_000_000 ∷ []

unfoldable pub new_metrics : {Float : Type 0} → Metrics Float
new_metrics = record {
  claim_attempts = [];
  claim_misses = [];
  tasks_claimed = [];
  tasks_released = [];
  tasks_completed = [];
  tasks_retried = [];
  lease_renewed = [];
  lease_lost = [];
  reaper_expired = [];
  execution_hist = [];
  duration_buckets = default_duration_buckets;
}

abbrev pub normalize_workflow : String → String
normalize_workflow workflow = if is_empty workflow then "all" else workflow

-- The loop over the bounds: the first one that the duration does not exceed gets it.
unfoldable pub observe_bucket : ℕ → List ℕ → List ℕ → List ℕ
observe_bucket d [] buckets = buckets
observe_bucket d (bound ∷ bounds) [] = []
observe_bucket d (bound ∷ bounds) (n ∷ ns) =
    if leb d bound then (n + 1) % uint64_mod ∷ ns else n ∷ observe_bucket d bounds ns

-- `make([]uint64, len(bounds))`
unfoldable pub zero_buckets : List ℕ → List ℕ
zero_buckets [] = []
zero_buckets (bound ∷ bounds) = 0 ∷ zero_buckets bounds

pub record FloatOperations (Float : Type 0) : Type 0 where
  pub zero_float : Float
  pub plus : Float → Float → Float
  -- `duration.Seconds()`
  pub seconds : ℕ → Float

-- What a method of `Metrics` records. A duration is never negative (`taskElapsed`).
pub data Recording : Type 0 where
  claim_attempt claim_miss task_claimed task_released : String → Recording
  task_completed : String → TaskStatus → ℕ → Recording
  task_retried : String → String → Recording
  lease_was_renewed lease_was_lost reaper_expired_failure : String → Recording

module _ {Float : Type 0} (floats : FloatOperations Float) where
  open floats use {zero_float, plus, seconds}

  abbrev pub new_histogram : List ℕ → Option (Histogram Float) → Histogram Float
  new_histogram bounds none = record { buckets = zero_buckets bounds; sum = zero_float; count = 0 }
  new_histogram bounds (some h) = h

  abbrev pub observed : ℕ → List ℕ → Histogram Float → Histogram Float
  observed d bounds h = record {
    buckets = observe_bucket d bounds h.buckets;
    sum = plus h.sum (seconds d);
    count = (h.count + 1) % uint64_mod;
  }

  unfoldable pub observe_execution_duration_locked : String → ℕ → Metrics Float → Metrics Float
  unfolding observe_bucket zero_buckets
  observe_execution_duration_locked workflow d m = record m {
    execution_hist =
        insert workflow
          (observed d m.duration_buckets
            (new_histogram m.duration_buckets (lookup workflow m.execution_hist)))
          m.execution_hist;
  }

  -- The nine `Record` methods.
  unfoldable pub apply_recording : Recording → Metrics Float → Metrics Float
  unfolding bump bump_pair observe_execution_duration_locked
  apply_recording (claim_attempt workflow) m = record m {
    claim_attempts = bump (normalize_workflow workflow) m.claim_attempts;
  }
  apply_recording (claim_miss workflow) m = record m {
    claim_misses = bump (normalize_workflow workflow) m.claim_misses;
  }
  apply_recording (task_claimed workflow) m = record m {
    tasks_claimed = bump workflow m.tasks_claimed;
  }
  apply_recording (task_released workflow) m = record m {
    tasks_released = bump workflow m.tasks_released;
  }
  apply_recording (task_completed workflow status d) m =
      observe_execution_duration_locked workflow d
        (record m { tasks_completed = bump_pair (workflow, status_text status) m.tasks_completed })
  apply_recording (task_retried workflow code) m = record m {
    tasks_retried = bump_pair (workflow, code) m.tasks_retried;
  }
  apply_recording (lease_was_renewed workflow) m = record m {
    lease_renewed = bump workflow m.lease_renewed;
  }
  apply_recording (lease_was_lost workflow) m = record m { lease_lost = bump workflow m.lease_lost }
  apply_recording (reaper_expired_failure workflow) m = record m {
    reaper_expired = bump workflow m.reaper_expired;
  }

  -- The metrics after a history of recordings, the last one first.
  unfoldable pub recorded : List Recording → Metrics Float
  unfolding apply_recording new_metrics
  recorded [] = new_metrics
  recorded (r ∷ rs) = apply_recording r (recorded rs)
