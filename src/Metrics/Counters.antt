-- ===== src/Metrics/Counters.antt =====
-- internal/observability/metrics.go: what each counter says after a history of recordings.
use taskpulse.Prelude.{
  ℕ, suc, ◌+◌, ◌%◌, ◌≡◌, refl, String, Bool, true, false, List, [], ◌∷◌, inl, inr, arith, text_eq,
  text_eq_iff, if◌then◌else◌, Bool-cases, Assoc, lookup, lookup-insert, length, filter,
}
use taskpulse.Task.{status_text}
use taskpulse.Metrics.{
  PairKey, PairCounts, Metrics, FloatOperations, Recording, claim_attempt, claim_miss, task_claimed,
  task_released, task_completed, task_retried, lease_was_renewed, lease_was_lost,
  reaper_expired_failure, normalize_workflow, uint64_mod, value_or_zero, pair_eq, count_of, bump,
  pair_count, bump_pair, observe_execution_duration_locked, apply_recording, recorded, new_metrics,
}

-- A counter at its labels.
pub data Series : Type 0 where
  attempts misses claimed released renewals losses expirations : String → Series
  completed retried : PairKey → Series

-- The recordings that the series counts.
abbrev pub is_of : Series → Recording → Bool
is_of (attempts w) (claim_attempt v) = text_eq (normalize_workflow v) w
is_of (misses w) (claim_miss v) = text_eq (normalize_workflow v) w
is_of (claimed w) (task_claimed v) = text_eq v w
is_of (released w) (task_released v) = text_eq v w
is_of (renewals w) (lease_was_renewed v) = text_eq v w
is_of (losses w) (lease_was_lost v) = text_eq v w
is_of (expirations w) (reaper_expired_failure v) = text_eq v w
is_of (completed k) (task_completed v status d) = pair_eq (v, status_text status) k
is_of (retried k) (task_retried v code) = pair_eq (v, code) k
is_of _ _ = false

count_of-bump :
    (k j : String) (m : Assoc ℕ)
    → count_of j (bump k m)
      ≡ (if text_eq k j then (count_of j m + 1) % uint64_mod else count_of j m)
unfolding count_of bump
count_of-bump k j m =
    ground
      (arith, lookup-insert k j ((value_or_zero (lookup k m) + 1) % uint64_mod) m, text_eq_iff k j)

pair_eq_iff : (j k : PairKey) → pair_eq j k ≡ true → j ≡ k
pair_eq_iff (a, b) (c, d) h = ground (arith, text_eq_iff a c, text_eq_iff b d)

pair_eq_refl : (k : PairKey) → pair_eq k k ≡ true
pair_eq_refl (a, b) = ground (arith, text_eq_iff a a, text_eq_iff b b)

pair_eq_ne : (i j k : PairKey) → pair_eq i j ≡ true → pair_eq i k ≡ pair_eq j k
pair_eq_ne i j k h = rw (pair_eq_iff i j h)

pair_count-bump_pair :
    (k j : PairKey) (m : PairCounts)
    → pair_count j (bump_pair k m)
      ≡ (if pair_eq k j then (pair_count j m + 1) % uint64_mod else pair_count j m)
unfolding pair_count bump_pair
pair_count-bump_pair k j [] = ground arith
pair_count-bump_pair k j ((i, n) ∷ m) = elim (Bool-cases (pair_eq i k)) [
  | inl same ↦ rw (same, ← pair_eq_ne i k j same) (ground arith)
  | inr other ↦ rw other (elim (Bool-cases (pair_eq i j)) [
    | inl here ↦ rw here (elim (Bool-cases (pair_eq k j)) [
      | inl met ↦ ground (arith, pair_eq_iff i j here, pair_eq_iff k j met, pair_eq_refl k)
      | inr apart ↦ rw apart
    ])
    | inr there ↦ rw there (pair_count-bump_pair k j m)
  ])
]

module _ {Float : Type 0} where
  -- What the series says.
  abbrev pub reading : Series → Metrics Float → ℕ
  reading (attempts w) m = count_of w m.claim_attempts
  reading (misses w) m = count_of w m.claim_misses
  reading (claimed w) m = count_of w m.tasks_claimed
  reading (released w) m = count_of w m.tasks_released
  reading (renewals w) m = count_of w m.lease_renewed
  reading (losses w) m = count_of w m.lease_lost
  reading (expirations w) m = count_of w m.reaper_expired
  reading (completed k) m = pair_count k m.tasks_completed
  reading (retried k) m = pair_count k m.tasks_retried

module _ {Float : Type 0} (floats : FloatOperations Float) where
  reading-new : (c : Series) → reading c (new_metrics {Float = Float}) ≡ 0
  unfolding new_metrics count_of lookup pair_count
  reading-new (attempts w) = refl
  reading-new _ = refl

  reading-apply :
      (c : Series) (r : Recording) (m : Metrics Float)
      → reading c (apply_recording floats r m)
        ≡ (if is_of c r then (reading c m + 1) % uint64_mod else reading c m)
  unfolding apply_recording observe_execution_duration_locked
  reading-apply (attempts w) (claim_attempt v) m =
      count_of-bump (normalize_workflow v) w m.claim_attempts
  reading-apply (misses w) (claim_miss v) m = count_of-bump (normalize_workflow v) w m.claim_misses
  reading-apply (claimed w) (task_claimed v) m = count_of-bump v w m.tasks_claimed
  reading-apply (released w) (task_released v) m = count_of-bump v w m.tasks_released
  reading-apply (renewals w) (lease_was_renewed v) m = count_of-bump v w m.lease_renewed
  reading-apply (losses w) (lease_was_lost v) m = count_of-bump v w m.lease_lost
  reading-apply (expirations w) (reaper_expired_failure v) m = count_of-bump v w m.reaper_expired
  reading-apply (completed k) (task_completed v status d) m =
      pair_count-bump_pair (v, status_text status) k m.tasks_completed
  reading-apply (retried k) (task_retried v code) m =
      pair_count-bump_pair (v, code) k m.tasks_retried
  reading-apply _ _ m = refl

  next_count : (n x : ℕ) → x ≡ n % uint64_mod → (x + 1) % uint64_mod ≡ suc n % uint64_mod
  next_count n x h = omega arith

  -- After any history of recordings each counter says, at each of its labels, how many of the
  -- recordings were of that counter with these labels, modulo 2 ^ 64; claims of the empty workflow
  -- are counted as those of "all".
  pub reading-recorded :
      (c : Series) (rs : List Recording)
      → reading c (recorded floats rs) ≡ length (filter (is_of c) rs) % uint64_mod
  unfolding recorded
  reading-recorded c [] = reading-new c
  reading-recorded c (r ∷ rs) = elim (Bool-cases (is_of c r)) [
    | inl counted ↦
        rw (reading-apply c r (recorded floats rs), counted)
          (next_count (length (filter (is_of c) rs)) _ (reading-recorded c rs))
    | inr skipped ↦ rw (reading-apply c r (recorded floats rs), skipped) (reading-recorded c rs)
  ]
