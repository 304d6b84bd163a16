-- ===== src/Store/Stats/Counts.antt =====
-- The counts and the ages in a snapshot of internal/store/task_stats_store.go.
use taskpulse.Prelude.{
  ℕ, ◌+◌, ◌≤◌, String, Bool, not, ◌&&◌, some, [], ◌∷◌, ◌≡◌, refl, inl, inr, ◌⊎◌, ltb, if◌then◌else◌,
  Assoc, lookup, insert, lookup-insert, lookup-insert_self, text_eq, text_eq_iff, arith, Bool-cases,
  Option-cases,
}
use taskpulse.Task.{Task, status_text}
use taskpulse.Store.Stats.{
  TaskStatsFilter, TaskStatsSnapshot, is_available_task, value_at, incremented, oldest, tally_one,
  left_out, tally,
}

-- The number of stored tasks that pass a test.
abbrev pub count_tasks : (Task → Bool) → Assoc Task → ℕ
count_tasks q [] = 0
count_tasks q ((k, t) ∷ m) = if q t then count_tasks q m + 1 else count_tasks q m

abbrev pub of_status : TaskStatsFilter → String → Task → Bool
of_status f st t = not (left_out f t) && text_eq (status_text t.status) st

abbrev pub available_of : TaskStatsFilter → ℕ → String → Task → Bool
available_of f now st t = of_status f st t && is_available_task t now

incremented_lem :
    (k j : String) (m : Assoc ℕ)
    → value_at j (incremented k m) ≡ (if text_eq k j then value_at j m + 1 else value_at j m)
incremented_lem k j m = ground (arith, lookup-insert k j (value_at k m + 1) m, text_eq_iff k j)

abbrev added_if : Bool → ℕ → ℕ
added_if b n = if b then n + 1 else n

tally_one-status :
    (now : ℕ) (t : Task) (st : String) (snapshot : TaskStatsSnapshot)
    → value_at st (tally_one now t snapshot).status_counts
      ≡ added_if (text_eq (status_text t.status) st) (value_at st snapshot.status_counts)
unfolding tally_one
tally_one-status now t st snapshot = elim (Bool-cases (is_available_task t now)) [
  | inl e ↦ rw e (incremented_lem (status_text t.status) st snapshot.status_counts)
  | inr e ↦ rw e (incremented_lem (status_text t.status) st snapshot.status_counts)
]

tally_one-available :
    (now : ℕ) (t : Task) (st : String) (snapshot : TaskStatsSnapshot)
    → value_at st (tally_one now t snapshot).available_counts
      ≡ added_if
          (text_eq (status_text t.status) st && is_available_task t now)
          (value_at st snapshot.available_counts)
unfolding tally_one
tally_one-available now t st snapshot = elim (Bool-cases (is_available_task t now)) [
  | inl e ↦
      rw e (ground (arith, incremented_lem (status_text t.status) st snapshot.available_counts))
  | inr e ↦ rw e (ground arith)
]

module _ (f : TaskStatsFilter) (now : ℕ) (st : String) where
  pub tally-status :
      (m : Assoc Task) (snapshot : TaskStatsSnapshot)
      → value_at st (tally f now m snapshot).status_counts
        ≡ value_at st snapshot.status_counts + count_tasks (of_status f st) m
  unfolding tally
  tally-status [] snapshot = omega arith
  tally-status ((k, t) ∷ m) snapshot = elim (Bool-cases (left_out f t)) [
    | inl e ↦ ground (arith, e, tally-status m snapshot)
    | inr e ↦
        ground
          (arith, e, tally-status m (tally_one now t snapshot), tally_one-status now t st snapshot)
  ]

  pub tally-available :
      (m : Assoc Task) (snapshot : TaskStatsSnapshot)
      → value_at st (tally f now m snapshot).available_counts
        ≡ value_at st snapshot.available_counts + count_tasks (available_of f now st) m
  unfolding tally
  tally-available [] snapshot = omega arith
  tally-available ((k, t) ∷ m) snapshot = elim (Bool-cases (left_out f t)) [
    | inl e ↦ ground (arith, e, tally-available m snapshot)
    | inr e ↦ ground (
      arith,
      e,
      tally-available m (tally_one now t snapshot),
      tally_one-available now t st snapshot,
    )
  ]

-- An age of at least `a` is kept for the status.
abbrev pub IsAtLeast : String → ℕ → Assoc ℕ → Type 0
IsAtLeast st a ages = (b : ℕ) × (lookup st ages ≡ some b) × (a ≤ b)

-- The age is not needed, or it is written and is larger than the one before.
oldest-cases :
    (k : String) (age : ℕ) (ages : Assoc ℕ)
    → ((oldest k age ages ≡ ages) × IsAtLeast k age ages)
      ⊎ ((oldest k age ages ≡ insert k age ages) × ((p : ℕ) → lookup k ages ≡ some p → p ≤ age))
oldest-cases k age ages = elim (Option-cases (lookup k ages)) [
  | inl e ↦ inr (rw e refl, λ p found. absurd (ground arith))
  | inr (p, e) ↦ elim (Bool-cases (ltb p age)) [
    | inl larger ↦ inr (rw e (rw larger refl), λ q found. ground (arith, larger))
    | inr smaller ↦ inl (rw e (rw smaller refl), (p, e, ground (arith, smaller)))
  ]
]

pub oldest-kept :
    (k st : String) (a age : ℕ) (ages : Assoc ℕ)
    → IsAtLeast st a ages
    → IsAtLeast st a (oldest k age ages)
oldest-kept k st a age ages (b, found, le) = elim (oldest-cases k age ages) [
  | inl (same, h) ↦ rw same (b, found, le)
  | inr (written, h) ↦ elim (Bool-cases (text_eq k st)) [
    | inl e ↦
        let key : k ≡ st = ground (arith, text_eq_iff k st) in
        rw written (
          age,
          ground (arith, e, lookup-insert k st age ages),
          omega (arith, le, h b (rw key found)),
        )
    | inr e ↦ rw written (b, ground (arith, e, lookup-insert k st age ages), le)
  ]
]

pub oldest-new : (k : String) (age : ℕ) (ages : Assoc ℕ) → IsAtLeast k age (oldest k age ages)
oldest-new k age ages = elim (oldest-cases k age ages) [
  | inl (same, h) ↦ rw same h
  | inr (written, h) ↦ rw written (age, lookup-insert_self k age ages, omega arith)
]

pub oldest-source :
    (k st : String) (age b : ℕ) (ages : Assoc ℕ)
    → lookup st (oldest k age ages) ≡ some b
    → (lookup st ages ≡ some b) ⊎ ((k ≡ st) × (age ≡ b))
oldest-source k st age b ages found = elim (oldest-cases k age ages) [
  | inl (same, h) ↦ inl (rw same at found)
  | inr (written, h) ↦
      let after : lookup st (insert k age ages) ≡ some b = rw written at found in
      elim (Bool-cases (text_eq k st)) [
        | inl e ↦ inr (
          ground (arith, e, text_eq_iff k st),
          ground (arith, e, after, lookup-insert k st age ages),
        )
        | inr e ↦ inl (ground (arith, e, after, lookup-insert k st age ages))
      ]
]
