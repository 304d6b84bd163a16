-- ===== src/Store/Stats/Snapshot.antt =====
-- What a snapshot of internal/store/task_stats_store.go says.
use mathlib.Core.List.{Memᴰ}
use taskpulse.Prelude.{
  ℕ, String, true, false, none, some, [], ◌∷◌, ◌≡◌, refl, ap, inl, inr, ◌⊎◌, subst, ◌==◌,
  if◌then◌else◌, Assoc, lookup, mem-of_lookup, lookup-of_mem, text_eq_iff, arith, Bool-cases,
}
use taskpulse.Result.{ok}
use taskpulse.Task.{Task, status_text}
use taskpulse.Store.Tasks.{MemoryTaskStore}
use taskpulse.Store.Tasks.Claiming.{IsKeyed}
use taskpulse.Store.Stats.{
  TaskStatsFilter, TaskStatsSnapshot, new_task_stats_snapshot, validate_filter, is_available_task,
  value_at, oldest, age_of, tally_one, left_out, tally, snapshot_filtered_task_stats,
}
use taskpulse.Store.Stats.Counts.{
  count_tasks, of_status, available_of, tally-status, tally-available, IsAtLeast, oldest-kept,
  oldest-new, oldest-source,
}

module _ (f : TaskStatsFilter) (now : ℕ) (st : String) where
  tally_one-kept :
      (a : ℕ) (t : Task) (snapshot : TaskStatsSnapshot)
      → IsAtLeast st a snapshot.oldest_available_age
      → IsAtLeast st a (tally_one now t snapshot).oldest_available_age
  unfolding tally_one
  tally_one-kept a t snapshot h = elim (Bool-cases (is_available_task t now)) [
    | inl e ↦ rw e (oldest-kept (status_text t.status) st a (age_of now t) _ h)
    | inr e ↦ rw e h
  ]

  tally-kept :
      (a : ℕ) (m : Assoc Task) (snapshot : TaskStatsSnapshot)
      → IsAtLeast st a snapshot.oldest_available_age
      → IsAtLeast st a (tally f now m snapshot).oldest_available_age
  unfolding tally
  tally-kept a [] snapshot h = h
  tally-kept a ((k, t) ∷ m) snapshot h = elim (Bool-cases (left_out f t)) [
    | inl e ↦ rw (e, tally) (tally-kept a m snapshot h)
    | inr e ↦
        rw (e, tally) (tally-kept a m (tally_one now t snapshot) (tally_one-kept a t snapshot h))
  ]

  tally_one-new :
      (t : Task) (snapshot : TaskStatsSnapshot)
      → available_of f now st t ≡ true
      → IsAtLeast st (age_of now t) (tally_one now t snapshot).oldest_available_age
  unfolding tally_one
  tally_one-new t snapshot h =
      let is_open : is_available_task t now ≡ true = ground (arith, h) in
      let key : status_text t.status ≡ st =
        ground (arith, h, text_eq_iff (status_text t.status) st) in
      rw is_open (
        subst
          (λ k.
            IsAtLeast k (age_of now t)
              (oldest (status_text t.status) (age_of now t) snapshot.oldest_available_age))
          key (oldest-new (status_text t.status) (age_of now t) snapshot.oldest_available_age))

  -- The age of every available task is covered.
  tally-covers :
      (m : Assoc Task) (snapshot : TaskStatsSnapshot) (k : String) (t : Task)
      → Memᴰ (k, t) m
      → available_of f now st t ≡ true
      → IsAtLeast st (age_of now t) (tally f now m snapshot).oldest_available_age
  unfolding tally
  tally-covers [] snapshot k t there h = elim there [ ]
  tally-covers ((j, u) ∷ m) snapshot k t (Memᴰ.head e) h =
      let same : t ≡ u = ap (λ p. p.1) e in
      let counted : left_out f t ≡ false = ground (arith, h) in
      rw (subst (λ v. left_out f v ≡ false) same counted, tally)
        (tally-kept (age_of now t) m (tally_one now u snapshot) (
          subst (λ v. IsAtLeast st (age_of now t) (tally_one now v snapshot).oldest_available_age)
            same (tally_one-new t snapshot h)))
  tally-covers ((j, u) ∷ m) snapshot k t (Memᴰ.tail there) h = elim (Bool-cases (left_out f u)) [
    | inl e ↦ rw (e, tally) (tally-covers m snapshot k t there h)
    | inr e ↦ rw (e, tally) (tally-covers m (tally_one now u snapshot) k t there h)
  ]

  IsSomeAge : Assoc Task → ℕ → Type 0
  IsSomeAge m b =
      (k : String) × (t : Task) × Memᴰ (k, t) m
      × (available_of f now st t ≡ true)
      × (age_of now t ≡ b)

  -- Every age that is kept is the age of an available task.
  tally-source :
      (m : Assoc Task) (snapshot : TaskStatsSnapshot) (b : ℕ)
      → lookup st (tally f now m snapshot).oldest_available_age ≡ some b
      → (lookup st snapshot.oldest_available_age ≡ some b) ⊎ IsSomeAge m b
  unfolding tally IsSomeAge tally_one
  tally-source [] snapshot b h = inl h
  tally-source ((k, t) ∷ m) snapshot b h = elim (Bool-cases (left_out f t)) [
    | inl e ↦ elim (tally-source m snapshot b (rw (e, tally) at h)) [
      | inl before ↦ inl before
      | inr (j, u, there, open_u, age) ↦ inr (j, u, Memᴰ.tail there, open_u, age)
    ]
    | inr e ↦ elim (tally-source m (tally_one now t snapshot) b (rw (e, tally) at h)) [
      | inr (j, u, there, open_u, age) ↦ inr (j, u, Memᴰ.tail there, open_u, age)
      | inl before ↦ elim (Bool-cases (is_available_task t now)) [
        | inr g ↦ inl (rw g at before)
        | inl g ↦
            elim (oldest-source (status_text t.status) st (age_of now t) b _ (rw g at before)) [
              | inl earlier ↦ inl earlier
              | inr (key, age) ↦ inr (
                k,
                t,
                Memᴰ.head refl,
                ground (arith, e, g, key, text_eq_iff (status_text t.status) st),
                age,
              )
            ]
      ]
    ]
  ]

-- The counts and the oldest age of a status, over all tasks of the filter.
pub record IsStatistics (f : TaskStatsFilter) (now : ℕ) (m : Assoc Task)
    (snapshot : TaskStatsSnapshot) : Type 0 where
  pub counted : (st : String) → value_at st snapshot.status_counts ≡ count_tasks (of_status f st) m
  pub available :
      (st : String) → value_at st snapshot.available_counts ≡ count_tasks (available_of f now st) m
  pub covered :
      (st k : String) (t : Task)
      → lookup k m ≡ some t
      → available_of f now st t ≡ true
      → IsAtLeast st (age_of now t) snapshot.oldest_available_age
  pub attained :
      (st : String) (b : ℕ)
      → lookup st snapshot.oldest_available_age ≡ some b
      → (k : String) × (t : Task) × (lookup k m ≡ some t)
        × (available_of f now st t ≡ true)
        × (age_of now t ≡ b)

-- A snapshot changes nothing. For every status it counts exactly the tasks of the filter that have
-- it, and exactly those of them that are available at the time asked for, which is the clock's
-- where none is asked for; the age that it tells is the largest one among the available tasks.
pub snapshot-IsStatistics :
    (clock now : ℕ) (f : TaskStatsFilter) (s : MemoryTaskStore)
    → IsKeyed s.tasks
    → validate_filter f ≡ ok tt
    → (snapshot : TaskStatsSnapshot) × (snapshot_filtered_task_stats none clock now f s
        ≡ (ok snapshot, s))
      × IsStatistics f (if now == 0 then clock else now) s.tasks snapshot
unfolding snapshot_filtered_task_stats IsSomeAge lookup
snapshot-IsStatistics clock now f s h valid =
    let at = if now == 0 then clock else now in
    (
      tally f at s.tasks new_task_stats_snapshot,
      rw valid refl,
      record {
        counted = λ st. omega (arith, tally-status f at st s.tasks new_task_stats_snapshot);
        available = λ st. omega (arith, tally-available f at st s.tasks new_task_stats_snapshot);
        covered = λ st k t found is_open.
            tally-covers f at st s.tasks new_task_stats_snapshot k t
              (mem-of_lookup k t s.tasks found) is_open;
        attained = λ st b found.
            elim (tally-source f at st s.tasks new_task_stats_snapshot b found) [
              | inl never ↦ cc
              | inr (k, t, there, is_open, age) ↦
                  (k, t, lookup-of_mem k t s.tasks h.distinct there, is_open, age)
            ];
      },
    )
