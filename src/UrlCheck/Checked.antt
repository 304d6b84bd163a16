-- ===== src/UrlCheck/Checked.antt =====
-- internal/executor/urlcheck/executor.go: what `checkAll` gives, whatever its goroutines do.
use taskpulse.Prelude.{
  ℕ, ◌*◌, ◌≤◌, ◌≡◌, refl, sym, ap, ◌∙◌, subst, ◌⊎◌, inl, inr, String, true, false, some, List, ◌∷◌,
  ◌++◌, arith, ◌==◌, length, length-set, get_elem?, set, get_elem?-set_self, get_elem?-set_ne, All,
  Bool-cases, ℤ,
}
use native.Mathlib.Nat.{zero-add}
use taskpulse.UrlCheck.{
  CheckJob, Pool, Environment, new_with_concurrency, new_pool, worker_count, check, Step, take_job,
  write_item, Schedule, begin, then_step, IsDone,
}
use taskpulse.UrlCheck.Schedules.{
  holds, IsJob, holds-append, holds-jobs_from, jobs_from-IsJob, length-blank_items, there_too,
  All-split, load-new_pool, Schedule-load, never_stuck,
}

module _ (env : Environment) (urls : List String) where
  abbrev pub job_at : ℕ → String → CheckJob
  job_at k u = record { index = k; url = u }

  -- The URL is still to be checked, or has its result.
  abbrev IsAccounted : Pool → ℕ → String → Type 0
  IsAccounted p k u =
      (holds k p.jobs ≡ true)
      ⊎ ((holds k p.busy ≡ true) ⊎ (get_elem? p.items k ≡ some (check env (job_at k u))))

  record IsProgress (p : Pool) : Type 0 where
    sized : length p.items ≡ length urls
    waiting : All (IsJob 0 urls) p.jobs
    held : All (IsJob 0 urls) p.busy
    accounted : (k : ℕ) (u : String) → get_elem? urls k ≡ some u → IsAccounted p k u

  new_pool-IsProgress : IsProgress (new_pool urls)
  unfolding new_pool
  new_pool-IsProgress = record {
    sized = length-blank_items urls;
    waiting = jobs_from-IsJob 0 urls;
    held = tt;
    accounted = λ k u h. inl (rw (← zero-add k) (holds-jobs_from 0 k urls u h));
  }

  taken :
      (p : Pool) (j : CheckJob) (js : List CheckJob) (k : ℕ) (u : String)
      → p.jobs ≡ j ∷ js
      → IsAccounted p k u
      → IsAccounted (record p { jobs = js; busy = j ∷ p.busy }) k u
  taken p j js k u e (inr (inl h)) = inr (inl (ground arith))
  taken p j js k u e (inr (inr h)) = inr (inr h)
  taken p j js k u e (inl h) = elim (Bool-cases (j.index == k)) [
    | inl same ↦ inr (inl (rw same refl))
    | inr other ↦ inl (ground (arith, ap (holds k) e))
  ]

  wrote_other :
      (p : Pool) (before : List CheckJob) (j : CheckJob) (after : List CheckJob) (k : ℕ)
      (u : String)
      → p.busy ≡ before ++ (j ∷ after)
      → (j.index == k) ≡ false
      → IsAccounted p k u
      → IsAccounted
          (record p { busy = before ++ after; items = set p.items j.index (check env j) })
          k
          u
  wrote_other p before j after k u e other (inl h) = inl h
  wrote_other p before j after k u e other (inr (inl h)) = inr (
      inl (
        ground
          (arith, ap (holds k) e, holds-append k before (j ∷ after), holds-append k before after)))
  wrote_other p before j after k u e other (inr (inr h)) =
      inr (inr (get_elem?-set_ne p.items j.index k (check env j) (λ same. ground arith) ∙ h))

  wrote_same :
      (p : Pool) (j : CheckJob) (k : ℕ) (u : String)
      → length p.items ≡ length urls
      → IsJob 0 urls j
      → get_elem? urls k ≡ some u
      → j.index ≡ k
      → get_elem? (set p.items j.index (check env j)) k ≡ some (check env (job_at k u))
  wrote_same p j k u sized (d, at, there) h i =
      let (x, filled) = there_too urls p.items k u sized h in
      let same : d ≡ k = omega arith in
      let own : j.url ≡ u = cc (subst (λ n. get_elem? urls n ≡ some j.url) same there) in
      let whole : j ≡ job_at k u = cc in
      subst (λ y. get_elem? (set p.items y.index (check env y)) k ≡ some (check env (job_at k u)))
        (sym whole) (get_elem?-set_self p.items k (check env (job_at k u)) x filled)

  wrote :
      (p : Pool) (before : List CheckJob) (j : CheckJob) (after : List CheckJob) (k : ℕ)
      (u : String)
      → p.busy ≡ before ++ (j ∷ after)
      → length p.items ≡ length urls
      → IsJob 0 urls j
      → get_elem? urls k ≡ some u
      → IsAccounted p k u
      → IsAccounted
          (record p { busy = before ++ after; items = set p.items j.index (check env j) })
          k
          u
  wrote p before j after k u e sized job h old = elim (Bool-cases (j.index == k)) [
    | inl same ↦ inr (inr (wrote_same p j k u sized job h (ground arith)))
    | inr other ↦ wrote_other p before j after k u e other old
  ]

  Step-IsProgress : (workers : ℕ) {p q : Pool} → Step env workers p q → IsProgress p → IsProgress q
  Step-IsProgress workers {p} (take_job j js e free) g =
      let jobs = subst (All (IsJob 0 urls)) e g.waiting in
      record {
        sized = g.sized;
        waiting = jobs.1;
        held = (jobs.0, g.held);
        accounted = λ k u h. taken p j js k u e (g.accounted k u h);
      }
  Step-IsProgress workers {p} (write_item before j after e) g =
      let (job, rest) =
        All-split (IsJob 0 urls) before j after (subst (All (IsJob 0 urls)) e g.held) in
      record {
        sized = length-set p.items j.index (check env j) ∙ g.sized;
        waiting = g.waiting;
        held = rest;
        accounted = λ k u h. wrote p before j after k u e g.sized job h (g.accounted k u h);
      }

  Schedule-IsProgress :
      (workers : ℕ) {p q : Pool} {n : ℕ} → Schedule env workers p n q → IsProgress p → IsProgress q
  Schedule-IsProgress workers begin g = g
  Schedule-IsProgress workers (then_step s t) g =
      Step-IsProgress workers t (Schedule-IsProgress workers s g)

  -- Every URL has the result of its check, in its place.
  pub record IsChecked (p : Pool) : Type 0 where
    pub sized : length p.items ≡ length urls
    pub results :
        (k : ℕ) (u : String)
        → get_elem? urls k ≡ some u
        → get_elem? p.items k ≡ some (check env (job_at k u))

  done-IsChecked : (p : Pool) → IsDone env p → IsProgress p → IsChecked p
  done-IsChecked p (idle, free) g = record {
    sized = g.sized;
    results = λ k u h. settled k u (g.accounted k u h);
  }
    where
      settled :
          (k : ℕ) (u : String)
          → IsAccounted p k u
          → get_elem? p.items k ≡ some (check env (job_at k u))
      settled k u (inl h) = absurd (ground (arith, ap (holds k) idle))
      settled k u (inr (inl h)) = absurd (ground (arith, ap (holds k) free))
      settled k u (inr (inr h)) = h

  some_worker :
      (concurrency : ℤ) → 1 ≤ length urls → 1 ≤ worker_count (new_with_concurrency concurrency) urls
  unfolding new_with_concurrency
  some_worker concurrency h = ground arith

  -- However many goroutines are asked for, and in whatever order those that are started take the jobs
  -- and write their results: after `n` steps of a batch of at least one URL, `n` is at most twice the
  -- number of the URLs, and either a further step is possible; or all of them are done, after exactly
  -- twice as many steps as there are URLs, and each URL has the result of its own check in its own
  -- place.
  pub check_all_ends :
      (concurrency : ℤ) (n : ℕ) (p : Pool)
      → 1 ≤ length urls
      → Schedule env (worker_count (new_with_concurrency concurrency) urls) (new_pool urls) n p
      → (n ≤ 2 * length urls)
        × (((n ≡ 2 * length urls) × IsDone env p × IsChecked p)
            ⊎ ((q : Pool) × Step env (worker_count (new_with_concurrency concurrency) urls) p q))
  check_all_ends concurrency n p some_url s =
      let workers = worker_count (new_with_concurrency concurrency) urls in
      let spent = Schedule-load env workers s in
      let full = load-new_pool urls in
      (
        omega arith,
        elim (never_stuck env workers p (some_worker concurrency some_url)) [
          | inr more ↦ inr more
          | inl done ↦ inl (
            omega (arith, ap length done.0, ap length done.1),
            done,
            done-IsChecked p done (Schedule-IsProgress workers s new_pool-IsProgress),
          )
        ],
      )
