-- ===== src/Metrics/Served.antt =====
-- internal/observability/metrics.go: what `ServeHTTP` prints of the histogram of a workflow.
use taskpulse.Prelude.{
  ℕ, ◌+◌, ◌%◌, ◌≡◌, ◌≢◌, refl, ap, subst, String, Option, none, some, List, [], ◌∷◌, ◌++◌, map,
  lookup, length,
}
use taskpulse.Metrics.{
  Histogram, FloatOperations, Recording, uint64_mod, default_duration_buckets, recorded,
}
use taskpulse.Metrics.Exposition.{
  Line, sample, whole, real, format_bucket, cumulative_lines, histogram_lines,
}
use taskpulse.Metrics.Histograms.{
  totals, within, durations_of, sum_of, IsHistogram, IsTallied, recorded-IsTallied,
}

module _ {Float : Type 0} (floats : FloatOperations Float) (two_decimals : ℕ → String) where
  abbrev bucket_line : String → (ℕ → ℕ) → ℕ → Line Float
  bucket_line w f bound =
      sample "taskpulse_task_execution_duration_seconds_bucket"
        (("workflow", w) ∷ ("le", format_bucket two_decimals bound) ∷ []) (whole (f bound))

  -- The lines of a workflow with these durations, the last one first.
  abbrev pub expected_lines : String → List ℕ → List (Line Float)
  expected_lines w ds =
      map (bucket_line w (λ bound. within ds bound % uint64_mod)) default_duration_buckets
      ++ sample "taskpulse_task_execution_duration_seconds_bucket"
          (("workflow", w) ∷ ("le", "+Inf") ∷ []) (whole (length ds % uint64_mod))
        ∷ sample "taskpulse_task_execution_duration_seconds_sum" (("workflow", w) ∷ [])
            (real (sum_of floats ds))
        ∷ sample "taskpulse_task_execution_duration_seconds_count" (("workflow", w) ∷ [])
            (whole (length ds % uint64_mod))
        ∷ []

  lines-eq-map :
      (w : String) (f : ℕ → ℕ) (bounds ns : List ℕ) (total : ℕ)
      → totals total ns ≡ map f bounds
      → cumulative_lines floats two_decimals w bounds ns total ≡ map (bucket_line w f) bounds
  unfolding cumulative_lines
  lines-eq-map w f [] ns total h = refl
  lines-eq-map w f (b ∷ bounds) [] total h = cc
  lines-eq-map w f (b ∷ bounds) (n ∷ ns) total h =
      let here : (total + n) % uint64_mod ≡ f b = cc in
      let rest : totals ((total + n) % uint64_mod) ns ≡ map f bounds = cc in
      rw here (
        ap (λ l. bucket_line w f b ∷ l)
          (lines-eq-map w f bounds ns (f b) (subst (λ t. totals t ns ≡ map f bounds) here rest)))

  lines_of_histogram :
      (w : String) (ds : List ℕ) (h : Histogram Float)
      → IsHistogram floats ds default_duration_buckets h
      → histogram_lines floats two_decimals default_duration_buckets w h ≡ expected_lines w ds
  unfolding histogram_lines
  lines_of_histogram w ds h k = rw (
    k.counted,
    k.summed,
    lines-eq-map w (λ bound. within ds bound % uint64_mod) default_duration_buckets h.buckets 0
        k.cumulative,
  )

  -- What is printed of a histogram, and of none.
  abbrev pub IsServed : String → List ℕ → Option (Histogram Float) → Type 0
  IsServed w ds none = ds ≡ []
  IsServed w ds (some h) =
      (ds ≢ [])
      × (histogram_lines floats two_decimals default_duration_buckets w h ≡ expected_lines w ds)

  tallied-IsServed :
      (w : String) (ds : List ℕ) (o : Option (Histogram Float))
      → IsTallied floats ds default_duration_buckets o
      → IsServed w ds o
  tallied-IsServed w ds none e = e
  tallied-IsServed w ds (some h) k = (k.0, lines_of_histogram w ds h k.1)

  -- After any history of recordings, a workflow has a histogram exactly if a task of it completed,
  -- and what is then printed of it is: under each bound, how many of its tasks took no longer than
  -- that bound; under +Inf and as the count, how many tasks of it completed (all modulo 2 ^ 64); and
  -- the sum of their seconds.
  pub recorded-IsServed :
      (w : String) (rs : List Recording)
      → IsServed w (durations_of w rs) (lookup w (recorded floats rs).execution_hist)
  recorded-IsServed w rs = tallied-IsServed w (durations_of w rs) _ (recorded-IsTallied floats w rs)
