-- ===== src/Metrics/Histograms.antt =====
-- internal/observability/metrics.go: what the histogram of a workflow says after a history of
-- recordings.
use taskpulse.Prelude.{
  ℕ, suc, ◌+◌, ◌%◌, ◌≤◌, ◌≡◌, ◌≢◌, refl, sym, ap, ◌∙◌, subst, String, Option, none, some, List, [],
  ◌∷◌, inl, inr, arith, text_eq, text_eq_iff, leb, if◌then◌else◌, Bool-cases, lookup, lookup-insert,
  length, filter, map, All,
}
use mathlib.Core.Path.{fun_ext}
use taskpulse.Task.{status_text}
use taskpulse.Metrics.{
  Histogram, Metrics, FloatOperations, Recording, claim_attempt, task_completed, uint64_mod,
  default_duration_buckets, new_metrics, observe_bucket, zero_buckets, bump_pair, new_histogram,
  observed, observe_execution_duration_locked, apply_recording, recorded,
}

-- The running totals of the loop that prints the buckets.
abbrev pub totals : ℕ → List ℕ → List ℕ
totals total [] = []
totals total (n ∷ ns) = (total + n) % uint64_mod ∷ totals ((total + n) % uint64_mod) ns

abbrev pub Ascending : List ℕ → Type 0
Ascending [] = Unit {0}
Ascending (b ∷ bs) = All (λ c. b ≤ c) bs × Ascending bs

-- How many of the durations do not exceed the bound.
abbrev pub within : List ℕ → ℕ → ℕ
within ds bound = length (filter (λ d. leb d bound) ds)

abbrev add_one : ℕ → ℕ
add_one c = (c + 1) % uint64_mod

totals-suc : (total : ℕ) (ns : List ℕ) → totals (add_one total) ns ≡ map add_one (totals total ns)
totals-suc total [] = refl
totals-suc total (n ∷ ns) = rw here (rw (totals-suc ((total + n) % uint64_mod) ns))
  where
    here : (add_one total + n) % uint64_mod ≡ add_one ((total + n) % uint64_mod)
    here = omega arith

-- What an observation adds to the number at a bound.
abbrev pub one_more : ℕ → (ℕ → ℕ) → ℕ → ℕ
one_more d f b = (if leb d b then suc (f b) else f b) % uint64_mod

cons-eq-cons : {x y : ℕ} {xs ys : List ℕ} → x ∷ xs ≡ y ∷ ys → (x ≡ y) × (xs ≡ ys)
cons-eq-cons h = (cc, cc)

cons_congr : {x y : ℕ} {xs ys : List ℕ} → x ≡ y → xs ≡ ys → x ∷ xs ≡ y ∷ ys
cons_congr p q = cc

add_one-map :
    (d : ℕ) (f : ℕ → ℕ) (bs : List ℕ)
    → All (λ c. d ≤ c) bs
    → map add_one (map (λ b. f b % uint64_mod) bs) ≡ map (one_more d f) bs
add_one-map d f [] h = refl
add_one-map d f (b ∷ bs) h = cons_congr (ground arith) (add_one-map d f bs h.1)

above : (d b : ℕ) (bs : List ℕ) → d ≤ b → All (λ c. b ≤ c) bs → All (λ c. d ≤ c) bs
above d b [] h up = tt
above d b (c ∷ bs) h up = (omega arith, above d b bs h up.1)

totals-observe_bucket :
    (d : ℕ) (f : ℕ → ℕ) (bs : List ℕ) (total : ℕ) (ns : List ℕ)
    → Ascending bs
    → totals total ns ≡ map (λ b. f b % uint64_mod) bs
    → totals total (observe_bucket d bs ns) ≡ map (one_more d f) bs
unfolding observe_bucket
totals-observe_bucket d f [] total ns up h = h
totals-observe_bucket d f (b ∷ bs) total [] up h = cc
totals-observe_bucket d f (b ∷ bs) total (n ∷ ns) up h = elim (Bool-cases (leb d b)) [
  | inl hit ↦
      let (first, rest) = cons-eq-cons h in
      let next : (total + (n + 1) % uint64_mod) % uint64_mod ≡ add_one ((total + n) % uint64_mod) =
        omega arith in
      rw hit (
        cons_congr (omega arith) (
          ap (λ t. totals t ns) next
          ∙ totals-suc ((total + n) % uint64_mod) ns
          ∙ ap (map add_one) rest
          ∙ add_one-map d f bs (above d b bs (ground arith) up.0)))
  | inr miss ↦
      let (first, rest) = cons-eq-cons h in
      rw miss
        (cons_congr first (totals-observe_bucket d f bs ((total + n) % uint64_mod) ns up.1 rest))
]

totals-zero : (bs : List ℕ) → totals 0 (zero_buckets bs) ≡ map (λ b. 0 % uint64_mod) bs
unfolding zero_buckets
totals-zero [] = refl
totals-zero (b ∷ bs) = cons_congr refl (totals-zero bs)

-- The durations of the completed tasks of a workflow, the last one first.
abbrev pub durations_of : String → List Recording → List ℕ
durations_of w [] = []
durations_of w (task_completed v status d ∷ rs) =
    if text_eq v w then d ∷ durations_of w rs else durations_of w rs
durations_of w (_ ∷ rs) = durations_of w rs

module _ {Float : Type 0} (floats : FloatOperations Float) where
  open floats use {zero_float, plus, seconds}

  abbrev pub sum_of : List ℕ → Float
  sum_of [] = zero_float
  sum_of (d ∷ ds) = plus (sum_of ds) (seconds d)

  -- The histogram is that of the durations.
  pub record IsHistogram (ds bounds : List ℕ) (h : Histogram Float) : Type 0 where
    pub cumulative : totals 0 h.buckets ≡ map (λ b. within ds b % uint64_mod) bounds
    pub counted : h.count ≡ length ds % uint64_mod
    pub summed : h.sum ≡ sum_of ds

  -- A workflow without a histogram has no durations.
  abbrev pub IsTallied : List ℕ → List ℕ → Option (Histogram Float) → Type 0
  IsTallied ds bounds none = ds ≡ []
  IsTallied ds bounds (some h) = (ds ≢ []) × IsHistogram ds bounds h

  within-cons :
      (d : ℕ) (ds : List ℕ) → one_more d (within ds) ≡ (λ b. within (d ∷ ds) b % uint64_mod)
  within-cons d ds = fun_ext λ b. ground arith

  observed-IsHistogram :
      (d : ℕ) (ds bounds : List ℕ) (h : Histogram Float)
      → Ascending bounds
      → IsHistogram ds bounds h
      → IsHistogram (d ∷ ds) bounds (observed floats d bounds h)
  observed-IsHistogram d ds bounds h up k = record {
    cumulative =
        totals-observe_bucket d (within ds) bounds 0 h.buckets up k.cumulative
        ∙ ap (λ f. map f bounds) (within-cons d ds);
    counted = rw k.counted (omega arith);
    summed = rw k.summed;
  }

  new_histogram-IsHistogram :
      (ds bounds : List ℕ) (o : Option (Histogram Float))
      → IsTallied ds bounds o
      → IsHistogram ds bounds (new_histogram floats bounds o)
  new_histogram-IsHistogram ds bounds none e =
      rw e (record { cumulative = totals-zero bounds; counted = refl; summed = refl })
  new_histogram-IsHistogram ds bounds (some h) k = k.1

  Ascending-default : Ascending default_duration_buckets
  Ascending-default = omega arith

  duration_buckets-apply :
      (r : Recording) (m : Metrics Float)
      → (apply_recording floats r m).duration_buckets ≡ m.duration_buckets
  unfolding apply_recording observe_execution_duration_locked
  duration_buckets-apply (claim_attempt v) m = refl
  duration_buckets-apply _ m = refl

  duration_buckets-recorded :
      (rs : List Recording) → (recorded floats rs).duration_buckets ≡ default_duration_buckets
  unfolding recorded new_metrics
  duration_buckets-recorded [] = refl
  duration_buckets-recorded (r ∷ rs) =
      duration_buckets-apply r (recorded floats rs) ∙ duration_buckets-recorded rs

  execution_hist-completed :
      (v w : String) (d : ℕ) (ds : List ℕ) (m : Metrics Float)
      → Ascending m.duration_buckets
      → IsTallied ds m.duration_buckets (lookup w m.execution_hist)
      → IsTallied
          (if text_eq v w then d ∷ ds else ds)
          m.duration_buckets
          (lookup w (observe_execution_duration_locked floats v d m).execution_hist)
  unfolding observe_execution_duration_locked
  execution_hist-completed v w d ds m up k = elim (Bool-cases (text_eq v w)) [
    | inl same ↦
        let e = (text_eq_iff v w).0 same in
        rw (same, lookup-insert v w _ m.execution_hist, same)
          (
            (λ e. cc),
            observed-IsHistogram d ds m.duration_buckets _ up (
                new_histogram-IsHistogram ds m.duration_buckets _ (
                  subst (λ x. IsTallied ds m.duration_buckets (lookup x m.execution_hist)) (sym e)
                    k)),
          )
    | inr other ↦ rw (other, lookup-insert v w _ m.execution_hist, other) k
  ]

  execution_hist-apply :
      (w : String) (r : Recording) (rs : List Recording) (m : Metrics Float)
      → Ascending m.duration_buckets
      → IsTallied (durations_of w rs) m.duration_buckets (lookup w m.execution_hist)
      → IsTallied
          (durations_of w (r ∷ rs))
          m.duration_buckets
          (lookup w (apply_recording floats r m).execution_hist)
  unfolding apply_recording
  execution_hist-apply w (task_completed v status d) rs m up k =
      execution_hist-completed v w d (durations_of w rs)
        (record m { tasks_completed = bump_pair (v, status_text status) m.tasks_completed }) up k
  execution_hist-apply w (claim_attempt v) rs m up k = k
  execution_hist-apply w _ rs m up k = k

  pub recorded-IsTallied :
      (w : String) (rs : List Recording)
      → IsTallied
          (durations_of w rs)
          default_duration_buckets
          (lookup w (recorded floats rs).execution_hist)
  unfolding recorded new_metrics lookup
  recorded-IsTallied w [] = refl
  recorded-IsTallied w (r ∷ rs) =
      let e = duration_buckets-recorded rs in
      let before =
        subst
          (λ bounds.
            IsTallied (durations_of w rs) bounds (lookup w (recorded floats rs).execution_hist))
          (sym e) (recorded-IsTallied w rs) in
      subst
        (λ bounds.
          IsTallied (durations_of w (r ∷ rs)) bounds
            (lookup w (apply_recording floats r (recorded floats rs)).execution_hist))
        e
        (execution_hist-apply w r rs (recorded floats rs)
          (subst Ascending (sym e) Ascending-default) before)
