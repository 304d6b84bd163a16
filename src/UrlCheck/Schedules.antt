-- ===== src/UrlCheck/Schedules.antt =====
-- internal/executor/urlcheck/executor.go: `checkAll` in every order in which its goroutines may run.
use taskpulse.Prelude.{
  ℕ, zero, suc, ◌+◌, ◌*◌, ◌≤◌, ◌≡◌, refl, sym, subst, ◌⊎◌, inl, inr, String, Bool, true, false,
  ◌||◌, some, List, [], ◌∷◌, ◌++◌, arith, ◌==◌, length, length-append, get_elem?, All,
}
use taskpulse.UrlCheck.{
  CheckJob, Pool, Environment, jobs_from, blank_items, new_pool, Step, take_job, write_item,
  Schedule, begin, then_step, IsDone,
}

-- A job of this index is in the list.
abbrev pub holds : ℕ → List CheckJob → Bool
holds k [] = false
holds k (j ∷ js) = j.index == k || holds k js

-- The job stands for a URL, the first of them at the index `k`.
abbrev pub IsJob : ℕ → List String → CheckJob → Type 0
IsJob k urls j = (d : ℕ) × (j.index ≡ k + d) × (get_elem? urls d ≡ some j.url)

pub holds-append : (k : ℕ) (xs ys : List CheckJob) → holds k (xs ++ ys) ≡ (holds k xs || holds k ys)
holds-append k [] ys = refl
holds-append k (x ∷ xs) ys = ground (arith, holds-append k xs ys)

pub holds-jobs_from :
    (k d : ℕ) (urls : List String) (u : String)
    → get_elem? urls d ≡ some u
    → holds (k + d) (jobs_from k urls) ≡ true
unfolding jobs_from
holds-jobs_from k d [] u h = cc
holds-jobs_from k zero (v ∷ urls) u h = ground arith
holds-jobs_from k (suc d) (v ∷ urls) u h =
    subst (λ n. (k == n || holds n (jobs_from (suc k) urls)) ≡ true) (sym shift)
      (later (holds-jobs_from (suc k) d urls u h))
  where
    shift : k + suc d ≡ suc k + d
    shift = omega arith

    later :
        holds (suc k + d) (jobs_from (suc k) urls) ≡ true
        → (k == (suc k + d) || holds (suc k + d) (jobs_from (suc k) urls)) ≡ true
    later e = ground arith

IsJob-suc :
    (k : ℕ) (v : String) (urls : List String) (js : List CheckJob)
    → All (IsJob (suc k) urls) js
    → All (IsJob k (v ∷ urls)) js
IsJob-suc k v urls [] h = tt
IsJob-suc k v urls (j ∷ js) ((d, at, there), h) =
    ((suc d, omega arith, there), IsJob-suc k v urls js h)

pub jobs_from-IsJob : (k : ℕ) (urls : List String) → All (IsJob k urls) (jobs_from k urls)
unfolding jobs_from
jobs_from-IsJob k [] = tt
jobs_from-IsJob k (u ∷ urls) = (
  (0, omega arith, refl),
  IsJob-suc k u urls (jobs_from (suc k) urls) (jobs_from-IsJob (suc k) urls),
)

pub length-jobs_from : (k : ℕ) (urls : List String) → length (jobs_from k urls) ≡ length urls
unfolding jobs_from
length-jobs_from k [] = refl
length-jobs_from k (u ∷ urls) = omega (arith, length-jobs_from (suc k) urls)

pub length-blank_items : (urls : List String) → length (blank_items urls) ≡ length urls
unfolding blank_items
length-blank_items [] = refl
length-blank_items (u ∷ urls) = omega (arith, length-blank_items urls)

-- Lists of one length have the same indices.
pub there_too :
    {A B : Type 0} (xs : List A) (ys : List B) (k : ℕ) (x : A)
    → length ys ≡ length xs
    → get_elem? xs k ≡ some x
    → (y : B) × (get_elem? ys k ≡ some y)
there_too [] ys k x e h = absurd (ground arith)
there_too (z ∷ xs) [] k x e h = absurd (omega arith)
there_too (z ∷ xs) (y ∷ ys) zero x e h = (y, refl)
there_too (z ∷ xs) (y ∷ ys) (suc k) x e h = there_too xs ys k x (omega arith) h

pub All-split :
    (P : CheckJob → Type 0) (xs : List CheckJob) (j : CheckJob) (ys : List CheckJob)
    → All P (xs ++ (j ∷ ys))
    → P j × All P (xs ++ ys)
All-split P [] j ys h = h
All-split P (x ∷ xs) j ys h = let (p, rest) = All-split P xs j ys h.1 in (p, (h.0, rest))

-- How many steps are left.
abbrev pub load : Pool → ℕ
load p = 2 * length p.jobs + length p.busy

pub load-new_pool : (urls : List String) → load (new_pool urls) ≡ 2 * length urls
unfolding new_pool
load-new_pool urls = omega (arith, length-jobs_from 0 urls)

module _ (env : Environment) (workers : ℕ) where
  Step-load : {p q : Pool} → Step env workers p q → load p ≡ suc (load q)
  Step-load {p} (take_job j js e free) = rw e (omega arith)
  Step-load {p} (write_item before j after e) =
      rw e (omega (arith, length-append before (j ∷ after), length-append before after))

  pub Schedule-load : {p q : Pool} {n : ℕ} → Schedule env workers p n q → load p ≡ n + load q
  Schedule-load begin = omega arith
  Schedule-load (then_step s t) = omega (arith, Schedule-load s, Step-load t)

  -- A goroutine can go on, as long as there is one.
  pub never_stuck : (p : Pool) → 1 ≤ workers → IsDone env p ⊎ ((q : Pool) × Step env workers p q)
  never_stuck p some_worker = step p.jobs p.busy refl refl
    where
      step :
          (js bs : List CheckJob)
          → p.jobs ≡ js
          → p.busy ≡ bs
          → IsDone env p ⊎ ((q : Pool) × Step env workers p q)
      step [] [] e f = inl (e, f)
      step js (b ∷ bs) e f = inr (_, write_item [] b bs f)
      step (j ∷ js) [] e f = inr (_, take_job j js e (rw f (omega arith)))
