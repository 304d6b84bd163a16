-- ===== src/Worker/Polling/Endings.antt =====
-- When the loop `Run` of internal/worker/worker.go goes on and when it ends.
use taskpulse.Prelude.{
  arith, ◌&&◌, Bool, true, false, not, Option, none, some, List, [], ◌∷◌, ◌++◌, ℤ, is_nonpos, ◌≡◌,
  refl, sym, ap, ◌∙◌, inl, inr, Bool-cases, subst,
}
use taskpulse.Result.{Error, Result, ok, err, Exec}
use taskpulse.Store.Both.{Stores}
use taskpulse.Worker.Processing.{is_lease_lost}
use taskpulse.Worker.Polling.{Round, is_context_canceled, after_round, run_rounds, run}

abbrev Answer : Type 0
Answer = Result (Option (Unit {0}))

-- After a task, after a wait that was not cut off, and after a lost lease.
abbrev pub goes_on : Result Bool → Bool → Bool
goes_on (ok true) stopped = true
goes_on (ok false) stopped = not stopped
goes_on (err e) stopped = not (is_context_canceled e) && is_lease_lost e

-- The context ended the round.
abbrev pub is_quit : Result Bool → Bool → Bool
is_quit (ok true) stopped = false
is_quit (ok false) stopped = stopped
is_quit (err e) stopped = is_context_canceled e

-- How the loop stands after the rounds: in every one of them it went on; or it went on up to one round,
-- in which the context was canceled, or whose error, but no lost lease, it returns.
pub data IsEnding (rounds : List Round) (s : Stores) : Answer × Stores → Type 0 where
  runs_on :
      {s' : Stores}
      → ((before after : List Round) (r : Round) (s1 : Stores)
          → rounds ≡ before ++ (r ∷ after)
          → run_rounds before s ≡ (ok none, s1)
          → goes_on (r.step s1).0 r.stopped ≡ true)
      → IsEnding rounds s (ok none, s')
  quits :
      (before after : List Round) (r : Round) (s1 : Stores)
      → rounds ≡ before ++ (r ∷ after)
      → run_rounds before s ≡ (ok none, s1)
      → is_quit (r.step s1).0 r.stopped ≡ true
      → IsEnding rounds s (ok (some tt), (r.step s1).1)
  gives_up :
      (before after : List Round) (r : Round) (s1 s' : Stores) (e : Error)
      → rounds ≡ before ++ (r ∷ after)
      → run_rounds before s ≡ (ok none, s1)
      → r.step s1 ≡ (err e, s')
      → is_context_canceled e ≡ false
      → is_lease_lost e ≡ false
      → IsEnding rounds s (err e, s')

advances :
    (out : Result Bool × Stores) (stopped : Bool) (rest : Exec Stores (Option (Unit {0})))
    → goes_on out.0 stopped ≡ true
    → after_round out.0 stopped rest out.1 ≡ rest out.1
advances (ok true, s) stopped rest h = refl
advances (ok false, s) stopped rest h = ground arith
advances (err e, s) stopped rest h = ground arith

module _ (r : Round) (rs : List Round) (s : Stores) where
  steps_on :
      goes_on (r.step s).0 r.stopped ≡ true → run_rounds (r ∷ rs) s ≡ run_rounds rs (r.step s).1
  unfolding run_rounds
  steps_on h = advances (r.step s) r.stopped (run_rounds rs) h

stopped_at :
    (r : Round) (rs : List Round) (s : Stores) (out : Result Bool × Stores)
    → r.step s ≡ out
    → goes_on out.0 r.stopped ≡ false
    → IsEnding (r ∷ rs) s (after_round out.0 r.stopped (run_rounds rs) out.1)
unfolding run_rounds
stopped_at r rs s (ok true, s') e h = cc
stopped_at r rs s (ok false, s') e h = elim (Bool-cases r.stopped) [
  | inr on ↦ absurd (ground (arith, h, on))
  | inl off ↦
      let answer : after_round (ok false) r.stopped (run_rounds rs) s' ≡ (ok (some tt), s') =
        rw off refl in
      subst (IsEnding (r ∷ rs) s) (sym answer) (
        subst (λ o. IsEnding (r ∷ rs) s (ok (some tt), o.1)) e
          (quits [] rs r s refl refl (rw e off)))
]
stopped_at r rs s (err x, s') e h = elim (Bool-cases (is_context_canceled x)) [
  | inl off ↦ rw off (
      subst (λ o. IsEnding (r ∷ rs) s (ok (some tt), o.1)) e (quits [] rs r s refl refl (rw e off)))
  | inr on ↦
      let other : is_lease_lost x ≡ false = ground (arith, h, on) in
      rw (on, other) (gives_up [] rs r s s' x refl refl e on other)
]

-- The rounds behind the first one are reached as before.
each_later :
    (r : Round) (rs : List Round) (s : Stores)
    → goes_on (r.step s).0 r.stopped ≡ true
    → ((before after : List Round) (q : Round) (s1 : Stores)
        → rs ≡ before ++ (q ∷ after)
        → run_rounds before (r.step s).1 ≡ (ok none, s1)
        → goes_on (q.step s1).0 q.stopped ≡ true)
    → (before after : List Round) (q : Round) (s1 : Stores) → r ∷ rs ≡ before ++ (q ∷ after)
    → run_rounds before s ≡ (ok none, s1)
    → goes_on (q.step s1).0 q.stopped ≡ true
unfolding run_rounds
each_later r rs s h each [] after q s1 e b =
    let first : r ≡ q = cc in
    let there : s ≡ s1 = cc in
    subst (λ x. goes_on (q.step x).0 q.stopped ≡ true) there
      (subst (λ x. goes_on (x.step s).0 x.stopped ≡ true) first h)
each_later r rs s h each (p ∷ before) after q s1 e b =
    let first : r ≡ p = cc in
    let others : rs ≡ before ++ (q ∷ after) = cc in
    each before after q s1 others (
      sym (steps_on r before s h)
      ∙ subst (λ x. run_rounds (x ∷ before) s ≡ (ok none, s1)) (sym first) b)

-- A round on which the loop went on comes before the others.
later :
    (r : Round) (rs : List Round) (s : Stores) (out : Answer × Stores)
    → goes_on (r.step s).0 r.stopped ≡ true
    → IsEnding rs (r.step s).1 out
    → IsEnding (r ∷ rs) s out
later r rs s _ h (quits before after q s1 e b c) =
    quits (r ∷ before) after q s1 (ap (λ l. r ∷ l) e) (steps_on r before s h ∙ b) c
later r rs s _ h (gives_up before after q s1 s' x e b c d f) =
    gives_up (r ∷ before) after q s1 s' x (ap (λ l. r ∷ l) e) (steps_on r before s h ∙ b) c d f
later r rs s _ h (runs_on each) = runs_on (each_later r rs s h each)

run_rounds-IsEnding : (rounds : List Round) (s : Stores) → IsEnding rounds s (run_rounds rounds s)
unfolding run_rounds
run_rounds-IsEnding [] s = runs_on (λ before after r s1 e b. absurd (no_round before after r e))
  where
    no_round : (before after : List Round) (r : Round) → [] ≡ before ++ (r ∷ after) → ⊥
    no_round [] after r e = cc
    no_round (p ∷ before) after r e = cc
run_rounds-IsEnding (r ∷ rs) s =
    let others = run_rounds-IsEnding rs (r.step s).1 in
    elim (Bool-cases (goes_on (r.step s).0 r.stopped)) [
      | inl h ↦
          subst (IsEnding (r ∷ rs) s) (sym (steps_on r rs s h))
            (later r rs s (run_rounds rs (r.step s).1) h others)
      | inr h ↦ stopped_at r rs s (r.step s) refl h
    ]

-- With a positive interval the polling loop goes on after a round that processed a task, after a wait
-- that was not cut off and after a lost lease, and so it runs on while all its rounds are such; or it
-- went on up to one round, and ends there without an error where that round found the context
-- canceled, during the round or the wait, and with the error of the round where it is another one than
-- a lost lease. What later rounds would do does not happen.
pub run-IsEnding :
    (poll_interval : ℤ) (rounds : List Round) (s : Stores)
    → is_nonpos poll_interval ≡ false
    → IsEnding rounds s (run poll_interval rounds s)
unfolding run
run-IsEnding poll_interval rounds s h = rw h (run_rounds-IsEnding rounds s)
