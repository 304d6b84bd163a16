-- ===== src/Store/Tasks/Turns.antt =====
-- Claims one after another of internal/store/memory_task_store.go.
use taskpulse.Prelude.{
  ℕ, zero, suc, ◌+◌, ◌≤◌, String, ◌≡◌, refl, sym, ap, subst, ◌∙◌, inl, inr, Bool, true, false, ◌||◌,
  none, some, List, [], ◌∷◌, length, arith, Assoc, Distinct, lookup, insert, Bool-cases, text_eq,
  text_eq_iff,
}
use taskpulse.Result.{Error, Result, ok, err, Exec-cases}
use taskpulse.Task.{Task, ClaimKind}
use taskpulse.Store.Tasks.{
  MemoryTaskStore, ClaimOptions, recoverable, available, claim_next, claim_next_locked,
  validate_claim,
}
use taskpulse.Store.Tasks.Claiming.{
  IsKeyed, IsKeyed-insert, IsLeased, IsClaim, IsPick, by_recovery, by_retry, by_first,
  IsClaimOutcome, claim_next_locked-IsClaimOutcome,
}
use taskpulse.Store.Stats.Counts.{count_tasks}

abbrev pub qualifies : ClaimOptions → Task → Bool
qualifies o t = recoverable o t || available o t

abbrev then_more :
    Result Task × MemoryTaskStore
    → (MemoryTaskStore → List Task × MemoryTaskStore)
    → List Task × MemoryTaskStore
then_more (err e, s) rest = ([], s)
then_more (ok t, s) rest = let (ts, u) = rest s in (t ∷ ts, u)

-- At most so many claims, until one gets no task; the tasks that they got.
unfoldable pub claim_all : ℕ → ClaimOptions → MemoryTaskStore → List Task × MemoryTaskStore
unfolding claim_next
claim_all zero o s = ([], s)
claim_all (suc n) o s = then_more (claim_next none o s) (claim_all n o)

count-none :
    (q : Task → Bool) (m : Assoc Task) (k : String) (t : Task)
    → count_tasks q m ≡ 0
    → lookup k m ≡ some t
    → q t ≡ false
unfolding lookup
count-none q [] k t e found = cc
count-none q ((j, u) ∷ m) k t e found = ground (arith, count-none q m k t)

count-insert :
    (q : Task → Bool) (m : Assoc Task) (k : String) (p t : Task)
    → lookup k m ≡ some p
    → q p ≡ true
    → q t ≡ false
    → count_tasks q (insert k t m) + 1 ≡ count_tasks q m
unfolding lookup insert
count-insert q [] k p t found counted left = cc
count-insert q ((j, u) ∷ m) k p t found counted left =
    ground (arith, count-insert q m k p t, text_eq_iff j k)

leased_again :
    (o : ClaimOptions) (p t : Task)
    → validate_claim o ≡ ok tt
    → IsLeased o p t
    → qualifies o t ≡ false
unfolding validate_claim recoverable available
leased_again o p t valid leased = ground (arith, leased.runs, leased.expires)

pick_qualifies :
    (o : ClaimOptions) (m : Assoc Task) (p t : Task) (kind : ClaimKind)
    → IsPick o m p t kind
    → qualifies o p ≡ true
pick_qualifies o m p t kind (by_recovery best e) = ground (arith, best.qualified)
pick_qualifies o m p t kind (by_retry idle best r e) = ground (arith, best.qualified)
pick_qualifies o m p t kind (by_first idle best r e) = ground (arith, best.qualified)

-- A claim gets a task, or no task qualifies.
data Turn (o : ClaimOptions) (s : MemoryTaskStore) : Result Task × MemoryTaskStore → Type 0 where
  got :
      (t p : Task) (kind : ClaimKind) (u : MemoryTaskStore)
      → IsClaim o s u t p kind
      → Turn o s (ok t, u)
  nothing :
      (e : Error)
      → ((k : String) (t : Task) → lookup k s.tasks ≡ some t → qualifies o t ≡ false)
      → Turn o s (err e, s)

claim_next-Turn :
    (o : ClaimOptions) (s : MemoryTaskStore)
    → IsKeyed s.tasks
    → validate_claim o ≡ ok tt
    → Turn o s (claim_next none o s)
unfolding claim_next
claim_next-Turn o s h valid = rw valid (elim (Exec-cases (claim_next_locked o s)) [
  | inl (c, u, e) ↦ rw e (claimed c u (subst (IsClaimOutcome o s) e known))
  | inr (x, u, e) ↦ rw e (missed x u (subst (IsClaimOutcome o s) e known))
])
  where
    known : IsClaimOutcome o s (claim_next_locked o s)
    known = claim_next_locked-IsClaimOutcome o s h

    claimed :
        (c : Task × Task × ClaimKind) (u : MemoryTaskStore)
        → IsClaimOutcome o s (ok c, u)
        → Turn o s (ok c.0, u)
    claimed (t, p, kind) u k = got t p kind u k

    missed : (x : Error) (u : MemoryTaskStore) → IsClaimOutcome o s (err x, u) → Turn o s (err x, u)
    missed x u (e, same, none_left) =
        subst (λ v. Turn o s (err x, v)) (sym same)
          (nothing x (λ k t found. ground (arith, none_left k t found)))

count-claimed :
    (o : ClaimOptions) (s u : MemoryTaskStore) (t p : Task) (kind : ClaimKind)
    → validate_claim o ≡ ok tt
    → IsClaim o s u t p kind
    → count_tasks (qualifies o) u.tasks + 1 ≡ count_tasks (qualifies o) s.tasks
count-claimed o s u t p kind valid h =
    ap (λ v. count_tasks (qualifies o) v.tasks + 1) h.written
    ∙ count-insert (qualifies o) s.tasks p.id p t h.found
        (pick_qualifies o s.tasks p t kind h.picked) (leased_again o p t valid h.leased)

claimed-IsKeyed :
    (o : ClaimOptions) (s u : MemoryTaskStore) (t p : Task) (kind : ClaimKind)
    → IsKeyed s.tasks
    → IsClaim o s u t p kind
    → IsKeyed u.tasks
claimed-IsKeyed o s u t p kind h c =
    subst (λ v. IsKeyed v.tasks) (sym c.written) (IsKeyed-insert p.id t s.tasks c.leased.same_id h)

-- Every task that qualified has its turn: it is leased as the claims ask, and no other is changed.
pub record IsServed (o : ClaimOptions) (s : MemoryTaskStore) (out : List Task × MemoryTaskStore)
    : Type 0 where
  pub number : length out.0 ≡ count_tasks (qualifies o) s.tasks
  pub served :
      (k : String) (t : Task)
      → lookup k s.tasks ≡ some t
      → qualifies o t ≡ true
      → (u : Task) × (lookup k out.1.tasks ≡ some u) × IsLeased o t u
  pub kept :
      (k : String) (t : Task)
      → lookup k s.tasks ≡ some t
      → qualifies o t ≡ false
      → lookup k out.1.tasks ≡ some t

none-IsServed :
    (o : ClaimOptions) (s : MemoryTaskStore)
    → count_tasks (qualifies o) s.tasks ≡ 0
    → IsServed o s ([], s)
none-IsServed o s e = record {
  number = sym e;
  served = λ k t found q. absurd (ground (arith, count-none (qualifies o) s.tasks k t e found));
  kept = λ k t found q. found;
}

count_zero :
    (q : Task → Bool) (m : Assoc Task)
    → Distinct m
    → ((k : String) (t : Task) → lookup k m ≡ some t → q t ≡ false)
    → count_tasks q m ≡ 0
unfolding lookup
count_zero q [] d h = refl
count_zero q ((j, u) ∷ m) d h = ground (
  arith,
  count_zero q m d.1 (λ k t found. h k t (ground (arith, text_eq_iff j k, d.0))),
  h j u (ground (arith, text_eq_iff j j)),
)

module _ (o : ClaimOptions) (s u : MemoryTaskStore) (t p : Task) (kind : ClaimKind) where
  then-IsServed :
      (out : List Task × MemoryTaskStore)
      → validate_claim o ≡ ok tt
      → IsClaim o s u t p kind
      → IsServed o u out
      → IsServed o s (t ∷ out.0, out.1)
  then-IsServed out valid h after = record {
    number = omega (arith, after.number, count-claimed o s u t p kind valid h);
    served = λ k v found q. elim (Bool-cases (text_eq k p.id)) [
      | inl e ↦ own k v (ground (arith, e, text_eq_iff k p.id)) found
      | inr e ↦ after.served k v (h.others k (λ same. ground (arith, text_eq_iff k p.id)) ∙ found) q
    ];
    kept = λ k v found q.
        after.kept k v
          (h.others k (λ same.
              ground (arith, found, same, h.found, pick_qualifies o s.tasks p t kind h.picked))
            ∙ found)
          q;
  }
    where
      own :
          (k : String) (v : Task)
          → k ≡ p.id
          → lookup k s.tasks ≡ some v
          → (w : Task) × (lookup k out.1.tasks ≡ some w) × IsLeased o v w
      own k v same found =
          let is_pick : p ≡ v = cc (same, found, h.found) in
          (
            t,
            ap (λ j. lookup j out.1.tasks) same
                ∙ after.kept p.id t h.stored (leased_again o p t valid h.leased),
            subst (λ x. IsLeased o x t) is_pick h.leased,
          )

Turn-IsServed :
    (n : ℕ) (o : ClaimOptions) (s : MemoryTaskStore)
    (rest : MemoryTaskStore → List Task × MemoryTaskStore)
    → ((u : MemoryTaskStore)
        → IsKeyed u.tasks
        → count_tasks (qualifies o) u.tasks ≤ n
        → IsServed o u (rest u))
    → IsKeyed s.tasks
    → validate_claim o ≡ ok tt
    → count_tasks (qualifies o) s.tasks ≤ n + 1
    → (out : Result Task × MemoryTaskStore) → Turn o s out
    → IsServed o s (then_more out rest)
Turn-IsServed n o s rest after h valid enough _ (got t p kind u c) =
    then-IsServed o s u t p kind (rest u) valid c (
      after u (claimed-IsKeyed o s u t p kind h c)
        (omega (arith, count-claimed o s u t p kind valid c)))
Turn-IsServed n o s rest after h valid enough _ (nothing e none_left) =
    none-IsServed o s (count_zero (qualifies o) s.tasks h.distinct none_left)

-- In a map with each task under its id: if at least as many valid claims are made as tasks qualify,
-- by one worker at one time, then each task that qualified gets its turn and is leased to the worker,
-- no other task changes, and exactly as many of the claims get a task.
pub claim_all-IsServed :
    (n : ℕ) (o : ClaimOptions) (s : MemoryTaskStore)
    → IsKeyed s.tasks
    → validate_claim o ≡ ok tt
    → count_tasks (qualifies o) s.tasks ≤ n
    → IsServed o s (claim_all n o s)
unfolding claim_all
claim_all-IsServed zero o s h valid enough = none-IsServed o s (omega arith)
claim_all-IsServed (suc n) o s h valid enough =
    Turn-IsServed n o s (claim_all n o)
      (λ u keyed fewer. claim_all-IsServed n o u keyed valid fewer) h valid (omega arith)
      (claim_next none o s) (claim_next-Turn o s h valid)
