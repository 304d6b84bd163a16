-- ===== src/Store/Tasks/Claiming.antt =====
-- What `claimNextLocked` of internal/store/memory_task_store.go promises: which task it picks, what
-- becomes of it, and when there is none.
use taskpulse.Prelude.{
  ◌+◌, String, ◌≡◌, refl, sym, ap, ◌≢◌, inl, inr, Bool, true, false, Option, none, some, arith,
  Assoc, lookup, insert, lookup-insert, lookup-insert_self, insert-Distinct, Distinct,
  mem-of_lookup, subst, Bool-cases, text_eq_iff, magnitude,
}
use taskpulse.Result.{Result, ok, err, no_task_available}
use taskpulse.Task.{
  Task, ClaimKind, initial, retry, recovery, running, is_running, is_queued, is_retrying, move_to,
  first_start, terminal_statuses,
}
use taskpulse.Task.Legal.{IsLegal}
use taskpulse.Store.Select.{select}
use taskpulse.Store.Select.Best.{IsBest, select-IsBest, select-none}
use taskpulse.Store.Tasks.{
  MemoryTaskStore, ClaimOptions, next_version, recoverable, available, lease_before,
  available_before, claim_next_locked, grant, claim_selected, lease_to,
}
use taskpulse.Store.Tasks.Orders.{lease_before-IsOrder, available_before-IsOrder}

-- A Go map: one entry for each key, and every task under its own id.
pub record IsKeyed (m : Assoc Task) : Type 0 where
  pub distinct : Distinct m
  pub keyed : (k : String) (t : Task) → lookup k m ≡ some t → t.id ≡ k

pub IsKeyed-insert :
    (k : String) (t : Task) (m : Assoc Task) → t.id ≡ k → IsKeyed m → IsKeyed (insert k t m)
IsKeyed-insert k t m own h = record {
  distinct = insert-Distinct k t m h.distinct;
  keyed = λ j u found. ground (arith, lookup-insert k j t m, text_eq_iff k j, h.keyed j u);
}

-- `t` is `p` under a new lease.
pub record IsLeased (o : ClaimOptions) (p t : Task) : Type 0 where
  pub runs : is_running t.status ≡ true
  pub same_id : t.id ≡ p.id
  pub owner : t.lease_owner ≡ o.worker_id
  pub expires : t.lease_expires_at ≡ some (o.now + magnitude o.lease_duration)
  pub unbeaten : t.last_heartbeat_at ≡ none
  pub fenced : t.version ≡ next_version p.version

-- The pick, with its kind and the retries that it costs.
pub data IsPick (o : ClaimOptions) (m : Assoc Task) (p t : Task) : ClaimKind → Type 0 where
  -- A crashed worker's task, before any waiting one: one retry is spent.
  by_recovery :
      IsBest (recoverable o) lease_before m p.id p
      → t.retry_count ≡ p.retry_count + 1
      → IsPick o m p t recovery
  -- A waiting task, if no task is to be recovered.
  by_retry :
      ((k : String) (s : Task) → lookup k m ≡ some s → recoverable o s ≡ false)
      → IsBest (available o) available_before m p.id p
      → is_retrying p.status ≡ true
      → t.retry_count ≡ p.retry_count
      → IsPick o m p t retry
  by_first :
      ((k : String) (s : Task) → lookup k m ≡ some s → recoverable o s ≡ false)
      → IsBest (available o) available_before m p.id p
      → is_queued p.status ≡ true
      → t.retry_count ≡ p.retry_count
      → IsPick o m p t initial

pub record IsClaim (o : ClaimOptions) (s s' : MemoryTaskStore) (t p : Task) (kind : ClaimKind)
    : Type 0 where
  pub picked : IsPick o s.tasks p t kind
  pub leased : IsLeased o p t
  -- Apart from its version the task takes a step that a live task may take.
  pub step : IsLegal p (record t { version = p.version })
  pub found : lookup p.id s.tasks ≡ some p
  pub stored : lookup p.id s'.tasks ≡ some t
  pub others : (k : String) → k ≢ p.id → lookup k s'.tasks ≡ lookup k s.tasks
  pub written : s' ≡ record s { tasks = insert p.id t s.tasks }

-- A claim, or the report that there is nothing to claim, with the store as it was.
abbrev pub IsClaimOutcome :
    ClaimOptions → MemoryTaskStore → Result (Task × Task × ClaimKind) × MemoryTaskStore → Type 0
IsClaimOutcome o s (ok (t, p, kind), s') = IsClaim o s s' t p kind
IsClaimOutcome o s (err e, s') =
    (e ≡ no_task_available)
    × (s' ≡ s)
    × ((k : String) (t : Task)
        → lookup k s.tasks ≡ some t
        → (recoverable o t ≡ false) × (available o t ≡ false))

pub none_selected :
    (eligible : Task → Bool) (before : Task → Task → Bool) (m : Assoc Task)
    → none ≡ select eligible before m none
    → (k : String) (t : Task) → lookup k m ≡ some t
    → eligible t ≡ false
none_selected eligible before m e k t found =
    select-none eligible before m k t (sym e) (mem-of_lookup k t m found)

-- The pick stands under its id.
pub under_id :
    (eligible : Task → Bool) (before : Task → Task → Bool) (m : Assoc Task) (k : String) (t : Task)
    → IsKeyed m
    → IsBest eligible before m k t
    → k ≡ t.id
under_id eligible before m k t h best = sym (h.keyed k t best.stored)

-- What is written under the key of the pick.
pub written :
    (m : Assoc Task) (k j : String) (t : Task)
    → k ≡ j
    → (lookup j (insert k t m) ≡ some t)
      × ((i : String) → i ≢ j → lookup i (insert k t m) ≡ lookup i m)
written m k j t e = (
  rw e (lookup-insert_self j t m),
  λ i other. ground (arith, lookup-insert k i t m, text_eq_iff k i),
)

pub rekey :
    (s : MemoryTaskStore) (t : Task) (k j : String)
    → k ≡ j
    → record s { tasks = insert k t s.tasks } ≡ record s { tasks = insert j t s.tasks }
rekey s t k j e = ap (λ i. record s { tasks = insert i t s.tasks }) e

recovered_IsLeased :
    (o : ClaimOptions) (p : Task)
    → recoverable o p ≡ true
    → IsLeased o p (lease_to o (record p { retry_count = p.retry_count + 1; updated_at = o.now }))
unfolding recoverable
recovered_IsLeased o p h = ground arith

-- A waiting task may always be started.
started : ClaimOptions → Task → Task
started o p = record p {
  status = running;
  updated_at = o.now;
  started_at = first_start p.started_at o.now;
}

available-move_to :
    (o : ClaimOptions) (p : Task)
    → available o p ≡ true
    → move_to p running o.now ≡ ok (started o p)
unfolding available move_to started
available-move_to o p h = ground arith

started-IsLegal :
    (o : ClaimOptions) (p : Task)
    → available o p ≡ true
    → IsLegal p (record (lease_to o (started o p)) { version = p.version })
unfolding available started terminal_statuses
started-IsLegal o p h = record {
  live = ground arith;
  same_id = refl;
  same_version = refl;
  same_key = refl;
  same_workflow = refl;
  same_input = refl;
  same_budget = refl;
  same_creation = refl;
  sound = λ w. ground arith;
}

recovered_IsLegal :
    (o : ClaimOptions) (p : Task)
    → recoverable o p ≡ true
    → IsLegal p
        (record (lease_to o (record p { retry_count = p.retry_count + 1; updated_at = o.now })) {
          version = p.version;
        })
unfolding recoverable terminal_statuses
recovered_IsLegal o p h = record {
  live = ground arith;
  same_id = refl;
  same_version = refl;
  same_key = refl;
  same_workflow = refl;
  same_input = refl;
  same_budget = refl;
  same_creation = refl;
  sound = λ w. ground arith;
}

started-IsLeased : (o : ClaimOptions) (p : Task) → IsLeased o p (lease_to o (started o p))
unfolding started
started-IsLeased o p = record {
  runs = refl;
  same_id = refl;
  owner = refl;
  expires = refl;
  unbeaten = refl;
  fenced = refl;
}

available_queued :
    (o : ClaimOptions) (p : Task)
    → available o p ≡ true
    → is_retrying p.status ≡ false
    → is_queued p.status ≡ true
unfolding available
available_queued o p h k = ground arith

module _ (o : ClaimOptions) (s : MemoryTaskStore) (h : IsKeyed s.tasks) where
  waiting_outcome :
      (k : String) (p : Task)
      → ((j : String) (t : Task) → lookup j s.tasks ≡ some t → recoverable o t ≡ false)
      → IsBest (available o) available_before s.tasks k p
      → (kind : ClaimKind) → IsPick o s.tasks p (lease_to o (started o p)) kind
      → IsClaimOutcome o s (grant o k p kind (move_to p running o.now) s)
  unfolding grant
  waiting_outcome k p idle best kind pick =
      let id = under_id (available o) available_before s.tasks k p h best in
      rw (available-move_to o p best.qualified) (record {
        picked = pick;
        leased = started-IsLeased o p;
        step = started-IsLegal o p best.qualified;
        found = subst (λ j. lookup j s.tasks ≡ some p) id best.stored;
        stored = (written s.tasks k p.id _ id).0;
        others = (written s.tasks k p.id _ id).1;
        written = rekey s _ k p.id id;
      })

  outcome :
      (recovered waiting : Option (String × Task))
      → recovered ≡ select (recoverable o) lease_before s.tasks none
      → waiting ≡ select (available o) available_before s.tasks none
      → IsClaimOutcome o s (claim_selected o recovered waiting s)
  unfolding claim_selected started
  outcome (some (k, p)) waiting e f =
      let best =
        select-IsBest (recoverable o) lease_before lease_before-IsOrder s.tasks k p h.distinct
          (sym e) in
      let id = under_id (recoverable o) lease_before s.tasks k p h best in
      record {
        picked =
            by_recovery (subst (λ j. IsBest (recoverable o) lease_before s.tasks j p) id best) refl;
        leased = recovered_IsLeased o p best.qualified;
        step = recovered_IsLegal o p best.qualified;
        found = subst (λ j. lookup j s.tasks ≡ some p) id best.stored;
        stored = (written s.tasks k p.id _ id).0;
        others = (written s.tasks k p.id _ id).1;
        written = rekey s _ k p.id id;
      }
  outcome none none e f = (
    refl,
    refl,
    λ k t found. (
      none_selected (recoverable o) lease_before s.tasks e k t found,
      none_selected (available o) available_before s.tasks f k t found,
    ),
  )
  outcome none (some (k, p)) e f =
      let idle = none_selected (recoverable o) lease_before s.tasks e in
      let best =
        select-IsBest (available o) available_before available_before-IsOrder s.tasks k p h.distinct
          (sym f) in
      let id = under_id (available o) available_before s.tasks k p h best in
      let first = subst (λ j. IsBest (available o) available_before s.tasks j p) id best in
      elim (Bool-cases (is_retrying p.status)) [
        | inl waits ↦
            rw waits (waiting_outcome k p idle best retry (by_retry idle first waits refl))
        | inr fresh ↦ rw fresh (
            waiting_outcome k p idle best initial
              (by_first idle first (available_queued o p best.qualified fresh) refl))
      ]

-- In a map with each task under its id, `claimNextLocked` either returns a claim or reports that no
-- task is available, leaving the store as it was, and then no task qualifies. A claim takes the
-- running task whose lease ran out first and that has retries left (ties by id), which costs it a
-- retry; only if there is none it takes the queued or retrying task that has been due for longest
-- (ties by creation time and id) at no cost. The task is then running, leased to the worker for the
-- asked time, with no heartbeat and the next version, and no other task changes.
pub claim_next_locked-IsClaimOutcome :
    (o : ClaimOptions) (s : MemoryTaskStore)
    → IsKeyed s.tasks
    → IsClaimOutcome o s (claim_next_locked o s)
unfolding claim_next_locked
claim_next_locked-IsClaimOutcome o s h = outcome o s h _ _ refl refl
