-- ===== src/Store/Tasks/Expiry.antt =====
-- What `failNextExpiredLocked` of internal/store/memory_task_store.go promises: which task it fails,
-- and when there is none.
use taskpulse.Prelude.{
  ℕ, String, ◌≡◌, refl, sym, subst, ◌≢◌, true, false, Option, none, some, arith, lookup, insert,
}
use taskpulse.Result.{Result, ok, err, no_expired_task}
use taskpulse.Task.{Task, failed, terminal_statuses, move_to}
use taskpulse.Task.Legal.{IsLegal}
use taskpulse.Store.Select.{select}
use taskpulse.Store.Select.Best.{IsBest, select-IsBest}
use taskpulse.Store.Tasks.{
  MemoryTaskStore, next_version, exhausted, lease_before, fail_selected, fail_next_expired_locked,
}
use taskpulse.Store.Tasks.Orders.{lease_before-IsOrder}
use taskpulse.Store.Tasks.Claiming.{IsKeyed, none_selected, under_id, written, rekey}

pub record IsExpiry (now : ℕ) (s s' : MemoryTaskStore) (t p : Task) : Type 0 where
  pub picked : IsBest (exhausted now) lease_before s.tasks p.id p
  pub fails : t.status ≡ failed
  pub same_id : t.id ≡ p.id
  pub unowned : t.lease_owner ≡ ""
  pub unleased : t.lease_expires_at ≡ none
  pub ends : t.finished_at ≡ some now
  pub explains : t.error_message ≡ "task lease expired and retry budget exhausted"
  pub fenced : t.version ≡ next_version p.version
  pub step : IsLegal p (record t { version = p.version })
  pub found : lookup p.id s.tasks ≡ some p
  pub stored : lookup p.id s'.tasks ≡ some t
  pub others : (k : String) → k ≢ p.id → lookup k s'.tasks ≡ lookup k s.tasks
  pub written : s' ≡ record s { tasks = insert p.id t s.tasks }

abbrev pub IsExpiryOutcome : ℕ → MemoryTaskStore → Result (Task × Task) × MemoryTaskStore → Type 0
IsExpiryOutcome now s (ok (t, p), s') = IsExpiry now s s' t p
IsExpiryOutcome now s (err e, s') =
    (e ≡ no_expired_task)
    × (s' ≡ s)
    × ((k : String) (t : Task) → lookup k s.tasks ≡ some t → exhausted now t ≡ false)

-- The failed task, before its version is raised.
ended : ℕ → Task → Task
ended now p = record p {
  status = failed;
  updated_at = now;
  error_message = "task lease expired and retry budget exhausted";
  finished_at = some now;
  lease_owner = "";
  lease_expires_at = none;
}

exhausted-move_to :
    (now : ℕ) (p : Task)
    → exhausted now p ≡ true
    → move_to
        (record p { error_message = "task lease expired and retry budget exhausted" })
        failed
        now
      ≡ ok (ended now p)
unfolding exhausted move_to ended
exhausted-move_to now p h = ground arith

ended_IsLegal : (now : ℕ) (p : Task) → exhausted now p ≡ true → IsLegal p (ended now p)
unfolding exhausted ended terminal_statuses
ended_IsLegal now p h = record {
  live = ground arith;
  same_id = refl;
  same_version = refl;
  same_key = refl;
  same_workflow = refl;
  same_input = refl;
  same_budget = refl;
  same_creation = refl;
  sound = λ w. ground arith;
}

module _ (now : ℕ) (s : MemoryTaskStore) (h : IsKeyed s.tasks) where
  expiry_outcome :
      (selected : Option (String × Task))
      → selected ≡ select (exhausted now) lease_before s.tasks none
      → IsExpiryOutcome now s (fail_selected now selected s)
  unfolding fail_selected ended
  expiry_outcome none e = (refl, refl, none_selected (exhausted now) lease_before s.tasks e)
  expiry_outcome (some (k, p)) e =
      let best =
        select-IsBest (exhausted now) lease_before lease_before-IsOrder s.tasks k p h.distinct
          (sym e) in
      let id = under_id (exhausted now) lease_before s.tasks k p h best in
      rw (exhausted-move_to now p best.qualified) (record {
        picked = subst (λ j. IsBest (exhausted now) lease_before s.tasks j p) id best;
        fails = refl;
        same_id = refl;
        unowned = refl;
        unleased = refl;
        ends = refl;
        explains = refl;
        fenced = refl;
        step = ended_IsLegal now p best.qualified;
        found = subst (λ j. lookup j s.tasks ≡ some p) id best.stored;
        stored = (written s.tasks k p.id _ id).0;
        others = (written s.tasks k p.id _ id).1;
        written = rekey s _ k p.id id;
      })

-- In a map with each task under its id, `failNextExpiredLocked` either reports that there is no
-- expired task, leaving the store as it was, and then no running task has both run out of its lease
-- and of retries; or it fails the one of these whose lease ran out first (ties by id), gives the
-- reason, clears the lease, sets the end time and raises the version, and changes no other task.
pub fail_next_expired_locked-IsExpiryOutcome :
    (now : ℕ) (s : MemoryTaskStore)
    → IsKeyed s.tasks
    → IsExpiryOutcome now s (fail_next_expired_locked now s)
unfolding fail_next_expired_locked
fail_next_expired_locked-IsExpiryOutcome now s h = expiry_outcome now s h _ refl
