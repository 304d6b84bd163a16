-- ===== src/Store/Tasks/Unordered.antt =====
-- The order in which Go meets the entries of a map does not matter to
-- internal/store/memory_task_store.go.
use taskpulse.Prelude.{some, refl, arith, String, ℕ, ◌≡◌, sym, ◌∙◌, Option, none, Assoc, lookup}
use taskpulse.Task.{Task}
use taskpulse.Store.Select.{select}
use taskpulse.Store.Select.Best.{select-same}
use taskpulse.Store.Tasks.{
  MemoryTaskStore, ClaimOptions, recoverable, available, exhausted, lease_before, available_before,
  claim_next_locked, fail_next_expired_locked, claim_selected, claim_available, grant,
  fail_selected, fail_expired,
}
use taskpulse.Store.Tasks.Orders.{
  lease_before-IsOrder, available_before-IsOrder, lease_before-tie, available_before-tie,
}
use taskpulse.Store.Tasks.Claiming.{IsKeyed}

module _ (m n : Assoc Task) (h : IsKeyed m) (k : IsKeyed n)
    (same : (j : String) → lookup j n ≡ lookup j m) where
  same_key :
      (i j : String) (s t : Task) → lookup i m ≡ some s → lookup j m ≡ some t → s.id ≡ t.id → i ≡ j
  same_key i j s t p q e = sym (h.keyed i s p) ∙ e ∙ h.keyed j t q

  recovered_same :
      (o : ClaimOptions)
      → select (recoverable o) lease_before m none ≡ select (recoverable o) lease_before n none
  recovered_same o =
      select-same (recoverable o) lease_before lease_before-IsOrder m n h.distinct k.distinct
        (λ j. sym (same j)) (λ i j s t p q u v. same_key i j s t p q (lease_before-tie s t u v))

  waiting_same :
      (o : ClaimOptions)
      → select (available o) available_before m none ≡ select (available o) available_before n none
  waiting_same o =
      select-same (available o) available_before available_before-IsOrder m n h.distinct k.distinct
        (λ j. sym (same j)) (λ i j s t p q u v. same_key i j s t p q (available_before-tie s t u v))

  exhausted_same :
      (now : ℕ)
      → select (exhausted now) lease_before m none ≡ select (exhausted now) lease_before n none
  exhausted_same now =
      select-same (exhausted now) lease_before lease_before-IsOrder m n h.distinct k.distinct
        (λ j. sym (same j)) (λ i j s t p q u v. same_key i j s t p q (lease_before-tie s t u v))

-- The answer of a claim depends on the selected tasks alone.
answer_of_claim :
    (o : ClaimOptions) (r w : Option (String × Task)) (s s' : MemoryTaskStore)
    → (claim_selected o r w s).0 ≡ (claim_selected o r w s').0
unfolding claim_selected claim_available grant
answer_of_claim o none none s s' = refl
answer_of_claim o none (some (k, t)) s s' = ground arith
answer_of_claim o (some (k, t)) w s s' = refl

answer_of_expiry :
    (now : ℕ) (r : Option (String × Task)) (s s' : MemoryTaskStore)
    → (fail_selected now r s).0 ≡ (fail_selected now r s').0
unfolding fail_selected fail_expired
answer_of_expiry now none s s' = refl
answer_of_expiry now (some (k, t)) s s' = ground arith

-- Two stores that hold the same tasks, each under its id, but whose entries are met in different
-- orders, give the same answer to a claim and to a cleanup: which task is picked does not depend on
-- the order of the iteration.
pub pick_same :
    (o : ClaimOptions) (now : ℕ) (s s' : MemoryTaskStore)
    → IsKeyed s.tasks
    → IsKeyed s'.tasks
    → ((j : String) → lookup j s'.tasks ≡ lookup j s.tasks)
    → ((claim_next_locked o s).0 ≡ (claim_next_locked o s').0)
      × ((fail_next_expired_locked now s).0 ≡ (fail_next_expired_locked now s').0)
unfolding claim_next_locked fail_next_expired_locked
pick_same o now s s' h k same = (
  rw (recovered_same s.tasks s'.tasks h k same o)
      (rw (waiting_same s.tasks s'.tasks h k same o) (answer_of_claim o _ _ s s')),
  rw (exhausted_same s.tasks s'.tasks h k same now) (answer_of_expiry now _ s s'),
)
