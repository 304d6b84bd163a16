-- ===== src/Store/Transition/Spared.antt =====
-- What a cleanup of internal/store/task_transition_store.go does not touch.
use taskpulse.Prelude.{
  ℕ, String, ◌≡◌, ◌≢◌, sym, ◌∙◌, inl, inr, some, arith, false, text_eq_iff, lookup, lookup-insert,
  subst,
}
use taskpulse.Result.{Result, ok, err, Context}
use taskpulse.Task.{Task}
use taskpulse.Event.{TaskEvent}
use taskpulse.Store.Tasks.{MemoryTaskStore, exhausted, fail_next_expired_locked}
use taskpulse.Store.Tasks.Claiming.{IsKeyed}
use taskpulse.Store.Tasks.Expiry.{IsExpiryOutcome, fail_next_expired_locked-IsExpiryOutcome}
use taskpulse.Store.Both.{Stores}
use taskpulse.Store.Transition.{finish_change, expiry_finish, fail_next_expired_with_event}
use taskpulse.Store.Transition.Atomic.{expiry_guarded}

module _ (k : String) (t : Task) where
  finish_change-spares :
      (u p : Task) (event : Result TaskEvent) (s : Stores)
      → k ≢ p.id
      → lookup k s.task_store.tasks ≡ some t
      → lookup k (finish_change u p event s).1.task_store.tasks ≡ some t
  unfolding finish_change
  finish_change-spares u p (ok e) s other there = there
  finish_change-spares u p (err x) s other there =
      ground (arith, lookup-insert p.id k p s.task_store.tasks, text_eq_iff p.id k, there)

  expiry_finish-spares :
      (now : ℕ) (id : String) (s : Stores) (out : Result (Task × Task) × MemoryTaskStore)
      → IsExpiryOutcome now s.task_store out
      → exhausted now t ≡ false
      → lookup k s.task_store.tasks ≡ some t
      → lookup k (expiry_finish now id out s).1.task_store.tasks ≡ some t
  unfolding expiry_finish
  expiry_finish-spares now id s (err x, s1) (e, same, idle) lives there =
      subst (λ v. lookup k v.tasks ≡ some t) (sym same) there
  expiry_finish-spares now id s (ok (u, p), s1) h lives there =
      let other : k ≢ p.id = λ same. ground (arith, h.picked.qualified, h.found, there, same) in
      finish_change-spares u p _ (record s { task_store = s1 }) other (h.others k other ∙ there)

  -- A cleanup leaves a task as it is whose lease lasts or that has a retry left.
  pub fail_next_expired_with_event-spares :
      (ctx : Context) (now : ℕ) (id : String) (s : Stores)
      → IsKeyed s.task_store.tasks
      → exhausted now t ≡ false
      → lookup k s.task_store.tasks ≡ some t
      → lookup k (fail_next_expired_with_event ctx now id s).1.task_store.tasks ≡ some t
  fail_next_expired_with_event-spares ctx now id s h lives there =
      elim (expiry_guarded ctx now id s) [
        | inl (fresh, e) ↦ rw e (
            expiry_finish-spares now id s (fail_next_expired_locked now s.task_store)
              (fail_next_expired_locked-IsExpiryOutcome now s.task_store h) lives there)
        | inr e ↦ subst (λ v. lookup k v.task_store.tasks ≡ some t) (sym e) there
      ]
