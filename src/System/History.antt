-- ===== src/System/History.antt =====
-- What an effect on the stores leaves of a stored task: a task is never removed, its request never
-- changes, and once its status is final nothing of it changes.
use taskpulse.Prelude.{
  ℕ, String, ◌≡◌, refl, sym, ap, ◌∙◌, subst, inl, inr, true, some, arith, Assoc, text_eq,
  text_eq_iff, lookup, insert, lookup-insert, Bool-cases,
}
use taskpulse.Task.{Task, is_running, terminal_statuses}
use taskpulse.Task.Legal.{IsLegal}
use taskpulse.Event.{TaskEvent}
use taskpulse.Store.Both.{Stores}
use taskpulse.Store.Events.{record_event}
use taskpulse.Store.Effect.{Effect, idle, change, renew, add, advanced}

-- What may become of a stored task in one effect: nothing, or, of a live task only, a change under
-- the next version, or a renewal of the lease of a running task under the same version.
pub data IsSuccessor (p : Task) : Task → Type 0 where
  kept : IsSuccessor p p
  stepped : (t : Task) → IsLegal p t → IsSuccessor p (advanced t)
  beaten :
      (until now : ℕ)
      → is_running p.status ≡ true
      → IsSuccessor p (record p {
        lease_expires_at = some until;
        last_heartbeat_at = some now;
        updated_at = now;
      })

-- The successor of the task that is stored under `k`.
pub record IsFollowed (k : String) (p : Task) (m : Assoc Task) : Type 0 where
  pub now : Task
  pub stored : lookup k m ≡ some now
  pub follows : IsSuccessor p now

pub final_follows : (p u : Task) → terminal_statuses p.status ≡ true → IsSuccessor p u → u ≡ p
unfolding terminal_statuses
final_follows p u final kept = refl
final_follows p u final (stepped t legal) = ground (arith, legal.live)
final_follows p u final (beaten until now running) = ground arith

-- A write of a successor under its key.
write-IsFollowed :
    (k j : String) (p q u : Task) (m : Assoc Task)
    → lookup k m ≡ some p
    → lookup j m ≡ some q
    → IsSuccessor q u
    → IsFollowed k p (insert j u m)
write-IsFollowed k j p q u m found there step = elim (Bool-cases (text_eq j k)) [
  | inl same ↦ record {
    now = u;
    stored = ground (arith, lookup-insert j k u m);
    follows = subst (λ v. IsSuccessor v u) (stored_once same) step;
  }
  | inr other ↦ record { now = p; stored = ground (arith, lookup-insert j k u m); follows = kept }
]
  where
    stored_once : text_eq j k ≡ true → q ≡ p
    stored_once same = ground (arith, text_eq_iff j k)

pub Effect-IsFollowed :
    {s s' : Stores}
    → Effect s s'
    → (k : String) (p : Task) → lookup k s.task_store.tasks ≡ some p
    → IsFollowed k p s'.task_store.tasks
Effect-IsFollowed {s} {s'} (idle same) k p found = record {
  now = p;
  stored = ap (λ u. lookup k u.task_store.tasks) same ∙ found;
  follows = kept;
}
Effect-IsFollowed {s} {s'} (change q t e there legal own fresh same) k p found =
    subst (λ u. IsFollowed k p u.task_store.tasks) (sym same)
      (write-IsFollowed k t.id p q (advanced t) s.task_store.tasks found there (stepped t legal))
Effect-IsFollowed {s} {s'} (renew j q until now there running same) k p found =
    subst (λ u. IsFollowed k p u.task_store.tasks) (sym same)
      (write-IsFollowed k j p q _ s.task_store.tasks found there (beaten until now running))
Effect-IsFollowed {s} {s'} (add t e missing queued sound own fresh same) k p found =
    subst (λ u. IsFollowed k p u.task_store.tasks) (sym same)
      (record { now = p; stored = still; follows = kept })
  where
    still : lookup k (insert t.id t s.task_store.tasks) ≡ some p
    still = ground (arith, lookup-insert t.id k t s.task_store.tasks, text_eq_iff t.id k)

-- An event once recorded stays as it is.
pub Effect-recorded :
    {s s' : Stores}
    → Effect s s'
    → (k : String) (f : TaskEvent) → lookup k s.event_store.events_by_id ≡ some f
    → lookup k s'.event_store.events_by_id ≡ some f
unfolding record_event
Effect-recorded {s} {s'} (idle same) k f found =
    ap (λ u. lookup k u.event_store.events_by_id) same ∙ found
Effect-recorded {s} {s'} (change p t e there legal own fresh same) k f found =
    ap (λ u. lookup k u.event_store.events_by_id) same ∙ unchanged
  where
    unchanged : lookup k (insert e.id e s.event_store.events_by_id) ≡ some f
    unchanged =
        ground (arith, lookup-insert e.id k e s.event_store.events_by_id, text_eq_iff e.id k)
Effect-recorded {s} {s'} (renew j p until now there running same) k f found =
    ap (λ u. lookup k u.event_store.events_by_id) same ∙ found
Effect-recorded {s} {s'} (add t e missing queued sound own fresh same) k f found =
    ap (λ u. lookup k u.event_store.events_by_id) same ∙ unchanged
  where
    unchanged : lookup k (insert e.id e s.event_store.events_by_id) ≡ some f
    unchanged =
        ground (arith, lookup-insert e.id k e s.event_store.events_by_id, text_eq_iff e.id k)
