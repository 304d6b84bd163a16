-- ===== src/System/Invariant.antt =====
-- What every effect on the stores keeps true of them.
use taskpulse.Prelude.{
  ℕ, String, ◌≡◌, refl, sym, ap, ◌∙◌, subst, ◌⊎◌, inl, inr, true, some, arith, Assoc, text_eq,
  text_eq_iff, lookup, insert, lookup-insert, lookup-insert_self, Bool-cases, is_some, is_empty,
}
use taskpulse.Task.{Task, is_running}
use taskpulse.Task.WellFormed.{IsWellFormed}
use taskpulse.Task.Legal.{IsLegal}
use taskpulse.Event.{TaskEvent}
use taskpulse.Store.Both.{Stores}
use taskpulse.Store.Events.{record_event}
use taskpulse.Store.Tasks.{index_key, idempotency_index_key}
use taskpulse.Store.Tasks.Claiming.{IsKeyed, IsKeyed-insert}
use taskpulse.Store.Effect.{Effect, idle, change, renew, add, changed, added, renewed, advanced}

-- The stores are sound.
pub record IsSound (s : Stores) : Type 0 where
  pub keyed : IsKeyed s.task_store.tasks
  pub well_formed : (k : String) (t : Task) → lookup k s.task_store.tasks ≡ some t → IsWellFormed t
  -- The index of idempotency keys leads to stored tasks.
  pub indexed :
      (key id : String)
      → lookup key s.task_store.task_ids_by_idempotency_key ≡ some id
      → is_some (lookup id s.task_store.tasks) ≡ true
  -- Every event stands under its id and belongs to a stored task.
  pub recorded :
      (k : String) (e : TaskEvent)
      → lookup k s.event_store.events_by_id ≡ some e
      → (e.id ≡ k) × (is_some (lookup e.task_id s.task_store.tasks) ≡ true)

-- What a map holds after an assignment was there, or is the new value.
lookup-insert-cases :
    {V : Type 0} (k j : String) (v w : V) (m : Assoc V)
    → lookup j (insert k v m) ≡ some w
    → ((k ≡ j) × (w ≡ v)) ⊎ (lookup j m ≡ some w)
lookup-insert-cases k j v w m h = elim (Bool-cases (text_eq k j)) [
  | inl e ↦ inl (ground (arith, text_eq_iff k j), ground (arith, lookup-insert k j v m))
  | inr e ↦ inr (ground (arith, lookup-insert k j v m))
]

-- An assignment removes no key.
lookup-insert-some :
    {V : Type 0} (k j : String) (v : V) (m : Assoc V)
    → is_some (lookup j m) ≡ true
    → is_some (lookup j (insert k v m)) ≡ true
lookup-insert-some k j v m h = ground (arith, lookup-insert k j v m)

-- A task written under its own id keeps the stores sound.
module _ (s : Stores) (h : IsSound s) where
  write-IsWellFormed :
      (k : String) (t : Task)
      → IsWellFormed t
      → (j : String) (u : Task) → lookup j (insert k t s.task_store.tasks) ≡ some u
      → IsWellFormed u
  write-IsWellFormed k t sound j u found =
      elim (lookup-insert-cases k j t u s.task_store.tasks found) [
        | inl (here, same) ↦ subst IsWellFormed (sym same) sound
        | inr there ↦ h.well_formed j u there
      ]

  write-recorded :
      (k : String) (t : Task) (e : TaskEvent)
      → e.task_id ≡ k
      → (j : String) (f : TaskEvent) → lookup j (insert e.id e s.event_store.events_by_id) ≡ some f
      → (f.id ≡ j) × (is_some (lookup f.task_id (insert k t s.task_store.tasks)) ≡ true)
  write-recorded k t e own j f found =
      elim (lookup-insert-cases e.id j e f s.event_store.events_by_id found) [
        | inl (here, same) ↦
            (ap (λ v. v.id) same ∙ here, ground (arith, lookup-insert_self k t s.task_store.tasks))
        | inr there ↦ (
          (h.recorded j f there).0,
          lookup-insert-some k f.task_id t s.task_store.tasks (h.recorded j f there).1,
        )
      ]

  renewed-IsWellFormed :
      (p : Task) (until now : ℕ)
      → is_running p.status ≡ true
      → IsWellFormed p
      → IsWellFormed (record p {
        lease_expires_at = some until;
        last_heartbeat_at = some now;
        updated_at = now;
      })
  renewed-IsWellFormed p until now running w = record {
    unowned = w.unowned;
    unleased = λ stopped. ground arith;
    ended = w.ended;
    begun = w.begun;
    budgeted = w.budgeted;
    progressed = w.progressed;
  }

  advanced-IsWellFormed : (t : Task) → IsWellFormed t → IsWellFormed (advanced t)
  advanced-IsWellFormed t w = record {
    unowned = w.unowned;
    unleased = w.unleased;
    ended = w.ended;
    begun = w.begun;
    budgeted = w.budgeted;
    progressed = w.progressed;
  }

  changed-IsSound :
      (p t : Task) (e : TaskEvent)
      → lookup t.id s.task_store.tasks ≡ some p
      → IsLegal p t
      → e.task_id ≡ t.id
      → IsSound (changed t e s)
  unfolding record_event
  changed-IsSound p t e found legal own = record {
    keyed = IsKeyed-insert t.id (advanced t) s.task_store.tasks refl h.keyed;
    well_formed =
        write-IsWellFormed t.id (advanced t)
          (advanced-IsWellFormed t (legal.sound (h.well_formed t.id p found)));
    indexed = λ key id there.
        lookup-insert-some t.id id (advanced t) s.task_store.tasks (h.indexed key id there);
    recorded = write-recorded t.id (advanced t) e own;
  }

  renewed-IsSound :
      (k : String) (p : Task) (until now : ℕ)
      → lookup k s.task_store.tasks ≡ some p
      → is_running p.status ≡ true
      → IsSound (renewed k p until now s)
  renewed-IsSound k p until now found running = record {
    keyed = IsKeyed-insert k _ s.task_store.tasks (h.keyed.keyed k p found) h.keyed;
    well_formed =
        write-IsWellFormed k _ (renewed-IsWellFormed p until now running (h.well_formed k p found));
    indexed = λ key id there. lookup-insert-some k id _ s.task_store.tasks (h.indexed key id there);
    recorded = λ j f there. (
      (h.recorded j f there).0,
      lookup-insert-some k f.task_id _ s.task_store.tasks (h.recorded j f there).1,
    );
  }

  index_key-indexed :
      (t : Task) (key id : String)
      → lookup key (index_key t s.task_store.task_ids_by_idempotency_key) ≡ some id
      → is_some (lookup id (insert t.id t s.task_store.tasks)) ≡ true
  index_key-indexed t key id there = elim (Bool-cases (is_empty t.idempotency_key)) [
    | inl unkeyed ↦
        lookup-insert-some t.id id t s.task_store.tasks (h.indexed key id (rw unkeyed at there))
    | inr given ↦
        elim (lookup-insert-cases (idempotency_index_key t.workflow t.idempotency_key) key t.id id
          s.task_store.task_ids_by_idempotency_key (rw given at there)) [
            | inl (here, same) ↦ ground (arith, lookup-insert_self t.id t s.task_store.tasks)
            | inr before ↦ lookup-insert-some t.id id t s.task_store.tasks (h.indexed key id before)
          ]
  ]

  added-IsSound :
      (t : Task) (e : TaskEvent) → IsWellFormed t → e.task_id ≡ t.id → IsSound (added t e s)
  unfolding record_event
  added-IsSound t e sound own = record {
    keyed = IsKeyed-insert t.id t s.task_store.tasks refl h.keyed;
    well_formed = write-IsWellFormed t.id t sound;
    indexed = index_key-indexed t;
    recorded = write-recorded t.id t e own;
  }

-- An effect keeps the stores sound.
pub Effect-IsSound : {s s' : Stores} → Effect s s' → IsSound s → IsSound s'
Effect-IsSound {s} {s'} (idle same) h = subst IsSound (sym same) h
Effect-IsSound {s} {s'} (change p t e found legal own fresh same) h =
    subst IsSound (sym same) (changed-IsSound s h p t e found legal own)
Effect-IsSound {s} {s'} (renew k p until now found running same) h =
    subst IsSound (sym same) (renewed-IsSound s h k p until now found running)
Effect-IsSound {s} {s'} (add t e found queued sound own fresh same) h =
    subst IsSound (sym same) (added-IsSound s h t e sound own)
