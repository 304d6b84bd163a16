-- ===== src/Store/Transition/Atomic.antt =====
-- The methods of internal/store/task_transition_store.go change the task and record its event, or
-- change nothing.
use taskpulse.Prelude.{
  ℕ, String, ◌≡◌, refl, sym, ap, ◌∙◌, ◌⊎◌, inl, inr, Option, none, some, arith, text_eq_iff, lookup,
  subst, true, false, insert-restore,
}
use taskpulse.Result.{Error, Result, ok, err, Context, Exec-cases}
use taskpulse.Task.{Task, is_running}
use taskpulse.Task.Legal.{IsLegal}
use taskpulse.Event.{TaskEvent, Json, new_task_claimed_event, new_task_expired_event}
use taskpulse.Task.{ClaimKind}
use taskpulse.Store.Tasks.Claiming.{
  IsKeyed, rekey, IsClaimOutcome, claim_next_locked-IsClaimOutcome,
}
use taskpulse.Store.Tasks.Expiry.{IsExpiryOutcome, fail_next_expired_locked-IsExpiryOutcome}
use taskpulse.Store.Both.{Stores}
use taskpulse.Store.Effect.{changed, IsNewEvent, Effect, idle, change, LastStep, kept, stepped}
use taskpulse.Store.Tasks.{
  MemoryTaskStore, ClaimOptions, Claim, store_task, next_version, claim_next_locked,
  fail_next_expired_locked,
}
use taskpulse.Store.Transition.{
  update_task_with_event, finish_change, claim_finish, expiry_finish, claim_next_with_event,
  fail_next_expired_with_event,
}

update_refused :
    (ctx : Context) (task : Option Task) (event : Option TaskEvent) (s s' : Stores) (x : Error)
    → update_task_with_event ctx task event s ≡ (err x, s')
    → s' ≡ s
unfolding update_task_with_event
update_refused ctx task event s s' x h = ground arith

record IsUpdate (t : Task) (e : TaskEvent) (s s' : Stores) : Type 0 where
  own : e.task_id ≡ t.id
  fresh : IsNewEvent e s
  made : s' ≡ changed t e s

IsUpdate-made :
    (ctx : Context) (t : Task) (e : TaskEvent) (s s' : Stores)
    → update_task_with_event ctx (some t) (some e) s ≡ (ok tt, s')
    → IsUpdate t e s s'
unfolding update_task_with_event
IsUpdate-made ctx t e s s' h = ground (arith, text_eq_iff e.task_id t.id)

-- An update by a legal step of the stored task has its effect, or none.
pub update-Effect :
    (ctx : Context) (p t : Task) (e : TaskEvent) (s : Stores)
    → lookup t.id s.task_store.tasks ≡ some p
    → IsLegal p t
    → Effect s (update_task_with_event ctx (some t) (some e) s).1
update-Effect ctx p t e s found legal =
    elim (Exec-cases (update_task_with_event ctx (some t) (some e) s)) [
      | inl (a, s', h) ↦
          let made = IsUpdate-made ctx t e s s' h in
          rw h (change p t e found legal made.own made.fresh made.made)
      | inr (x, s', h) ↦ rw h (idle (update_refused ctx (some t) (some e) s s' x h))
    ]

-- The same, as the end of the task's claim.
pub update-LastStep :
    (ctx : Context) (p t : Task) (e : TaskEvent) (s : Stores)
    → is_running t.status ≡ false
    → lookup t.id s.task_store.tasks ≡ some p
    → IsLegal p t
    → LastStep t.id s (update_task_with_event ctx (some t) (some e) s).1
update-LastStep ctx p t e s rests found legal =
    elim (Exec-cases (update_task_with_event ctx (some t) (some e) s)) [
      | inl (a, s', h) ↦
          let made = IsUpdate-made ctx t e s s' h in
          rw h (stepped p t e refl rests found legal made.own made.fresh made.made)
      | inr (x, s', h) ↦ rw h (kept (update_refused ctx (some t) (some e) s s' x h))
    ]

-- Every legal step by which this task no longer runs may be written, with one effect or none.
abbrev pub IsWritable : Context → Task → Stores → Type 0
IsWritable ctx p s =
    (t : Task) (e : TaskEvent)
    → is_running t.status ≡ false
    → IsLegal p t
    → LastStep p.id s (update_task_with_event ctx (some t) (some e) s).1

-- A stored task is written so.
pub stored-IsWritable :
    (ctx : Context) (p : Task) (s : Stores)
    → lookup p.id s.task_store.tasks ≡ some p
    → IsWritable ctx p s
stored-IsWritable ctx p s found t e rests legal =
    subst (λ id. LastStep id s (update_task_with_event ctx (some t) (some e) s).1) legal.same_id
      (update-LastStep ctx p t e s rests
        (subst (λ k. lookup k s.task_store.tasks ≡ some p) (sym legal.same_id) found) legal)

-- What `finish_change` is told of the change that was made.
record IsMade (s : Stores) (s1 : MemoryTaskStore) (t p : Task) : Type 0 where
  step : IsLegal p (record t { version = p.version })
  fenced : t.version ≡ next_version p.version
  found : lookup p.id s.task_store.tasks ≡ some p
  written : s1 ≡ store_task t s.task_store

-- With the event the change is made, and without it everything is as before.
finish_change-Effect :
    (s : Stores) (s1 : MemoryTaskStore) (t p : Task) (event : Result TaskEvent)
    → IsMade s s1 t p
    → ((e : TaskEvent) → event ≡ ok e → (e.task_id ≡ t.id) × IsNewEvent e s)
    → Effect s (finish_change t p event (record s { task_store = s1 })).1
unfolding finish_change
finish_change-Effect s s1 t p (err x) m fresh =
    idle (ground (arith, insert-restore p.id p t s.task_store.tasks))
finish_change-Effect s s1 t p (ok e) m fresh =
    change p (record t { version = p.version }) e
      (subst (λ k. lookup k s.task_store.tasks ≡ some p) (sym m.step.same_id) m.found) m.step
      (fresh e refl).0 (fresh e refl).1 (ground arith)

event_of_claim :
    (json : Json) (id : String) (t : Task) (kind : ClaimKind) (now : ℕ) (e : TaskEvent)
    → new_task_claimed_event json id (some t) kind now ≡ ok e
    → (e.task_id ≡ t.id) × (e.id ≡ id)
unfolding new_task_claimed_event
event_of_claim json id t kind now e h = ground arith

event_of_expiry :
    (id : String) (t : Task) (now : ℕ) (e : TaskEvent)
    → new_task_expired_event id (some t) now ≡ ok e
    → (e.task_id ≡ t.id) × (e.id ≡ id)
unfolding new_task_expired_event
event_of_expiry id t now e h = ground arith

claim_finish-Effect :
    (json : Json) (o : ClaimOptions) (id : String) (s : Stores)
    (out : Result Claim × MemoryTaskStore)
    → lookup id s.event_store.events_by_id ≡ none
    → IsClaimOutcome o s.task_store out
    → Effect s (claim_finish json o id out s).1
unfolding claim_finish
claim_finish-Effect json o id s (err x, s1) fresh (e, same, idle_tasks) =
    idle (ap (λ ts. record s { task_store = ts }) same)
claim_finish-Effect json o id s (ok (t, p, kind), s1) fresh c =
    finish_change-Effect s s1 t p (new_task_claimed_event json id (some t) kind o.now)
      (record {
        step = c.step;
        fenced = c.leased.fenced;
        found = c.found;
        written = c.written ∙ rekey s.task_store t p.id t.id (sym c.leased.same_id);
      })
      (λ e h. (
        (event_of_claim json id t kind o.now e h).0,
        subst (λ k. lookup k s.event_store.events_by_id ≡ none)
            (sym (event_of_claim json id t kind o.now e h).1) fresh,
      ))

expiry_finish-Effect :
    (now : ℕ) (id : String) (s : Stores) (out : Result (Task × Task) × MemoryTaskStore)
    → lookup id s.event_store.events_by_id ≡ none
    → IsExpiryOutcome now s.task_store out
    → Effect s (expiry_finish now id out s).1
unfolding expiry_finish
expiry_finish-Effect now id s (err x, s1) fresh (e, same, idle_tasks) =
    idle (ap (λ ts. record s { task_store = ts }) same)
expiry_finish-Effect now id s (ok (t, p), s1) fresh c =
    finish_change-Effect s s1 t p (new_task_expired_event id (some t) now)
      (record {
        step = c.step;
        fenced = c.fenced;
        found = c.found;
        written = c.written ∙ rekey s.task_store t p.id t.id (sym c.same_id);
      })
      (λ e h. (
        (event_of_expiry id t now e h).0,
        subst (λ k. lookup k s.event_store.events_by_id ≡ none)
            (sym (event_of_expiry id t now e h).1) fresh,
      ))

claim_guarded :
    (json : Json) (ctx : Context) (o : ClaimOptions) (id : String) (s : Stores)
    → ((lookup id s.event_store.events_by_id ≡ none)
        × (claim_next_with_event json ctx o id s
            ≡ claim_finish json o id (claim_next_locked o s.task_store) s))
      ⊎ ((claim_next_with_event json ctx o id s).1 ≡ s)
unfolding claim_next_with_event
claim_guarded json ctx o id s = ground arith

pub expiry_guarded :
    (ctx : Context) (now : ℕ) (id : String) (s : Stores)
    → ((lookup id s.event_store.events_by_id ≡ none)
        × (fail_next_expired_with_event ctx now id s
            ≡ expiry_finish now id (fail_next_expired_locked now s.task_store) s))
      ⊎ ((fail_next_expired_with_event ctx now id s).1 ≡ s)
unfolding fail_next_expired_with_event
expiry_guarded ctx now id s = ground arith

-- A claim with its event is one effect, or changes nothing.
pub claim_next_with_event-Effect :
    (json : Json) (ctx : Context) (o : ClaimOptions) (id : String) (s : Stores)
    → IsKeyed s.task_store.tasks
    → Effect s (claim_next_with_event json ctx o id s).1
claim_next_with_event-Effect json ctx o id s h = elim (claim_guarded json ctx o id s) [
  | inl (fresh, e) ↦ rw e (
      claim_finish-Effect json o id s (claim_next_locked o s.task_store) fresh
        (claim_next_locked-IsClaimOutcome o s.task_store h))
  | inr e ↦ idle e
]

claim_made :
    (json : Json) (ctx : Context) (o : ClaimOptions) (id : String) (s s' : Stores) (t : Task)
    → claim_next_with_event json ctx o id s ≡ (ok t, s')
    → claim_finish json o id (claim_next_locked o s.task_store) s ≡ (ok t, s')
unfolding claim_next_with_event
claim_made json ctx o id s s' t h = ground arith

finish_change-made :
    (t u p : Task) (event : Result TaskEvent) (s s' : Stores)
    → finish_change u p event s ≡ (ok t, s')
    → (t ≡ u) × (s'.task_store ≡ s.task_store)
unfolding finish_change
finish_change-made t u p (ok e) s s' h = (ground arith, ground arith)
finish_change-made t u p (err x) s s' h = cc

claim_finish-stored :
    (json : Json) (o : ClaimOptions) (id : String) (s s' : Stores) (t : Task)
    (out : Result Claim × MemoryTaskStore)
    → IsClaimOutcome o s.task_store out
    → claim_finish json o id out s ≡ (ok t, s')
    → (lookup t.id s'.task_store.tasks ≡ some t) × (is_running t.status ≡ true)
unfolding claim_finish
claim_finish-stored json o id s s' t (err x, s1) c h = cc
claim_finish-stored json o id s s' t (ok (u, p, kind), s1) c h =
    let (same, tasks) = finish_change-made t u p _ (record s { task_store = s1 }) s' h in
    let key : t.id ≡ p.id = ap (λ v. v.id) same ∙ c.leased.same_id in
    (
      subst (λ k. lookup k s'.task_store.tasks ≡ some t) (sym key)
          (subst (λ ts. lookup p.id ts.tasks ≡ some t) (sym tasks) (c.stored ∙ ap some (sym same))),
      rw same c.leased.runs,
    )

-- The claimed task is stored and runs.
pub claim_next_with_event-stored :
    (json : Json) (ctx : Context) (o : ClaimOptions) (id : String) (s s' : Stores) (t : Task)
    → IsKeyed s.task_store.tasks
    → claim_next_with_event json ctx o id s ≡ (ok t, s')
    → (lookup t.id s'.task_store.tasks ≡ some t) × (is_running t.status ≡ true)
claim_next_with_event-stored json ctx o id s s' t h made =
    claim_finish-stored json o id s s' t (claim_next_locked o s.task_store)
      (claim_next_locked-IsClaimOutcome o s.task_store h) (claim_made json ctx o id s s' t made)

pub fail_next_expired_with_event-Effect :
    (ctx : Context) (now : ℕ) (id : String) (s : Stores)
    → IsKeyed s.task_store.tasks
    → Effect s (fail_next_expired_with_event ctx now id s).1
fail_next_expired_with_event-Effect ctx now id s h = elim (expiry_guarded ctx now id s) [
  | inl (fresh, e) ↦ rw e (
      expiry_finish-Effect now id s (fail_next_expired_locked now s.task_store) fresh
        (fail_next_expired_locked-IsExpiryOutcome now s.task_store h))
  | inr e ↦ idle e
]
