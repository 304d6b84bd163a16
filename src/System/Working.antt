-- ===== src/System/Working.antt =====
-- The worker of internal/worker/worker.go among the other operations on the stores: it holds a copy
-- of the task that it claimed, while anything may happen to the stored one.
use taskpulse.Prelude.{
  ℕ, ◌+◌, ◌^◌, ◌<◌, String, ◌≡◌, refl, sym, ◌∙◌, true, false, some, inl, inr, arith, lookup, ◌==◌,
  subst, false, Bool-cases,
}
use taskpulse.Result.{Context, lease_lost}
use taskpulse.Task.{Task, is_running}
use taskpulse.Task.WellFormed.{IsWellFormed}
use taskpulse.Task.Legal.{IsLegal}
use taskpulse.Event.{Json, TaskEvent}
use taskpulse.Store.Both.{Stores}
use taskpulse.Store.Effect.{Effect, LastStep, kept}
use taskpulse.Store.Transition.{update_task_with_event}
use taskpulse.Store.Transition.Atomic.{IsWritable, update-LastStep}
use taskpulse.Worker.Processing.{
  Worker, Finishing, Executed, not_executed, heartbeat_failed, finish,
}
use taskpulse.Worker.Processing.Finish.{finish-LastStep}
use taskpulse.System.Invariant.{IsSound, Effect-IsSound}
use taskpulse.System.History.{Effect-IsFollowed}
use taskpulse.System.Runs.{IsSameRequest, successor-IsSameRequest}
use taskpulse.System.Fencing.{IsSameClaim, IsTracked, IsTracked-step}

-- What happens to the stores, one effect after another.
pub data Effects (s : Stores) : Stores → Type 0 where
  nothing : Effects s s
  then : {s' s'' : Stores} → Effects s s' → Effect s' s'' → Effects s s''

-- The number of effects.
abbrev pub effects : {s s' : Stores} → Effects s s' → ℕ
effects nothing = 0
effects (then es e) = effects es + 1

pub Effects-IsSound : {s s' : Stores} → Effects s s' → IsSound s → IsSound s'
Effects-IsSound nothing h = h
Effects-IsSound (then es e) h = Effect-IsSound e (Effects-IsSound es h)

-- What became of the task that was stored under `k`.
record IsHeld (k : String) (p : Task) (n : ℕ) (s : Stores) : Type 0 where
  task : Task
  stored : lookup k s.task_store.tasks ≡ some task
  tracked : IsTracked p task n
  asked : IsSameRequest p task

effects-IsHeld :
    {s s' : Stores} (es : Effects s s') (k : String) (p : Task)
    → lookup k s.task_store.tasks ≡ some p
    → p.version + effects es < 2 ^ 64
    → IsHeld k p (effects es) s'
effects-IsHeld nothing k p found small = record {
  task = p;
  stored = found;
  tracked = record {
    within = omega arith;
    moved = inl (record {
      same_version = refl;
      same_status = refl;
      same_owner = refl;
      same_retries = refl;
      same_progress = refl;
      same_result = refl;
      same_error = refl;
      same_start = refl;
    });
  };
  asked = record {
    same_id = refl;
    same_key = refl;
    same_workflow = refl;
    same_input = refl;
    same_budget = refl;
    same_creation = refl;
  };
}
effects-IsHeld (then es e) k p found small =
    let before = effects-IsHeld es k p found (omega arith) in
    let f = Effect-IsFollowed e k before.task before.stored in
    record {
      task = f.now;
      stored = f.stored;
      tracked = IsTracked-step p before.task f.now (effects es) small before.tracked f.follows;
      asked = successor-IsSameRequest p before.task f.now before.asked f.follows;
    }

-- A step of the held copy is a step of the stored task, as long as at most its lease was renewed.
held_IsLegal :
    (p q t : Task)
    → IsWellFormed p
    → IsSameClaim p q
    → IsSameRequest p q
    → IsLegal p t
    → IsLegal q t
held_IsLegal p q t w claim asked legal = record {
  live = rw claim.same_status legal.live;
  same_id = legal.same_id ∙ sym asked.same_id;
  same_version = legal.same_version ∙ sym claim.same_version;
  same_key = legal.same_key ∙ sym asked.same_key;
  same_workflow = legal.same_workflow ∙ sym asked.same_workflow;
  same_input = legal.same_input ∙ sym asked.same_input;
  same_budget = legal.same_budget ∙ sym asked.same_budget;
  same_creation = legal.same_creation ∙ sym asked.same_creation;
  sound = λ _. legal.sound w;
}

-- An update of a task that is stored under another version is refused.
update_outdated :
    (ctx : Context) (q t : Task) (e : TaskEvent) (s : Stores)
    → lookup t.id s.task_store.tasks ≡ some q
    → (q.version == t.version) ≡ false
    → (update_task_with_event ctx (some t) (some e) s).1 ≡ s
unfolding update_task_with_event
update_outdated ctx q t e s found other = ground arith

held-IsWritable :
    (ctx : Context) {s s' : Stores} (es : Effects s s') (p : Task)
    → IsSound s
    → lookup p.id s.task_store.tasks ≡ some p
    → p.version + effects es < 2 ^ 64
    → IsWritable ctx p s'
held-IsWritable ctx {s} {s'} es p h found small t e rests legal =
    let held = effects-IsHeld es p.id p found small in
    let q = held.task in
    let there : lookup t.id s'.task_store.tasks ≡ some q = rw legal.same_id held.stored in
    elim (Bool-cases (q.version == t.version)) [
      | inr other ↦ kept (update_outdated ctx q t e s' there other)
      | inl same ↦ elim held.tracked.moved [
        | inr beyond ↦ absurd (ground (arith, same, legal.same_version))
        | inl claim ↦
            subst (λ id. LastStep id s' (update_task_with_event ctx (some t) (some e) s').1)
              legal.same_id
              (update-LastStep ctx q t e s' rests there
                (held_IsLegal p q t (h.well_formed p.id p found) claim held.asked legal))
      ]
    ]

-- The worker ends a task with the copy of it that it claimed, in sound stores. Whatever happened to the
-- stores since, its own heartbeats and the operations of others, and whatever the executor gave: the
-- end changes nothing, or it writes one legal step of that very task, by which it no longer runs,
-- under its next version together with one new event of it. Where the heartbeats lost the lease it
-- changes nothing. The version of the task does not wrap meanwhile.
pub late_finish-LastStep :
    (json : Json) (int63n : ℕ → ℕ) (w : Worker) (ctx : Context) (f : Finishing) {s s' : Stores}
    (es : Effects s s') (p : Task)
    → IsSound s
    → lookup p.id s.task_store.tasks ≡ some p
    → is_running p.status ≡ true
    → p.version + effects es < 2 ^ 64
    → (retry_at : ℕ) (retry_id : String) (r : Executed)
    → LastStep p.id s' (finish json int63n w ctx f p retry_at retry_id r s').1
      × ((text : String)
          → r ≡ not_executed (heartbeat_failed lease_lost text)
          → (finish json int63n w ctx f p retry_at retry_id r s').1 ≡ s')
unfolding finish
late_finish-LastStep json int63n w ctx f {s} {s'} es p h found running small retry_at retry_id r = (
  finish-LastStep ctx f p s' (held-IsWritable ctx es p h found small) running json int63n w retry_at
      retry_id r,
  λ text lost. rw lost refl,
)
