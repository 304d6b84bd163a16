-- ===== src/System/Processing.antt =====
-- `ProcessNext` of internal/worker/worker.go as a whole, with its heartbeats.
use taskpulse.Prelude.{
  ℕ, ◌+◌, ◌^◌, ◌<◌, ◌≤◌, String, ◌≡◌, refl, sym, ◌∙◌, ◌≢◌, ap, Bool, true, false, some, none,
  Option, List, [], ◌∷◌, inl, inr, arith, lookup, is_some, Bool-cases,
}
use taskpulse.Result.{Result, ok, err, Error, Context, Exec, Exec-cases, continue}
use taskpulse.Task.{Task, is_running}
use taskpulse.Event.{Json}
use taskpulse.Store.Both.{Stores, on_tasks}
use taskpulse.Store.Tasks.{RenewLeaseOptions, renew_lease}
use taskpulse.Store.Effect.{Effect, LastStep, LastStep-Effect}
use taskpulse.Store.Transition.{claim_next_with_event}
use taskpulse.Store.Transition.Atomic.{
  stored-IsWritable, claim_next_with_event-Effect, claim_next_with_event-stored,
}
use taskpulse.Application.WorkerTasks.Operations.Leased.{renew_lease-Effect}
use taskpulse.Worker.Processing.{
  worker_options, offered, Worker, Finishing, Executed, Tick, after_renewal, maintain_lease,
  claim_for_worker, process_claimed, process_next,
}
use taskpulse.Worker.Processing.Finish.{plain_failure-LastStep}
use taskpulse.System.Invariant.{IsSound, Effect-IsSound}
use taskpulse.System.Working.{
  Effects, nothing, then, effects, Effects-IsSound, late_finish-LastStep,
}

pub joined : {s s' s'' : Stores} → Effects s s' → Effects s' s'' → Effects s s''
joined es nothing = es
joined es (then fs e) = then (joined es fs) e

after_renewal-Effects :
    (done : Bool) (s : Stores) (out : Result (Unit {0}) × Stores)
    (rest : Exec Stores (Option Error))
    → Effects s out.1
    → ((s' : Stores) → Effects s' (rest s').1)
    → Effects s (after_renewal done out.0 rest out.1).1
after_renewal-Effects done s (ok u, s') rest es more = joined es (more s')
after_renewal-Effects true s (err e, s') rest es more = es
after_renewal-Effects false s (err e, s') rest es more = es

-- A heartbeat of the worker is one renewal, and nothing follows the first that fails.
maintain_lease-Effects :
    (w : Worker) (t : Task) (ticks : List Tick) (s : Stores)
    → Effects s (maintain_lease w t ticks s).1
unfolding maintain_lease
maintain_lease-Effects w t [] s = nothing
maintain_lease-Effects w t (tick ∷ ticks) s =
    let o : RenewLeaseOptions = record {
      task_id = t.id;
      worker_id = w.id;
      now = tick.now;
      lease_duration = w.lease_duration;
    } in
    after_renewal-Effects (is_some tick.context_after) s (on_tasks (renew_lease tick.context o) s)
      (maintain_lease w t ticks) (then nothing (renew_lease-Effect tick.context o s))
      (maintain_lease-Effects w t ticks)

paired : {A B : Type 0} {a : A} (out : A × B) → out.0 ≡ a → out ≡ (a, out.1)
paired (x, s) e = ap (λ y. (y, s)) e

not_claimed :
    (x : Error) (s : Stores) (t : Task) (u : Stores)
    → ◌≢◌ {A = Result (Option Task) × Stores} (err x, s) (ok (some t), u)
not_claimed x s t u e = cc

none_claimed :
    (s : Stores) (t : Task) (u : Stores)
    → ◌≢◌ {A = Result (Option Task) × Stores} (ok none, s) (ok (some t), u)
none_claimed s t u e = cc

not_offered : (x : Error) (t : Task) → offered (err x) ≢ ok (some t)
not_offered x t h = ground arith

module _ (json : Json) (int63n : ℕ → ℕ) (w : Worker) (ctx : Context) (f : Finishing) where
  claim_for_worker-Effect :
      (now : ℕ) (event_id : String) (s : Stores)
      → IsSound s
      → Effect s (claim_for_worker json int63n w ctx f now event_id s).1
  unfolding claim_for_worker
  claim_for_worker-Effect now event_id s h =
      claim_next_with_event-Effect json ctx (worker_options w now) event_id s h.keyed

  claim_for_worker-stored :
      (now : ℕ) (event_id : String) (s s' : Stores) (t : Task)
      → IsSound s
      → claim_for_worker json int63n w ctx f now event_id s ≡ (ok (some t), s')
      → (lookup t.id s'.task_store.tasks ≡ some t) × (is_running t.status ≡ true)
  unfolding claim_for_worker
  claim_for_worker-stored now event_id s s' t h made =
      elim (Exec-cases (claim_next_with_event json ctx (worker_options w now) event_id s)) [
        | inl (u, s1, e) ↦
            let same : (ok (some u), s1) ≡ (ok (some t), s') = rw e at made in
            claim_next_with_event-stored json ctx (worker_options w now) event_id s s' t h.keyed
              (e ∙ cc same)
        | inr (x, s1, e) ↦ absurd (not_offered x t (ap (λ out. out.0) (rw e at made)))
      ]

  -- What one round does from `s` on: it claims nothing and ends with the claim; or it claims a task,
  -- and then, if its workflow has an executor, executes it and takes the last step, and else takes the
  -- last step at once.
  module _ (execution : Task → Stores → Executed × Stores) (now : ℕ) (event_id : String)
      (s : Stores) where
    pub data IsRound (s' : Stores) : Type 0 where
      unclaimed :
          Effect s s'
          → ((t : Task) (s1 : Stores)
              → claim_for_worker json int63n w ctx f now event_id s ≢ (ok (some t), s1))
          → IsRound s'
      without_executor :
          (t : Task) (s1 : Stores)
          → claim_for_worker json int63n w ctx f now event_id s ≡ (ok (some t), s1)
          → is_some (lookup t.workflow w.known) ≡ false
          → Effect s s1
          → LastStep t.id s1 s'
          → IsRound s'
      executed :
          (t : Task) (s1 : Stores)
          → claim_for_worker json int63n w ctx f now event_id s ≡ (ok (some t), s1)
          → is_some (lookup t.workflow w.known) ≡ true
          → Effect s s1
          → Effects s1 (execution t s1).1
          → LastStep t.id (execution t s1).1 s'
          → IsRound s'

    pub IsRound-Effects : {s' : Stores} → IsRound s' → Effects s s'
    IsRound-Effects (unclaimed e no_task) = then nothing e
    IsRound-Effects (without_executor t s1 m k e l) = then (then nothing e) (LastStep-Effect l)
    IsRound-Effects (executed t s1 m k e es l) =
        then (joined (then nothing e) es) (LastStep-Effect l)

  module _ (n : ℕ) (execution : Task → Stores → Executed × Stores) (retry_at : ℕ)
      (retry_id : String)
      (busy : (t : Task) (u : Stores)
        → IsSound u
        → (es : Effects u (execution t u).1) × (effects es ≤ n))
      (now : ℕ) (event_id : String) (s : Stores) (h : IsSound s) where
    claimed-IsRound :
        (t : Task) (s1 : Stores)
        → claim_for_worker json int63n w ctx f now event_id s ≡ (ok (some t), s1)
        → Effect s s1
        → t.version + n < 2 ^ 64
        → IsRound execution now event_id s
            (process_claimed json int63n w ctx f (some t) execution retry_at retry_id s1).1
    unfolding process_claimed
    claimed-IsRound t s1 made e small =
        let (found, running) = claim_for_worker-stored now event_id s s1 t h made in
        let sound = Effect-IsSound e h in
        elim (Bool-cases (is_some (lookup t.workflow w.known))) [
          | inl known ↦
              let (es, few) = busy t s1 sound in
              rw known (
                executed t s1 made known e es (
                  (late_finish-LastStep json int63n w ctx f es t sound found running
                    (omega (arith, few, small)) retry_at retry_id (execution t s1).0).0))
          | inr unknown ↦ rw unknown (
              without_executor t s1 made unknown e
                (plain_failure-LastStep ctx f t s1 (stored-IsWritable ctx t s1 found) running _))
        ]

    followed-IsRound :
        (out : Result (Option Task) × Stores)
        → claim_for_worker json int63n w ctx f now event_id s ≡ out
        → Effect s out.1
        → ((t : Task) → out.0 ≡ ok (some t) → t.version + n < 2 ^ 64)
        → IsRound execution now event_id s
            (continue out.0
              (λ o. process_claimed json int63n w ctx f o execution retry_at retry_id)
              out.1).1
    unfolding process_claimed
    followed-IsRound (err x, s1) made e small =
        unclaimed e (λ t u same. not_claimed x s1 t u (sym made ∙ same))
    followed-IsRound (ok none, s1) made e small =
        unclaimed e (λ t u same. none_claimed s1 t u (sym made ∙ same))
    followed-IsRound (ok (some t), s1) made e small = claimed-IsRound t s1 made e (small t refl)

-- In sound stores one round of a worker inside the server is a claim that gets no task; or it is a
-- claim that gets one, then the execution, if the workflow has an executor, and then one legal step
-- by which that task no longer runs, with its event, or no change. The stores stay sound. The
-- execution is anything that makes at most `n` effects, as heartbeats and the operations of others
-- do, and the version of no task is so close to its end that it wraps.
pub process_next-IsRound :
    (json : Json) (int63n : ℕ → ℕ) (w : Worker) (ctx : Context) (f : Finishing) (n : ℕ)
    (execution : Task → Stores → Executed × Stores) (retry_at : ℕ) (retry_id : String) (now : ℕ)
    (event_id : String) (s : Stores)
    → IsSound s
    → ((t : Task) (u : Stores) → IsSound u → (es : Effects u (execution t u).1) × (effects es ≤ n))
    → ((k : String) (t : Task)
        → lookup k (claim_for_worker json int63n w ctx f now event_id s).1.task_store.tasks ≡ some t
        → t.version + n < 2 ^ 64)
    → let s' = (process_next json int63n w ctx f now event_id execution retry_at retry_id s).1 in
      IsRound json int63n w ctx f execution now event_id s s' × IsSound s'
unfolding process_next
process_next-IsRound json int63n w ctx f n execution retry_at retry_id now event_id s h busy small =
    let claim = claim_for_worker json int63n w ctx f now event_id s in
    let round =
      followed-IsRound json int63n w ctx f n execution retry_at retry_id busy now event_id s h claim
        refl (claim_for_worker-Effect json int63n w ctx f now event_id s h)
        (λ t given.
          small t.id t
            (claim_for_worker-stored json int63n w ctx f now event_id s claim.1 t h
              (paired claim given)).0) in
    (round, Effects-IsSound (IsRound-Effects json int63n w ctx f execution now event_id s round) h)
