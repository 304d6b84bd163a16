-- ===== src/System/Fencing.antt =====
-- The fence that internal/application/worker_task_service.go builds of versions and tokens: while a
-- token is accepted, nobody else has touched the task.
use taskpulse.Prelude.{
  ℕ, ◌+◌, ◌^◌, ◌≤◌, ◌<◌, String, ◌≡◌, refl, ◌∙◌, subst, ◌⊎◌, inl, inr, some, arith, lookup,
}
use taskpulse.Result.{ok, Context, Result-cases, Exec-cases}
use taskpulse.Task.{Task}
use taskpulse.Store.Both.{Stores}
use taskpulse.Store.Tasks.{get}
use taskpulse.Application.Codec.{Codec, LeaseTokenPayload}
use taskpulse.Application.WorkerTasks.Tokens.{
  token_payload, resolve_lease_version, prepare_running_task,
}
use taskpulse.Application.WorkerTasks.Operations.{leased_task}
use taskpulse.Application.WorkerTasks.Operations.Leased.{leased_ok}
use taskpulse.System.{Run, start, next}
use taskpulse.System.Invariant.{IsSound}
use taskpulse.System.History.{IsSuccessor, kept, stepped, beaten, Effect-IsFollowed}
use taskpulse.System.Runs.{perform-Effect, run-IsSound}

-- The number of operations of a run.
abbrev pub operations : {codec : Codec} {s s' : Stores} → Run codec s s' → ℕ
operations start = 0
operations (next r ctx o) = operations r + 1

-- The same claim of the task: at most its lease was renewed.
pub record IsSameClaim (p t : Task) : Type 0 where
  pub same_version : t.version ≡ p.version
  pub same_status : t.status ≡ p.status
  pub same_owner : t.lease_owner ≡ p.lease_owner
  pub same_retries : t.retry_count ≡ p.retry_count
  pub same_progress : t.progress ≡ p.progress
  pub same_result : t.result ≡ p.result
  pub same_error : t.error_message ≡ p.error_message
  pub same_start : t.started_at ≡ p.started_at

-- The task `n` operations later: the same claim, or a later version.
pub record IsTracked (p t : Task) (n : ℕ) : Type 0 where
  pub within : t.version ≤ p.version + n
  pub moved : IsSameClaim p t ⊎ (p.version < t.version)

pub IsTracked-step :
    (p t u : Task) (n : ℕ)
    → p.version + (n + 1) < 2 ^ 64
    → IsTracked p t n
    → IsSuccessor t u
    → IsTracked p u (n + 1)
IsTracked-step p t u n small h kept = record { within = omega (arith, h.within); moved = h.moved }
IsTracked-step p t u n small h (stepped v legal) = record {
  within = omega (arith, h.within, legal.same_version);
  moved = inr (ground (arith, h.within, legal.same_version, h.moved));
}
IsTracked-step p t u n small h (beaten until now running) = record {
  within = omega (arith, h.within);
  moved = ground (arith, h.moved);
}

record IsTrackedIn (k : String) (p : Task) (n : ℕ) (s : Stores) : Type 0 where
  task : Task
  stored : lookup k s.task_store.tasks ≡ some task
  tracked : IsTracked p task n

run-IsTracked :
    (codec : Codec) {s s' : Stores} (r : Run codec s s')
    → IsSound s
    → (k : String) (p : Task) → lookup k s.task_store.tasks ≡ some p
    → p.version + operations r < 2 ^ 64
    → IsTrackedIn k p (operations r) s'
run-IsTracked codec start h k p found small = record {
  task = p;
  stored = found;
  tracked = record {
    within = omega arith;
    moved = inl (record {
      same_version = refl;
      same_status = refl;
      same_owner = refl;
      same_retries = refl;
      same_progress = refl;
      same_result = refl;
      same_error = refl;
      same_start = refl;
    });
  };
}
run-IsTracked codec (next {s' = s'} r ctx o) h k p found small =
    let before = run-IsTracked codec r h k p found (omega arith) in
    let f =
      Effect-IsFollowed (perform-Effect codec ctx o s' (run-IsSound codec r h)) k before.task
        before.stored in
    record {
      task = f.now;
      stored = f.stored;
      tracked = IsTracked-step p before.task f.now (operations r) small before.tracked f.follows;
    }

resolved_version :
    (codec : Codec) (ctx : Context) (id worker token : String) (s s' : Stores) (v : ℕ)
    → resolve_lease_version codec ctx id worker token s ≡ (ok v, s')
    → (p : LeaseTokenPayload) × (token_payload codec id worker token ≡ ok p) × (v ≡ p.version)
unfolding resolve_lease_version
resolved_version codec ctx id worker token s s' v h =
    elim (Result-cases (token_payload codec id worker token)) [
      | inl (p, e) ↦ (p, e, ground arith)
      | inr (x, e) ↦ absurd (ground arith)
    ]

prepared_version :
    (codec : Codec) (ctx : Context) (id worker : String) (version at : ℕ) (s s' : Stores) (t : Task)
    → prepare_running_task codec ctx id worker version at s ≡ (ok t, s')
    → t.version ≡ version
unfolding prepare_running_task get
prepared_version codec ctx id worker version at s s' t h = ground arith

-- A token is accepted for the version that it carries only.
pub accepted_version :
    (codec : Codec) (ctx : Context) (id worker token : String) (at : ℕ) (s s' : Stores) (t : Task)
    → leased_task codec ctx id worker token at s ≡ (ok t, s')
    → (p : LeaseTokenPayload) × (token_payload codec id worker token ≡ ok p)
      × (t.version ≡ p.version)
unfolding leased_task
accepted_version codec ctx id worker token at s s' t h =
    elim (Exec-cases (resolve_lease_version codec ctx id worker token s)) [
      | inl (v, r, e) ↦
          let (p, named, carried) = resolved_version codec ctx id worker token s r v e in
          (p, named, prepared_version codec ctx id worker v at r s' t (rw e at h) ∙ carried)
      | inr (x, r, e) ↦ absurd (ground (arith, h, e))
    ]

same_payload :
    (codec : Codec) (id worker token : String) (p q : LeaseTokenPayload)
    → token_payload codec id worker token ≡ ok p
    → token_payload codec id worker token ≡ ok q
    → p ≡ q
same_payload codec id worker token p q h k = ground arith

-- A token that is accepted at two times, with any operations between them, finds the same claim:
-- the same version, owner, status, retry count, progress, result, error and start, so that at most
-- the lease was renewed. The versions do not wrap around between the two times.
pub accepted_token-IsSameClaim :
    (codec : Codec) {s s' : Stores} (r : Run codec s s')
    → IsSound s
    → (id worker token : String) (ctx ctx' : Context) (at at' : ℕ) (p t : Task) (u u' : Stores)
    → p.version + operations r < 2 ^ 64
    → leased_task codec ctx id worker token at s ≡ (ok p, u)
    → leased_task codec ctx' id worker token at' s' ≡ (ok t, u')
    → IsSameClaim p t
accepted_token-IsSameClaim codec {s} {s'} r h id worker token ctx ctx' at at' p t u u' small first
      second =
    let (_, found, _) = leased_ok codec ctx s id worker token at p u first in
    let (_, stored, _) = leased_ok codec ctx' s' id worker token at' t u' second in
    let (x, named, carried) = accepted_version codec ctx id worker token at s u p first in
    let (y, again, matched) = accepted_version codec ctx' id worker token at' s' u' t second in
    let later = run-IsTracked codec r h id p found small in
    let same = same_payload codec id worker token x y named again in
    elim later.tracked.moved [
      | inl claim ↦ subst (IsSameClaim p) (ground arith) claim
      | inr beyond ↦ absurd (ground arith)
    ]
