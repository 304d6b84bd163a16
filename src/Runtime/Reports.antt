-- ===== src/Runtime/Reports.antt =====
-- What an accepted progress report of internal/application/worker_task_service.go leaves of its token.
use taskpulse.Prelude.{
  ℕ, ◌≡◌, ap, ◌∙◌, subst, String, true, false, ◌||◌, none, some, ◌==◌, inl, inr, arith, is_neg, leb,
  magnitude, lookup, lookup-insert_self, Bool-cases, Option-cases,
}
use taskpulse.Result.{Error, Result, ok, err, Context, continue, invalid_worker_request, Exec-cases}
use taskpulse.Task.{Task, is_running}
use taskpulse.Event.{TaskEvent}
use taskpulse.Store.Both.{Stores}
use taskpulse.Store.Tasks.{get, next_version}
use taskpulse.Store.Effect.{changed, advanced}
use taskpulse.Store.Tasks.Claiming.{IsKeyed}
use taskpulse.Store.Transition.{update_task_with_event}
use taskpulse.Application.Codec.{Codec, LeaseTokenPayload}
use taskpulse.System.Fencing.{accepted_version}
use taskpulse.Application.WorkerTasks.Tokens.{token_payload, with_lease_token, is_held}
use taskpulse.Application.WorkerTasks.Operations.{
  Clock, ReportProgressInput, report_progress, progress_event, get_leased, save,
}
use taskpulse.Application.WorkerTasks.Operations.Leased.{leased_cases}
use taskpulse.Application.WorkerTasks.Operations.Stale.{IsStale}

update_ok :
    (ctx : Context) (t : Task) (e : TaskEvent) (s s' : Stores)
    → update_task_with_event ctx (some t) (some e) s ≡ (ok tt, s')
    → s' ≡ changed t e s
unfolding update_task_with_event
update_ok ctx t e s s' h = ground arith

pub save_ok :
    (codec : Codec) (ctx : Context) (t u : Task) (event : Result TaskEvent) (s s' : Stores)
    → save codec ctx t event s ≡ (ok u, s')
    → (u ≡ t) × ((e : TaskEvent) × (s' ≡ changed t e s))
unfolding save
save_ok codec ctx t u (err x) s s' h = cc
save_ok codec ctx t u (ok e) s s' h =
    elim (Exec-cases (update_task_with_event ctx (some t) (some e) s)) [
      | inl (a, v, q) ↦ made v (rw q at h) (update_ok ctx t e s v q)
      | inr (x, v, q) ↦ absurd (refused x v (rw q at h))
    ]
  where
    made :
        (v : Stores)
        → ◌≡◌ {A = Result Task × Stores} (ok t, v) (ok u, s')
        → v ≡ changed t e s
        → (u ≡ t) × ((f : TaskEvent) × (s' ≡ changed t f s))
    made v k c = (cc, (e, cc))

    refused : (x : Error) (v : Stores) → ◌≡◌ {A = Result Task × Stores} (err x, v) (ok u, s') → ⊥
    refused x v k = cc

get_ok :
    (codec : Codec) (ctx : Context) (id : String) (u : Task) (s s' : Stores)
    → get_leased codec ctx id s ≡ (ok u, s')
    → (s' ≡ s)
      × ((t : Task) × (lookup id s.task_store.tasks ≡ some t) × (u ≡ with_lease_token codec t))
unfolding get_leased get
get_ok codec (some x) id u s s' h = cc
get_ok codec none id u s s' h = elim (Option-cases (lookup id s.task_store.tasks)) [
  | inl e ↦ absurd (ground (arith, h))
  | inr (t, e) ↦ (ground arith, (t, e, ground arith))
]

-- A change that is saved and read again.
saved_ok :
    (codec : Codec) (ctx : Context) (t u : Task) (event : Result TaskEvent) (s s' : Stores)
    → continue
        (save codec ctx t event s).0
        (λ saved. get_leased codec ctx saved.id)
        (save codec ctx t event s).1
      ≡ (ok u, s')
    → (lookup t.id s'.task_store.tasks ≡ some (advanced t))
      × (u ≡ with_lease_token codec (advanced t))
saved_ok codec ctx t u event s s' h = elim (Exec-cases (save codec ctx t event s)) [
  | inr (x, v, q) ↦ absurd (refused x v (rw q at h))
  | inl (w, v, q) ↦
      let (same, (e, made)) = save_ok codec ctx t w event s v q in
      let (kept, (a, found, answer)) = get_ok codec ctx w.id u v s' (rw q at h) in
      let there = written e v made in
      let stored : lookup w.id v.task_store.tasks ≡ some (advanced t) = rw same there in
      let alike : a ≡ advanced t = cc in
      (rw kept there, rw answer (ap (with_lease_token codec) alike))
]
  where
    refused : (x : Error) (v : Stores) → ◌≡◌ {A = Result Task × Stores} (err x, v) (ok u, s') → ⊥
    refused x v k = cc

    written :
        (e : TaskEvent) (v : Stores)
        → v ≡ changed t e s
        → lookup t.id v.task_store.tasks ≡ some (advanced t)
    written e v made =
        ap (λ x. lookup t.id x.task_store.tasks) made
        ∙ lookup-insert_self t.id (advanced t) s.task_store.tasks

-- The task as a report leaves it.
abbrev pub reported : Task → ReportProgressInput → ℕ → Task
reported p i now = record p { progress = magnitude i.progress; updated_at = now }

-- An accepted report finds the task under the version of its token, and moves it to the next.
pub record IsReported (codec : Codec) (i : ReportProgressInput) (now : ℕ) (s s' : Stores) (u : Task)
    : Type 0 where
  pub before : Task
  pub payload : LeaseTokenPayload
  pub named : token_payload codec i.task_id i.worker_id i.lease_token ≡ ok payload
  pub found : lookup i.task_id s.task_store.tasks ≡ some before
  pub carried : before.version ≡ payload.version
  pub runs : is_running before.status ≡ true
  pub stored : lookup i.task_id s'.task_store.tasks ≡ some (advanced (reported before i now))
  pub answer : u ≡ with_lease_token codec (advanced (reported before i now))

pub report_ok :
    (codec : Codec) (ctx : Context) (i : ReportProgressInput) (clock : Clock) (event_id : String)
    (s s' : Stores) (u : Task)
    → IsKeyed s.task_store.tasks
    → report_progress codec ctx i clock event_id s ≡ (ok u, s')
    → IsReported codec i clock.now s s' u
unfolding report_progress
report_ok codec ctx i clock event_id s s' u keyed h =
    elim (Bool-cases (is_neg i.progress || leb 100 (magnitude i.progress))) [
      | inl outside ↦ absurd (bad (rw outside at h))
      | inr inside ↦
          elim (leased_cases codec ctx s i.task_id i.worker_id i.lease_token clock.checked_at) [
            | inr (x, e) ↦ absurd (refused x (rw (inside, e) at h))
            | inl (p, e, found, held) ↦
                let (payload, named, carried) =
                  accepted_version codec ctx i.task_id i.worker_id i.lease_token clock.checked_at s
                    s p e in
                let own = keyed.keyed i.task_id p found in
                let (stored, answer) =
                  saved_ok codec ctx (reported p i clock.now) u
                    (progress_event codec ctx i clock.now event_id (reported p i clock.now)) s s'
                    (rw (inside, e) at h) in
                record {
                  before = p;
                  payload = payload;
                  named = named;
                  found = found;
                  carried = carried;
                  runs = held_runs p held;
                  stored =
                      subst
                        (λ k.
                          lookup k s'.task_store.tasks ≡ some (advanced (reported p i clock.now)))
                        own stored;
                  answer = answer;
                }
          ]
    ]
  where
    held_runs :
        (p : Task) → is_held i.worker_id clock.checked_at p ≡ true → is_running p.status ≡ true
    held_runs p held = ground arith

    bad :
        ◌≡◌ {A = Result Task × Stores}
          (err (invalid_worker_request "progress must be between 0 and 99"), s)
          (ok u, s')
        → ⊥
    bad k = cc

    refused : (x : Error) → ◌≡◌ {A = Result Task × Stores} (err x, s) (ok u, s') → ⊥
    refused x k = cc

next_version-ne : (v : ℕ) → (next_version v == v) ≡ false
next_version-ne v = ground arith

-- After an accepted report the token that it was made with is out of date.
pub reported-IsStale :
    (codec : Codec) (i : ReportProgressInput) (now : ℕ) (s s' : Stores) (u : Task)
    → IsReported codec i now s s' u
    → IsStale codec s' i.task_id i.worker_id i.lease_token
reported-IsStale codec i now s s' u h = record {
  payload = h.payload;
  named = h.named;
  task = advanced (reported h.before i now);
  stored = h.stored;
  runs = ground (arith, h.runs);
  later = rw (← h.carried) (next_version-ne h.before.version);
}
