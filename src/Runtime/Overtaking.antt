-- ===== src/Runtime/Overtaking.antt =====
-- A heartbeat and a progress report of one execution of pkg/taskpulseworker/runtime.go that are under
-- way together, with the same token.
use taskpulse.Prelude.{
  ℕ, ◌≡◌, refl, ap, ◌∙◌, subst, sym, String, true, false, none, some, List, [], ◌∷◌, ℤ, pos,
}
use taskpulse.Result.{Error, ok, err, Context}
use taskpulse.Task.{Task}
use taskpulse.Store.Both.{Stores}
use taskpulse.Store.Tasks.Claiming.{IsKeyed}
use taskpulse.Application.Codec.{Codec}
use taskpulse.Application.WorkerTasks.Tokens.{token_payload}
use taskpulse.Application.WorkerTasks.Operations.{Clock, report_progress, heartbeat_task}
use taskpulse.Application.WorkerTasks.Operations.Stale.{IsStale, stale_worker-IsRefused}
use taskpulse.Runtime.{Runtime}
use taskpulse.Runtime.Session.{
  Session, Call, resting, beat_sent, report_sent, answered, Move, beat_served, beat_returned,
  report_served, report_returned, moves, take_report, serve_report, take_beat, serve_beat,
}
use taskpulse.Runtime.Reports.{report_ok, reported-IsStale}

-- The heartbeat has ended the execution with an error, and nothing else was changed at the server.
pub record IsCutShort (v : Session) (s : Stores) (token : String) : Type 0 where
  pub canceled : v.canceled ≡ true
  pub error : Error
  pub passed_on : v.heartbeat_errors ≡ some error
  pub unchanged : v.stores ≡ s
  pub accepted : v.lease.token ≡ token

module _ (codec : Codec) (r : Runtime) (id : String) where
  abbrev late_answer : Context → Clock → String → List Move
  late_answer ctx clock event_id =
      report_served ctx clock event_id ∷ report_returned ∷ beat_returned ∷ []

  abbrev overtaken : Context → Clock → String → Context → ℕ → List Move
  overtaken ctx clock event_id ctx' now =
      report_served ctx clock event_id ∷ report_returned ∷ beat_served ctx' now ∷ beat_returned ∷ []

  abbrev after_report : Call → Context → Clock → String → Session → Session
  after_report c ctx clock event_id u =
      take_report (serve_report codec r id c ctx clock event_id u).report
        (serve_report codec r id c ctx clock event_id u)

  abbrev after_beat : Call → Context → ℕ → Session → Session
  after_beat c ctx now u =
      take_beat (serve_beat codec r id c ctx now u).heartbeat (serve_beat codec r id c ctx now u)

  report_made :
      (u : Session) (token : String) (progress : ℤ) (message : String) (ctx : Context)
      (clock : Clock) (event_id : String) (t : Task) (s : Stores)
      → report_progress codec ctx
          (record {
            task_id = id;
            worker_id = r.worker_id;
            lease_token = token;
            progress = progress;
            message = message;
          })
          clock
          event_id
          u.stores
        ≡ (ok t, s)
      → after_report (report_sent token progress message) ctx clock event_id u ≡ record u {
        lease = record { token = t.lease_token; version = t.version };
        report = resting;
        stores = s;
      }
  report_made u token progress message ctx clock event_id t s accepted = rw accepted

  beat_refused :
      (u : Session) (token : String) (read : ℕ) (ctx : Context) (now : ℕ) (x : Error)
      → u.canceled ≡ false
      → heartbeat_task codec ctx
          (record {
            task_id = id;
            worker_id = r.worker_id;
            lease_token = token;
            lease_duration = pos r.lease_duration;
          })
          now
          u.stores
        ≡ (err x, u.stores)
      → IsCutShort (after_beat (beat_sent token read) ctx now u) u.stores u.lease.token
  beat_refused u token read ctx now x live refused = rw refused (
      rw live (record {
        canceled = refl;
        error = x;
        passed_on = refl;
        unchanged = refl;
        accepted = refl;
      }))

  -- In stores with each task under its id, a heartbeat and a progress report of an execution that is
  -- not canceled are under way with one token. If the server accepts the report first, it refuses the
  -- heartbeat, and the runtime cancels the execution for this error, although its worker holds the
  -- lease and the runtime has the new token.
  pub overtaken-IsCutShort :
      (u : Session) (token : String) (read : ℕ) (progress : ℤ) (message : String) (ctx : Context)
      (clock : Clock) (event_id : String) (ctx' : Context) (now : ℕ) (t : Task) (s : Stores)
      → IsKeyed u.stores.task_store.tasks
      → u.canceled ≡ false
      → u.heartbeat ≡ beat_sent token read
      → u.report ≡ report_sent token progress message
      → report_progress codec ctx
          (record {
            task_id = id;
            worker_id = r.worker_id;
            lease_token = token;
            progress = progress;
            message = message;
          })
          clock
          event_id
          u.stores
        ≡ (ok t, s)
      → IsCutShort (moves codec r id (overtaken ctx clock event_id ctx' now) u) s t.lease_token
  unfolding moves
  overtaken-IsCutShort u token read progress message ctx clock event_id ctx' now t s keyed live beat
        report accepted =
      let at : Clock = record { checked_at = now; now = now } in
      let stale =
        reported-IsStale codec _ clock.now u.stores s t
          (report_ok codec ctx _ clock event_id u.stores s t keyed accepted) in
      let (x, refused) =
        (stale_worker-IsRefused codec ctx' none s id r.worker_id token stale at event_id).4
          (pos r.lease_duration) in
      let v : Session = record u {
        lease = record { token = t.lease_token; version = t.version };
        report = resting;
        stores = s;
      } in
      let made = report_made u token progress message ctx clock event_id t s accepted in
      let there : after_report u.report ctx clock event_id u ≡ v =
        ap (λ c. after_report c ctx clock event_id u) report ∙ made in
      subst (λ w. IsCutShort (after_beat w.heartbeat ctx' now w) s t.lease_token) (sym there)
        (subst (λ c. IsCutShort (after_beat c ctx' now v) s t.lease_token) (sym beat)
          (beat_refused v token read ctx' now x live refused))

  -- In stores with each task under its id, a heartbeat and a progress report are under way with one
  -- token, and the server has answered the
  -- heartbeat with a token that still names the same claim. If the server then accepts the report and
  -- the answer of the report is taken before that of the heartbeat, the runtime ends up with a token
  -- that is out of date, so that the server refuses all that it says of the task, completions
  -- included, while the task runs on.
  pub set_back-IsStale :
      (u : Session) (token : String) (read : ℕ) (beaten : Task) (progress : ℤ) (message : String)
      (ctx : Context) (clock : Clock) (event_id : String) (t : Task) (s : Stores)
      → IsKeyed u.stores.task_store.tasks
      → u.heartbeat ≡ answered read (ok beaten)
      → token_payload codec id r.worker_id beaten.lease_token
        ≡ token_payload codec id r.worker_id token
      → u.report ≡ report_sent token progress message
      → report_progress codec ctx
          (record {
            task_id = id;
            worker_id = r.worker_id;
            lease_token = token;
            progress = progress;
            message = message;
          })
          clock
          event_id
          u.stores
        ≡ (ok t, s)
      → let v = moves codec r id (late_answer ctx clock event_id) u in
        IsStale codec v.stores id r.worker_id v.lease.token
  unfolding moves
  set_back-IsStale u token read beaten progress message ctx clock event_id t s keyed beat same
        report accepted =
      let stale =
        reported-IsStale codec _ clock.now u.stores s t
          (report_ok codec ctx _ clock event_id u.stores s t keyed accepted) in
      let v : Session = record u {
        lease = record { token = t.lease_token; version = t.version };
        report = resting;
        stores = s;
      } in
      let made = report_made u token progress message ctx clock event_id t s accepted in
      let there : after_report u.report ctx clock event_id u ≡ v =
        ap (λ c. after_report c ctx clock event_id u) report ∙ made in
      subst
        (λ w.
          let x = take_beat w.heartbeat w in IsStale codec x.stores id r.worker_id x.lease.token)
        (sym there)
        (subst (λ c. let x = take_beat c v in IsStale codec x.stores id r.worker_id x.lease.token)
          (sym beat) (renamed stale same))
    where
      renamed :
          IsStale codec s id r.worker_id token
          → token_payload codec id r.worker_id beaten.lease_token
            ≡ token_payload codec id r.worker_id token
          → IsStale codec s id r.worker_id beaten.lease_token
      renamed h e = record {
        payload = h.payload;
        named = e ∙ h.named;
        task = h.task;
        stored = h.stored;
        runs = h.runs;
        later = h.later;
      }
