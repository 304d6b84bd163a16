-- ===== src/Runtime/Session.antt =====
-- pkg/taskpulseworker/runtime.go: the lease token that the heartbeats and the progress reports of one
-- execution share. A call of the client is in three steps: the token is read, under the lock, and the
-- request leaves; the server answers it; the answer is written back, under the lock. Steps of the
-- two, and of others at the server, come in any order. The client hands requests and answers on as
-- they are.
use taskpulse.Prelude.{
  ℕ, String, Bool, true, false, not, ◌||◌, Option, none, some, List, [], ◌∷◌, ℤ, pos, ◌==◌,
  if◌then◌else◌,
}
use taskpulse.Result.{Error, Result, ok, err, Context}
use taskpulse.Task.{Task}
use taskpulse.Store.Both.{Stores}
use taskpulse.Application.Codec.{Codec}
use taskpulse.Application.WorkerTasks.Operations.{Clock, heartbeat_task, report_progress}
use taskpulse.Runtime.{Runtime}
use taskpulse.System.{Operation, perform}

-- `leaseState`
pub record LeaseState : Type 0 where
  pub token : String
  pub version : ℕ

-- The request that is under way.
pub data Call : Type 0 where
  resting : Call
  -- The token and the version that were read, and for a report what it says.
  beat_sent : String → ℕ → Call
  report_sent : String → ℤ → String → Call
  answered : ℕ → Result Task → Call
  -- The goroutine has returned.
  stopped : Call

-- One execution: its lease, the two calls, the context and the channel of heartbeat errors.
pub record Session : Type 0 where
  pub lease : LeaseState
  pub heartbeat : Call
  pub report : Call
  pub canceled : Bool
  pub heartbeat_errors : Option Error
  pub stores : Stores

pub data Move : Type 0 where
  -- The ticker fires; the server has the heartbeat; its answer is back.
  tick : Move
  beat_served : Context → ℕ → Move
  beat_returned : Move
  -- The executor calls `Report`; the server has it; its answer is back.
  report_called : ℤ → String → Move
  report_served : Context → Clock → String → Move
  report_returned : Move
  -- The execution ends, or somebody else does something at the server.
  cancel_context : Move
  elsewhere : Context → Operation → Move

-- `state := &leaseState{token: task.LeaseToken, version: task.Version}`
unfoldable pub new_session : Task → Stores → Session
new_session t s = record {
  lease = record { token = t.lease_token; version = t.version };
  heartbeat = resting;
  report = resting;
  canceled = false;
  heartbeat_errors = none;
  stores = s;
}

abbrev pub send_beat : Call → Session → Session
send_beat resting u =
    if u.canceled
    then record u { heartbeat = stopped }
    else record u { heartbeat = beat_sent u.lease.token u.lease.version }
send_beat _ u = u

-- The version is kept if the answer has none, unless none was known.
abbrev pub version_after : ℕ → ℕ → ℕ → ℕ
version_after answer read kept = if not (answer == 0) || read == 0 then answer else kept

abbrev pub take_beat : Call → Session → Session
take_beat (answered read (ok t)) u = record u {
  lease = record { token = t.lease_token; version = version_after t.version read u.lease.version };
  heartbeat = resting;
}
-- An error is passed on and ends the execution, unless that is over.
take_beat (answered read (err e)) u =
    if u.canceled
    then record u { heartbeat = stopped }
    else record u { heartbeat = stopped; canceled = true; heartbeat_errors = some e }
take_beat _ u = u

abbrev pub send_report : Call → ℤ → String → Session → Session
send_report resting progress message u = record u {
  report = report_sent u.lease.token progress message;
}
send_report _ progress message u = u

-- An error of a report is the executor's to handle.
abbrev pub take_report : Call → Session → Session
take_report (answered read (ok t)) u = record u {
  lease = record { token = t.lease_token; version = t.version };
  report = resting;
}
take_report (answered read (err e)) u = record u { report = resting }
take_report _ u = u

module _ (codec : Codec) (r : Runtime) (id : String) where
  abbrev pub serve_beat : Call → Context → ℕ → Session → Session
  serve_beat (beat_sent token read) ctx now u =
      let (out, s) =
        heartbeat_task codec ctx
          (record {
            task_id = id;
            worker_id = r.worker_id;
            lease_token = token;
            lease_duration = pos r.lease_duration;
          })
          now u.stores in
      record u { heartbeat = answered read out; stores = s }
  serve_beat _ ctx now u = u

  abbrev pub serve_report : Call → Context → Clock → String → Session → Session
  serve_report (report_sent token progress message) ctx clock event_id u =
      let (out, s) =
        report_progress codec ctx
          (record {
            task_id = id;
            worker_id = r.worker_id;
            lease_token = token;
            progress = progress;
            message = message;
          })
          clock event_id u.stores in
      record u { report = answered 0 out; stores = s }
  serve_report _ ctx clock event_id u = u

  unfoldable pub move : Move → Session → Session
  unfolding perform
  move tick u = send_beat u.heartbeat u
  move (beat_served ctx now) u = serve_beat u.heartbeat ctx now u
  move beat_returned u = take_beat u.heartbeat u
  move (report_called progress message) u = send_report u.report progress message u
  move (report_served ctx clock event_id) u = serve_report u.report ctx clock event_id u
  move report_returned u = take_report u.report u
  move cancel_context u = record u { canceled = true }
  move (elsewhere ctx o) u = record u { stores = perform codec ctx o u.stores }

  unfoldable pub moves : List Move → Session → Session
  unfolding move
  moves [] u = u
  moves (m ∷ ms) u = moves ms (move m u)
