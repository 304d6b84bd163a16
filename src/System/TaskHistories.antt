-- ===== src/System/TaskHistories.antt =====
-- The life of one task: the methods of internal/domain/task.go, with what the stores and the services
-- write to the task besides.
use taskpulse.Prelude.{
  ℕ, ◌+◌, ◌||◌, ◌≡◌, String, true, false, some, ℤ, is_neg, magnitude, leb, arith,
}
use taskpulse.Result.{ok}
use taskpulse.Task.{
  TaskStatus, Task, is_running, running, new_task, move_to, schedule_retry, requeue_for_release,
  failed,
}
use taskpulse.Task.WellFormed.{
  IsWellFormed, new_task-IsWellFormed, move_to-IsWellFormed, schedule_retry-IsWellFormed,
  requeue_for_release-IsWellFormed,
}
use taskpulse.Store.Tasks.{
  ClaimOptions, RenewLeaseOptions, recoverable, available, lease_to, holds_lease,
}

abbrev pub recovered_task : ClaimOptions → Task → Task
recovered_task o t = lease_to o (record t { retry_count = t.retry_count + 1; updated_at = o.now })

abbrev pub renewed_task : RenewLeaseOptions → Task → Task
renewed_task o t = record t {
  lease_expires_at = some (o.now + magnitude o.lease_duration);
  last_heartbeat_at = some o.now;
  updated_at = o.now;
}

abbrev pub advanced_task : ℤ → ℕ → Task → Task
advanced_task n now t = record t { progress = magnitude n; updated_at = now }

-- What is written before a task ends.
abbrev pub with_outcome : String → String → Task → Task
with_outcome result message t = record t {
  result = result;
  progress = 100;
  error_message = message;
}

-- One change of the stored task: a claim starts or recovers it, its lease is renewed, its progress is
-- reported, or it ends, is put back or is released.
pub data Change (t : Task) : Task → Type 0 where
  claimed :
      (o : ClaimOptions) (u : Task)
      → available o t ≡ true
      → move_to t running o.now ≡ ok u
      → Change t (lease_to o u)
  recovered : (o : ClaimOptions) → recoverable o t ≡ true → Change t (recovered_task o t)
  renewed : (o : RenewLeaseOptions) → holds_lease o t ≡ true → Change t (renewed_task o t)
  reported :
      (n : ℤ) (now : ℕ)
      → (is_neg n || leb 100 (magnitude n)) ≡ false
      → Change t (advanced_task n now t)
  moved : (next : TaskStatus) (now : ℕ) (u : Task) → move_to t next now ≡ ok u → Change t u
  ended :
      (result message : String) (next : TaskStatus) (now : ℕ) (u : Task)
      → move_to (with_outcome result message t) next now ≡ ok u
      → Change t u
  failed_with :
      (message : String) (now : ℕ) (u : Task)
      → move_to (record t { error_message = message }) failed now ≡ ok u
      → Change t u
  retried :
      (code : String) (now available_at : ℕ) (u : Task)
      → schedule_retry t now available_at ≡ ok u
      → Change t (record u { error_message = code })
  released : (now : ℕ) (u : Task) → requeue_for_release t now ≡ ok u → Change t u

-- The tasks that `NewTask` and the changes lead to.
pub data Reached : Task → Type 0 where
  made :
      (id workflow input : String) (max_retries : ℤ) (now : ℕ) {t : Task}
      → new_task id workflow input max_retries now ≡ ok t
      → Reached t
  changed : {t u : Task} → Reached t → Change t u → Reached u

started-runs : (t u : Task) (now : ℕ) → move_to t running now ≡ ok u → is_running u.status ≡ true
unfolding move_to
started-runs t u now e = ground arith

lease_to-IsWellFormed :
    (o : ClaimOptions) (t : Task)
    → is_running t.status ≡ true
    → IsWellFormed t
    → IsWellFormed (lease_to o t)
lease_to-IsWellFormed o t r h = ground arith

recovered_task-IsWellFormed :
    (o : ClaimOptions) (t : Task)
    → recoverable o t ≡ true
    → IsWellFormed t
    → IsWellFormed (recovered_task o t)
unfolding recoverable
recovered_task-IsWellFormed o t r h = ground arith

renewed_task-IsWellFormed :
    (o : RenewLeaseOptions) (t : Task)
    → holds_lease o t ≡ true
    → IsWellFormed t
    → IsWellFormed (renewed_task o t)
renewed_task-IsWellFormed o t r h = ground arith

advanced_task-IsWellFormed :
    (n : ℤ) (now : ℕ) (t : Task)
    → (is_neg n || leb 100 (magnitude n)) ≡ false
    → IsWellFormed t
    → IsWellFormed (advanced_task n now t)
advanced_task-IsWellFormed n now t r h = ground arith

with_outcome-IsWellFormed :
    (result message : String) (t : Task)
    → IsWellFormed t
    → IsWellFormed (with_outcome result message t)
with_outcome-IsWellFormed result message t h = ground arith

noted-IsWellFormed :
    (message : String) (t : Task)
    → IsWellFormed t
    → IsWellFormed (record t { error_message = message })
noted-IsWellFormed message t h = ground arith

Change-IsWellFormed : {t u : Task} → Change t u → IsWellFormed t → IsWellFormed u
Change-IsWellFormed {t} (claimed o u free e) h =
    lease_to-IsWellFormed o u (started-runs t u o.now e)
      (move_to-IsWellFormed t u running o.now e h)
Change-IsWellFormed {t} (recovered o r) h = recovered_task-IsWellFormed o t r h
Change-IsWellFormed {t} (renewed o r) h = renewed_task-IsWellFormed o t r h
Change-IsWellFormed {t} (reported n now r) h = advanced_task-IsWellFormed n now t r h
Change-IsWellFormed {t} (moved next now u e) h = move_to-IsWellFormed t u next now e h
Change-IsWellFormed {t} (ended result message next now u e) h =
    move_to-IsWellFormed (with_outcome result message t) u next now e
      (with_outcome-IsWellFormed result message t h)
Change-IsWellFormed {t} (failed_with message now u e) h =
    move_to-IsWellFormed (record t { error_message = message }) u failed now e
      (noted-IsWellFormed message t h)
Change-IsWellFormed {t} (retried code now at u e) h =
    noted-IsWellFormed code u (schedule_retry-IsWellFormed t u now at e h)
Change-IsWellFormed {t} (released now u e) h = requeue_for_release-IsWellFormed t u now e h

-- Every task that `NewTask` makes and that claims, recoveries, renewals, progress reports, ends,
-- retries and releases change, in any order, is well formed: it is leased only while it runs, has an
-- end time exactly in a final status, has a start time while it runs, and keeps its retry budget and
-- its progress in range.
pub Reached-IsWellFormed : {t : Task} → Reached t → IsWellFormed t
Reached-IsWellFormed (made id workflow input max_retries now {t = t} e) =
    new_task-IsWellFormed id workflow input max_retries now t e
Reached-IsWellFormed (changed r c) = Change-IsWellFormed c (Reached-IsWellFormed r)
