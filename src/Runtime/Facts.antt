-- ===== src/Runtime/Facts.antt =====
-- What the runtime of pkg/taskpulseworker/runtime.go may rely on.
use Prim.Native.Nat.{min}
use taskpulse.Prelude.{
  ℕ, zero, suc, ◌-◌, ◌*◌, ◌^◌, ◌%◌, leb, lookup-insert_self, ◌≤◌, ◌<◌, String, Bool, true, false,
  some, ◌≡◌, refl, ◌∙◌, ◌⊎◌, inl, inr, pos, arith, text_eq_iff, is_empty, is_some, lookup,
  Bool-cases,
}
use taskpulse.Result.{ok, is_ok}
use taskpulse.Worker.Backoff.{cap_loop}
use taskpulse.Worker.Backoff.Bounds.{cap_loop-eq-min}
use taskpulse.Runtime.{
  Config, Runtime, new_runtime, register, ClaimedTask, validate_claimed_task, retry_loop,
  claim_retry_delay,
}

pub record IsReady (r : Runtime) : Type 0 where
  pub named : is_empty r.worker_id ≡ false
  pub leases : 0 < r.lease_duration
  pub polls : 0 < r.poll_interval
  pub backs_off : r.poll_interval ≤ r.claim_retry_max_interval
  pub in_lease : r.heartbeat_interval < r.lease_duration
  -- A lease of less than three nanoseconds leaves no interval.
  pub beats : (0 < r.heartbeat_interval) ⊎ (r.lease_duration < 3)
  pub shuts_down : 0 < r.shutdown_timeout

-- A runtime that New gives has a worker id, a positive lease, poll interval and shutdown timeout, a
-- longest claim backoff of at least the poll interval, and a heartbeat interval shorter than the
-- lease, which is positive unless the lease is shorter than three nanoseconds.
pub new_runtime-IsReady : (c : Config) (r : Runtime) → new_runtime c ≡ ok r → IsReady r
unfolding new_runtime
new_runtime-IsReady c r h = record {
  named = ground arith;
  leases = ground arith;
  polls = ground arith;
  backs_off = ground arith;
  in_lease = ground arith;
  beats = ground arith;
  shuts_down = ground arith;
}

retry_loop_lem :
    (rounds maximum delay : ℕ) → retry_loop rounds maximum delay ≡ cap_loop rounds maximum delay
unfolding retry_loop cap_loop
retry_loop_lem zero maximum delay = refl
retry_loop_lem (suc rounds) maximum delay =
    ground (arith, retry_loop_lem rounds maximum ((delay * 2) % 2 ^ 64))

first_round : (failures : ℕ) → leb failures 1 ≡ true → 2 ^ (failures - 1) ≡ 1
first_round zero h = refl
first_round (suc zero) h = refl
first_round (suc (suc n)) h = ground arith

-- The pause after a failed claim doubles with every failure in a row, from the base up to the
-- maximum and not beyond; no product wraps.
pub claim_retry_delay-eq-min :
    (base maximum failures : ℕ)
    → 0 < base
    → base ≤ maximum
    → maximum < 2 ^ 63
    → claim_retry_delay (pos base) (pos maximum) failures ≡ min (base * 2 ^ (failures - 1)) maximum
unfolding claim_retry_delay
claim_retry_delay-eq-min base maximum failures h k small =
    let doubled =
      retry_loop_lem (failures - 1) maximum base
      ∙ cap_loop-eq-min (failures - 1) maximum base small k in
    elim (Bool-cases (leb failures 1)) [
      | inl e ↦ ground (arith, first_round failures e)
      | inr e ↦ ground (arith, doubled)
    ]

register_made :
    (w : String) (given : Bool) (r u : Runtime)
    → register w given r ≡ ok u
    → (is_empty w ≡ false) × (u.workflow ≡ w) × (is_some (lookup w u.executors) ≡ true)
unfolding register
register_made w given r u h = (
  ground arith,
  ground (arith, text_eq_iff w r.workflow),
  ground (arith, lookup-insert_self w tt r.executors),
)

register_refused :
    (v w : String) (given : Bool) (u : Runtime)
    → u.workflow ≡ w
    → is_some (lookup w u.executors) ≡ true
    → is_ok (register v given u) ≡ false
unfolding register
register_refused v w given u same there = ground (arith, text_eq_iff v u.workflow)

-- After an executor was registered no further one is, whatever its workflow.
pub register_once :
    (w v : String) (given given' : Bool) (r u : Runtime)
    → register w given r ≡ ok u
    → is_ok (register v given' u) ≡ false
register_once w v given given' r u h =
    let (named, same, there) = register_made w given r u h in
    register_refused v w given' u same there

-- Once an executor is registered, every claimed task that the runtime accepts has an executor: the
-- branch of `execute` without one is not reached.
pub accepted_has_executor :
    (w : String) (given : Bool) (r u : Runtime) (t : ClaimedTask)
    → register w given r ≡ ok u
    → validate_claimed_task u (some t) ≡ ok tt
    → is_some (lookup t.workflow u.executors) ≡ true
unfolding validate_claimed_task
accepted_has_executor w given r u t h accepted =
    let (named, same, there) = register_made w given r u h in
    let key : t.workflow ≡ u.workflow = ground (arith, text_eq_iff t.workflow u.workflow) in
    rw (key ∙ same) there
