-- ===== src/Tests/Runtimes.antt =====
-- A runtime for one workflow.
use Prim.Native.Nat.{min}
use taskpulse.Prelude.{
  ◌-◌, ◌*◌, ◌^◌, ◌≡◌, refl, true, some, pos, [], ◌∷◌, arith, lookup, insert, trim_space,
}
use taskpulse.Result.{ok}
use taskpulse.Runtime.{
  Config, Runtime, new_runtime, register, ClaimedTask, validate_claimed_task, claim_retry_delay,
}
use taskpulse.Runtime.Facts.{IsReady, new_runtime-IsReady, claim_retry_delay-eq-min}

abbrev default_config : Config
default_config = record {
  client = true;
  worker_id = "w1";
  workflow = "resize";
  lease_duration = pos 0;
  poll_interval = pos 0;
  claim_retry_max_interval = pos 0;
  heartbeat_interval = pos 0;
  execution_timeout = pos 0;
  shutdown_timeout = pos 0;
}

abbrev new_one : Runtime
new_one = record {
  worker_id = "w1";
  workflow = "resize";
  lease_duration = 30_000_000_000;
  poll_interval = 1_000_000_000;
  claim_retry_max_interval = 5_000_000_000;
  heartbeat_interval = 10_000_000_000;
  execution_timeout = 0;
  shutdown_timeout = 5_000_000_000;
  executors = [];
}

abbrev ready_one : Runtime
ready_one = record new_one { executors = ("resize", tt) ∷ [] }

made : new_runtime default_config ≡ ok new_one
unfolding new_runtime trim_space
made = refl

new_runtime-IsReady_example : IsReady new_one
new_runtime-IsReady_example = new_runtime-IsReady default_config new_one made

registered : register "resize" true new_one ≡ ok ready_one
unfolding register lookup insert
registered = refl

abbrev claimed_task : ClaimedTask
claimed_task = record {
  id = "t1";
  workflow = "resize";
  status = "running";
  lease_token = "t1;w1;1;";
}

accepted : validate_claimed_task ready_one (some claimed_task) ≡ ok tt
unfolding validate_claimed_task trim_space
accepted = refl

claim_retry_delay-eq-min_example :
    claim_retry_delay (pos 1000) (pos 5000) 4 ≡ min (1000 * 2 ^ (4 - 1)) 5000
claim_retry_delay-eq-min_example =
    claim_retry_delay-eq-min 1000 5000 4 (omega arith) (omega arith) (omega arith)
