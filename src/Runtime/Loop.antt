-- ===== src/Runtime/Loop.antt =====
-- pkg/taskpulseworker/runtime.go: the loop `Run`, on the rounds that it gets to: what each claim gave,
-- and what the context said at each look at it.
use taskpulse.Prelude.{ℕ, ◌+◌, Bool, ◌&&◌, Option, none, some, List, [], ◌∷◌, pos, if◌then◌else◌}
use taskpulse.Result.{Error, ok, err}
use taskpulse.Runtime.{
  Runtime, ClaimedTask, ClaimError, validate_claimed_task, claim_retry_delay,
  is_retryable_claim_error,
}

pub data Claimed : Type 0 where
  no_task : Claimed
  claim_failed : ClaimError → Claimed
  claimed : Option ClaimedTask → Claimed

pub record Round : Type 0 where
  -- `ctx.Err() != nil` at the head of the loop.
  pub done_before : Bool
  pub claim : Claimed
  -- The context ends a pause.
  pub pause_canceled : Bool
  -- `execute` returned an error, and `ctx.Err() != nil` then.
  pub execution_failed : Bool
  pub done_after : Bool

-- `running` after the given rounds, with so many failed claims in a row.
pub data Progress : Type 0 where
  running : ℕ → Progress
  stopped : Progress
  gave_up : ClaimError → Progress
  refused : Error → Progress

-- What the loop does next: it pauses or executes a task, and goes on.
pub data Doing : Type 0 where
  pause : ℕ → Doing
  execute : ClaimedTask → Doing

abbrev pub paused : Bool → ℕ → ℕ → (ℕ → Progress × List Doing) → Progress × List Doing
paused canceled d failures rest =
    if canceled then (stopped, pause d ∷ []) else let (p, ds) = rest failures in (p, pause d ∷ ds)

abbrev pub executed :
    Bool → Bool → ClaimedTask → (ℕ → Progress × List Doing) → Progress × List Doing
executed failed done t rest =
    if failed && done
    then (stopped, execute t ∷ [])
    else let (p, ds) = rest 0 in (p, execute t ∷ ds)

module _ (r : Runtime) where
  abbrev pub checked :
      Option ClaimedTask → Round → (ℕ → Progress × List Doing) → Progress × List Doing
  checked none round rest = elim (validate_claimed_task r none) [
    | err e ↦ (refused e, [])
    | ok u ↦ (stopped, [])
  ]
  checked (some t) round rest = elim (validate_claimed_task r (some t)) [
    | err e ↦ (refused e, [])
    | ok u ↦ executed round.execution_failed round.done_after t rest
  ]

  abbrev pub after_claim : Claimed → ℕ → Round → (ℕ → Progress × List Doing) → Progress × List Doing
  after_claim no_task failures round rest = paused round.pause_canceled r.poll_interval 0 rest
  after_claim (claim_failed e) failures round rest =
      if is_retryable_claim_error (some e)
      then paused round.pause_canceled
          (claim_retry_delay (pos r.poll_interval) (pos r.claim_retry_max_interval) (failures + 1))
          (failures + 1) rest
      else (gave_up e, [])
  after_claim (claimed t) failures round rest = checked t round rest

  unfoldable pub run_loop : List Round → ℕ → Progress × List Doing
  unfolding validate_claimed_task claim_retry_delay is_retryable_claim_error
  run_loop [] failures = (running failures, [])
  run_loop (round ∷ rounds) failures =
      let rest = after_claim round.claim failures round (run_loop rounds) in
      if round.done_before then (stopped, []) else rest

  unfoldable pub run : List Round → Progress × List Doing
  unfolding run_loop
  run rounds = run_loop rounds 0
