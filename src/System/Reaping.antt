-- ===== src/System/Reaping.antt =====
-- The loop of internal/worker/reaper.go, round after round.
use taskpulse.Prelude.{
  ℕ, String, ◌≡◌, Bool, true, false, some, Option, List, [], ◌∷◌, ℤ, is_nonpos, All, inl, inr,
  Bool-cases, lookup,
}
use taskpulse.Result.{Result, ok, err, Context, Exec, context_canceled}
use taskpulse.Task.{Task}
use taskpulse.Store.Both.{Stores}
use taskpulse.Store.Tasks.{exhausted}
use taskpulse.Store.Transition.Atomic.{fail_next_expired_with_event-Effect}
use taskpulse.Store.Transition.Spared.{fail_next_expired_with_event-spares}
use taskpulse.Worker.Reaper.{Reaping, process_next, after_reaping, reap_rounds, run}
use taskpulse.System.Invariant.{IsSound, Effect-IsSound}

module _ (k : String) (t : Task) where
  -- Sound stores with this task.
  abbrev pub IsKept : Stores → Type 0
  IsKept s = IsSound s × (lookup k s.task_store.tasks ≡ some t)

  -- At the time of the round the lease of the task lasts, or it has a retry left.
  abbrev pub IsSafe : Reaping → Type 0
  IsSafe r = exhausted r.now t ≡ false

  process_next-IsKept :
      (ctx : Context) (now : ℕ) (id : String) (s : Stores)
      → exhausted now t ≡ false
      → IsKept s
      → IsKept (process_next ctx now id s).1
  unfolding process_next
  process_next-IsKept ctx now id s lives (sound, there) = (
    Effect-IsSound (fail_next_expired_with_event-Effect ctx now id s sound.keyed) sound,
    fail_next_expired_with_event-spares k t ctx now id s sound.keyed lives there,
  )

  after_reaping-IsKept :
      (out : Result Bool × Stores) (stopped : Bool) (rest : Exec Stores (Option (Unit {0})))
      → IsKept out.1
      → IsKept (rest out.1).1
      → IsKept (after_reaping out.0 stopped rest out.1).1
  after_reaping-IsKept (ok true, s) stopped rest now later = later
  after_reaping-IsKept (ok false, s) true rest now later = now
  after_reaping-IsKept (ok false, s) false rest now later = later
  after_reaping-IsKept (err context_canceled, s) stopped rest now later = now
  after_reaping-IsKept (err e, s) stopped rest now later = now

  reap_rounds-IsKept :
      (rounds : List Reaping) (s : Stores)
      → All IsSafe rounds
      → IsKept s
      → IsKept (reap_rounds rounds s).1
  unfolding reap_rounds
  reap_rounds-IsKept [] s safe kept = kept
  reap_rounds-IsKept (r ∷ rs) s safe kept =
      let after = process_next-IsKept r.ctx r.now r.event_id s safe.0 kept in
      after_reaping-IsKept (process_next r.ctx r.now r.event_id s) r.stopped (reap_rounds rs) after
        (reap_rounds-IsKept rs (process_next r.ctx r.now r.event_id s).1 safe.1 after)

-- On sound stores, whatever the interval, and through failed and canceled rounds, the reaper keeps
-- the stores sound, and it leaves each stored task as it is that at the time of no round is running
-- with its lease run out and no retry left.
pub run-IsKept :
    (k : String) (t : Task) (poll_interval : ℤ) (rounds : List Reaping) (s : Stores)
    → All (IsSafe k t) rounds
    → IsSound s
    → lookup k s.task_store.tasks ≡ some t
    → IsKept k t (run poll_interval rounds s).1
unfolding run
run-IsKept k t poll_interval rounds s safe sound there =
    elim (Bool-cases (is_nonpos poll_interval)) [
      | inl e ↦ rw e (sound, there)
      | inr e ↦ rw e (reap_rounds-IsKept k t rounds s safe (sound, there))
    ]
