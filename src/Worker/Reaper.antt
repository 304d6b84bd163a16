-- ===== src/Worker/Reaper.antt =====
-- `ProcessNext` and `Run` of internal/worker/reaper.go; its metrics and its log are not modelled. The
-- loop has no end of its own, so it is modelled on the rounds that it gets to: `ok none` says that it
-- is still running after them.
use taskpulse.Prelude.{
  ℕ, String, Bool, true, false, Option, none, some, List, [], ◌∷◌, ℤ, is_nonpos, if◌then◌else◌,
}
use taskpulse.Result.{
  Result, ok, err, Context, Exec, no_expired_task, context_canceled, invalid_poll_interval,
}
use taskpulse.Task.{Task}
use taskpulse.Store.Both.{Stores}
use taskpulse.Store.Transition.{fail_next_expired_with_event}

abbrev processed : Result Task → Result Bool
processed (ok t) = ok true
processed (err no_expired_task) = ok false
processed (err x) = err x

unfoldable pub process_next : Context → ℕ → String → Exec Stores Bool
process_next ctx now event_id s =
    let (r, s') = fail_next_expired_with_event ctx now event_id s in (processed r, s')

-- One round: what `ProcessNext` is given, and whether the context is done before the timer fires.
pub record Reaping : Type 0 where
  pub ctx : Context
  pub now : ℕ
  pub event_id : String
  pub stopped : Bool

-- Only a round without a task waits, and a canceled context ends the loop without an error.
abbrev pub after_reaping :
    Result Bool → Bool → Exec Stores (Option (Unit {0})) → Exec Stores (Option (Unit {0}))
after_reaping (ok true) stopped rest s = rest s
after_reaping (ok false) stopped rest s = if stopped then (ok (some tt), s) else rest s
after_reaping (err context_canceled) stopped rest s = (ok (some tt), s)
after_reaping (err e) stopped rest s = (err e, s)

unfoldable pub reap_rounds : List Reaping → Exec Stores (Option (Unit {0}))
unfolding process_next
reap_rounds [] s = (ok none, s)
reap_rounds (r ∷ rs) s =
    let (out, s') = process_next r.ctx r.now r.event_id s in
    after_reaping out r.stopped (reap_rounds rs) s'

unfoldable pub run : ℤ → List Reaping → Exec Stores (Option (Unit {0}))
unfolding reap_rounds
run poll_interval rounds s =
    if is_nonpos poll_interval then (err invalid_poll_interval, s) else reap_rounds rounds s
