-- ===== src/Worker/Polling.antt =====
-- The loop `Run` of internal/worker/worker.go. It has no end of its own, so it is modelled on the
-- rounds that it gets to: `ok none` says that it is still running after them.
pub mod Endings
use taskpulse.Prelude.{
  Bool, true, false, Option, none, some, List, [], ◌∷◌, ℤ, is_nonpos, if◌then◌else◌,
}
use taskpulse.Result.{Error, Result, ok, err, Exec, context_canceled, invalid_poll_interval}
use taskpulse.Store.Both.{Stores}
use taskpulse.Worker.Processing.{is_lease_lost}

-- One round: what `ProcessNext` does, and whether the context is done before the timer fires.
pub record Round : Type 0 where
  pub step : Exec Stores Bool
  pub stopped : Bool

abbrev pub is_context_canceled : Error → Bool
is_context_canceled context_canceled = true
is_context_canceled _ = false

-- A canceled context ends the loop without an error, a lost lease does not end it, and only a round
-- without a task waits.
abbrev pub after_round :
    Result Bool → Bool → Exec Stores (Option (Unit {0})) → Exec Stores (Option (Unit {0}))
after_round (ok true) stopped rest s = rest s
after_round (ok false) stopped rest s = if stopped then (ok (some tt), s) else rest s
after_round (err e) stopped rest s =
    if is_context_canceled e
    then (ok (some tt), s)
    else if is_lease_lost e
    then rest s
    else (err e, s)

unfoldable pub run_rounds : List Round → Exec Stores (Option (Unit {0}))
run_rounds [] s = (ok none, s)
run_rounds (r ∷ rs) s = let (out, s') = r.step s in after_round out r.stopped (run_rounds rs) s'

unfoldable pub run : ℤ → List Round → Exec Stores (Option (Unit {0}))
unfolding run_rounds
run poll_interval rounds s =
    if is_nonpos poll_interval then (err invalid_poll_interval, s) else run_rounds rounds s
